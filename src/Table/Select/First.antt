-- ===== src/Table/Select/First.antt =====
-- The row of a selection with `LIMIT 1`.
use mathlib.Core.Path.{subst}
use mathlib.Core.Option.{some-injective}
use partha.Prelude.{
  ◌≡◌, refl, Bool, true, false, Option, none, some, List, [], ◌∷◌, arith, All, inl, inr, Bool-cases,
  Option-cases, sym, ◌∙◌, ap, ℕ, ◌==◌, ==_iff, ==_refl,
}
use partha.Table.{find, IsKeyed}
use partha.Table.Select.{better, first_by}

module _ {Row : Type 0} (le : Row → Row → Bool) where
  -- Nothing is selected exactly when no row passes the guard.
  pub first_by-none :
      (p : Row → Bool) (t : List Row) → first_by le p t ≡ none → All (λ r. p r ≡ false) t
  unfolding first_by
  first_by-none p [] h = tt
  first_by-none p (r ∷ t) h = ground (arith, first_by-none p t)

-- `r` comes before every row of the table that passes the guard.
abbrev pub IsFirst : {Row : Type 0} → (Row → Row → Bool) → (Row → Bool) → Row → List Row → Type 0
IsFirst le p r t = All (λ s. p s ≡ true → le r s ≡ true) t

module _ {Row : Type 0} (le : Row → Row → Bool) (refl_le : (a : Row) → le a a ≡ true)
    (trans_le : (a b c : Row) → le a b ≡ true → le b c ≡ true → le a c ≡ true)
    (total_le : (a b : Row) → le a b ≡ false → le b a ≡ true) (p : Row → Bool) where
  IsFirst-of_none : (r : Row) (t : List Row) → All (λ s. p s ≡ false) t → IsFirst le p r t
  IsFirst-of_none r [] h = tt
  IsFirst-of_none r (s ∷ t) h = ((λ e. cc), IsFirst-of_none r t h.1)

  IsFirst-before :
      (r s : Row) → le r s ≡ true → (t : List Row) → IsFirst le p s t → IsFirst le p r t
  IsFirst-before r s e [] h = tt
  IsFirst-before r s e (u ∷ t) h = ((λ pu. trans_le r s u e (h.0 pu)), IsFirst-before r s e t h.1)

  better-some :
      (x : Row) (t : List Row) (o : Option Row) {r : Row}
      → p x ≡ true
      → (o ≡ none → All (λ s. p s ≡ false) t)
      → ((s : Row) → o ≡ some s → (p s ≡ true) × IsFirst le p s t)
      → better le x o ≡ some r
      → (p r ≡ true) × ((p x ≡ true → le r x ≡ true) × IsFirst le p r t)
  better-some x t none {r} px absent found h =
      let e = some-injective x r h in
      subst (λ r. (p r ≡ true) × ((p x ≡ true → le r x ≡ true) × IsFirst le p r t)) e
        (px, ((λ _. refl_le x), IsFirst-of_none x t (absent refl)))
  better-some x t (some s) {r} px absent found h = elim (Bool-cases (le x s)) [
    | inl c ↦
        let e = some-injective x r ((rw c at h)) in
        subst (λ r. (p r ≡ true) × ((p x ≡ true → le r x ≡ true) × IsFirst le p r t)) e
          (px, ((λ _. refl_le x), IsFirst-before x s c t (found s refl).1))
    | inr c ↦
        let e = some-injective s r ((rw c at h)) in
        subst (λ r. (p r ≡ true) × ((p x ≡ true → le r x ≡ true) × IsFirst le p r t)) e
          ((found s refl).0, ((λ _. total_le x s c), (found s refl).1))
  ]

  -- The selected row passes the guard and comes before every other row that does.
  pub first_by-some :
      (t : List Row) {r : Row} → first_by le p t ≡ some r → (p r ≡ true) × IsFirst le p r t
  unfolding first_by
  first_by-some [] h = cc
  first_by-some (x ∷ t) {r} h = elim (Bool-cases (p x)) [
    | inl px ↦
        better-some x t (first_by le p t) px (first_by-none le p t) (λ s. first_by-some t)
          (rw px at h)
    | inr px ↦ let (pr, best) = first_by-some t ((rw px at h)) in (pr, ((λ e. cc), best))
  ]

-- The selected row is the one that its key finds.
module _ {Row : Type 0} (key : Row → ℕ) (le : Row → Row → Bool) (p : Row → Bool) where
  find_tail :
      (x r : Row) (t : List Row)
      → find key (key x) t ≡ none
      → find key (key r) t ≡ some r
      → find key (key r) (x ∷ t) ≡ some r
  find_tail x r t absent found = elim (Bool-cases (key x == key r)) [
    | inl same ↦
        cc (sym absent ∙ ap (λ (i : ℕ). find key i t) ((==_iff (key x) (key r)).0 same) ∙ found)
    | inr other ↦ rw other found
  ]

  pub first_by_found :
      (t : List Row) {r : Row}
      → IsKeyed key t
      → first_by le p t ≡ some r
      → find key (key r) t ≡ some r
  unfolding first_by
  first_by_found [] k h = cc
  first_by_found (x ∷ t) {r} k h = elim (Bool-cases (p x)) [
    | inr px ↦ find_tail x r t k.0 (first_by_found t k.1 (rw px at h))
    | inl px ↦ elim (Option-cases (first_by le p t)) [
      | inl e ↦
          let g = some-injective x r ((rw (px, e) at h)) in
          subst (λ r. find key (key r) (x ∷ t) ≡ some r) g (rw (==_refl (key x)))
      | inr (s, e) ↦ elim (Bool-cases (le x s)) [
        | inl c ↦
            let g = some-injective x r ((rw (px, e, c) at h)) in
            subst (λ r. find key (key r) (x ∷ t) ≡ some r) g (rw (==_refl (key x)))
        | inr c ↦
            let g = some-injective s r ((rw (px, e, c) at h)) in
            subst (λ r. find key (key r) (x ∷ t) ≡ some r) g
              (find_tail x s t k.0 (first_by_found t k.1 e))
      ]
    ]
  ]
