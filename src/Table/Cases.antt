-- ===== src/Table/Cases.antt =====
-- How a guarded update of a table went, and what is known of a row that is found.
use partha.Prelude.{
  ℕ, ◌≡◌, refl, ◌≢◌, Bool, true, false, ◌&&◌, Option, some, List, [], ◌∷◌, arith, ◌==◌,
  if◌then◌else◌, All, ◌⊎◌, inl, inr, Option-cases, Bool-cases, ==_iff, ◌∙◌, ap, sym,
}
use mathlib.Core.Path.{subst}
use mathlib.Core.Option.{some-injective}
use partha.Table.{find, IsKeyed, update_where, update_row}
use partha.Table.Laws.{
  touch, hits, update_row-count, update_row_miss, find-update_row_self, find-update_row_ne,
}

-- How a guarded update of a keyed table went: no row has the key and passes the guard, and nothing
-- has changed; or one row did, and only that row is another.
pub record Missed {Row : Type 0} (key : Row → ℕ) (i : ℕ) (p : Row → Bool) (t : List Row)
    (done : List Row × ℕ) : Type 0 where
  pub counted : done.1 ≡ 0
  pub unchanged : done.0 ≡ t
  pub refused : (r : Row) → find key i t ≡ some r → p r ≡ false

pub record Hit {Row : Type 0} (key : Row → ℕ) (i : ℕ) (p : Row → Bool) (f : Row → Row)
    (t : List Row) (done : List Row × ℕ) (r : Row) : Type 0 where
  pub found : find key i t ≡ some r
  pub passed : p r ≡ true
  pub counted : done.1 ≡ 1
  pub updated : find key i done.0 ≡ some (f r)
  pub others : (j : ℕ) → j ≢ i → find key j done.0 ≡ find key j t

module _ {Row : Type 0} (key : Row → ℕ) (i : ℕ) (p : Row → Bool) (f : Row → Row)
    (same_key : (r : Row) → key (f r) ≡ key r) (t : List Row) (k : IsKeyed key t) where
  pub update_row_cases :
      Missed key i p t (update_row key i p f t)
      ⊎ ((r : Row) × Hit key i p f t (update_row key i p f t) r)
  update_row_cases = elim (Option-cases (find key i t)) [
    | inl absent ↦
        let none_hit = update_row-count key i p f t k ∙ ap (hits p) absent in
        inl (record {
          counted = none_hit;
          unchanged = update_row_miss key i p f t none_hit;
          refused = λ r e. cc;
        })
    | inr (r, here) ↦ elim (Bool-cases (p r)) [
      | inl pass ↦ inr (
        r,
        record {
          found = here;
          passed = pass;
          counted = update_row-count key i p f t k ∙ ap (hits p) here ∙ rw pass;
          updated = find-update_row_self key i p f same_key t ∙ ap (touch p f) here ∙ rw pass;
          others = λ j ne. find-update_row_ne key i p f same_key j ne t;
        },
      )
      | inr stop ↦
          let none_hit = update_row-count key i p f t k ∙ ap (hits p) here ∙ rw stop in
          inl (record {
            counted = none_hit;
            unchanged = update_row_miss key i p f t none_hit;
            refused = λ s e. subst (λ r. p r ≡ false) (some-injective r s (sym here ∙ e)) stop;
          })
    ]
  ]

-- An update that sets nothing leaves the table as it is.
update_where_same : {Row : Type 0} (q : Row → Bool) (t : List Row) → update_where q (λ r. r) t ≡ t
update_where_same q [] = refl
update_where_same q (r ∷ t) = ground (arith, update_where_same q t)

pub update_row_same :
    {Row : Type 0} (key : Row → ℕ) (i : ℕ) (p : Row → Bool) (t : List Row)
    → (update_row key i p (λ r. r) t).0 ≡ t
unfolding update_row
update_row_same key i p t = update_where_same (λ r. key r == i && p r) t

module _ {Row : Type 0} (key : Row → ℕ) (P : Row → Type 0) (i : ℕ) where
  All-pick :
      (b : Bool) (x : Row) (rest : Option Row) {r : Row}
      → P x
      → (rest ≡ some r → P r)
      → (if b then some x else rest) ≡ some r
      → P r
  All-pick true x rest {r} h k e = subst P (some-injective x r e) h
  All-pick false x rest h k e = k e

  -- What holds of every row holds of the row that a key finds.
  pub All-find : (t : List Row) {r : Row} → All P t → find key i t ≡ some r → P r
  All-find [] h e = cc
  All-find (x ∷ t) h e = All-pick (key x == i) x (find key i t) h.0 (All-find t h.1) e

-- A row is found under its own key.
pub find-key :
    {Row : Type 0} (key : Row → ℕ) (i : ℕ) (t : List Row) {r : Row}
    → find key i t ≡ some r
    → key r ≡ i
find-key key i [] h = cc
find-key key i (x ∷ t) {r} h = elim (Bool-cases (key x == i)) [
  | inl e ↦ subst (λ y. key y ≡ i) (some-injective x r ((rw e at h))) ((==_iff (key x) i).0 e)
  | inr e ↦ find-key key i t ((rw e at h))
]
