-- ===== src/Table/Select/Rows.antt =====
-- The rows of a selection without a limit.
use partha.Prelude.{
  suc, ◌≡◌, refl, Bool, true, false, List, [], ◌∷◌, arith, All, inl, inr, Bool-cases, length,
}
use partha.Table.{rowcount}
use partha.Table.Select.{insert_by, select_by, IsSorted}

-- The rows of an unlimited selection: those that pass the guard, as often, in order.
module _ {Row : Type 0} (le : Row → Row → Bool) where
  pub All-insert_by :
      (Q : Row → Type 0) (r : Row) (t : List Row) → Q r × All Q t → All Q (insert_by le r t)
  All-insert_by Q r [] h = h
  All-insert_by Q r (s ∷ t) h = ground (arith, All-insert_by Q r t (h.0, h.1.1))

  All-of_insert_by :
      (Q : Row → Type 0) (r : Row) (t : List Row) → All Q (insert_by le r t) → Q r × All Q t
  All-of_insert_by Q r [] h = h
  All-of_insert_by Q r (s ∷ t) h = elim (Bool-cases (le r s)) [
    | inl c ↦ rw c at h
    | inr c ↦ let h' = rw c at h in let (hr, ht) = All-of_insert_by Q r t h'.1 in (hr, (h'.0, ht))
  ]

  length-insert_by : (r : Row) (t : List Row) → length (insert_by le r t) ≡ suc (length t)
  length-insert_by r [] = refl
  length-insert_by r (s ∷ t) = ground (arith, length-insert_by r t)

  module _ (p : Row → Bool) where
    pub All-select_by :
        (Q : Row → Type 0) (t : List Row) → All (λ r. p r ≡ true → Q r) t → All Q (select_by le p t)
    unfolding select_by
    All-select_by Q [] h = tt
    All-select_by Q (r ∷ t) h = elim (Bool-cases (p r)) [
      | inl e ↦ rw e (All-insert_by Q r (select_by le p t) (h.0 e, All-select_by Q t h.1))
      | inr e ↦ rw e (All-select_by Q t h.1)
    ]

    pub All-of_select_by :
        (Q : Row → Type 0) (t : List Row) → All Q (select_by le p t) → All (λ r. p r ≡ true → Q r) t
    unfolding select_by
    All-of_select_by Q [] h = tt
    All-of_select_by Q (r ∷ t) h = elim (Bool-cases (p r)) [
      | inl e ↦
          let (hr, ht) = All-of_insert_by Q r (select_by le p t) ((rw e at h)) in
          ((λ _. hr), All-of_select_by Q t ht)
      | inr e ↦ ((λ e'. cc), All-of_select_by Q t ((rw e at h)))
    ]

    pub length-select_by : (t : List Row) → length (select_by le p t) ≡ rowcount p t
    unfolding select_by
    length-select_by [] = refl
    length-select_by (r ∷ t) =
        ground (arith, length-select_by t, length-insert_by r (select_by le p t))

module _ {Row : Type 0} (le : Row → Row → Bool)
    (trans_le : (a b c : Row) → le a b ≡ true → le b c ≡ true → le a c ≡ true)
    (total_le : (a b : Row) → le a b ≡ false → le b a ≡ true) where
  weaken_le :
      (a b : Row) (t : List Row)
      → le a b ≡ true
      → All (λ s. le b s ≡ true) t
      → All (λ s. le a s ≡ true) t
  weaken_le a b [] e h = tt
  weaken_le a b (s ∷ t) e h = (trans_le a b s e h.0, weaken_le a b t e h.1)

  insert_by-IsSorted : (r : Row) (t : List Row) → IsSorted le t → IsSorted le (insert_by le r t)
  insert_by-IsSorted r [] h = (tt, tt)
  insert_by-IsSorted r (s ∷ t) h = elim (Bool-cases (le r s)) [
    | inl c ↦ rw c ((c, weaken_le r s t c h.0), h)
    | inr c ↦ rw c (
      All-insert_by le (λ u. le s u ≡ true) r t (total_le r s c, h.0),
      insert_by-IsSorted r t h.1,
    )
  ]

  pub select_by-IsSorted : (p : Row → Bool) (t : List Row) → IsSorted le (select_by le p t)
  unfolding select_by
  select_by-IsSorted p [] = tt
  select_by-IsSorted p (r ∷ t) = elim (Bool-cases (p r)) [
    | inl e ↦ rw e (insert_by-IsSorted r (select_by le p t) (select_by-IsSorted p t))
    | inr e ↦ rw e (select_by-IsSorted p t)
  ]
