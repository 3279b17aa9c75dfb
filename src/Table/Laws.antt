-- ===== src/Table/Laws.antt =====
-- The laws of a guarded update by primary key.
use partha.Prelude.{
  ℕ, ◌≡◌, refl, ◌≢◌, Bool, true, ◌&&◌, Option, none, some, List, [], ◌∷◌, arith, ◌==◌,
  if◌then◌else◌, All, inl, inr, Bool-cases, ==_iff,
}
use mathlib.Core.Path.{subst}
use partha.Table.{find, IsKeyed, update_where, rowcount, update_row}

-- What the update makes of the row that the key finds, and how many rows it counts.
abbrev pub touch : {Row : Type 0} → (Row → Bool) → (Row → Row) → Option Row → Option Row
touch p f none = none
touch p f (some r) = some (if p r then f r else r)

abbrev pub hits : {Row : Type 0} → (Row → Bool) → Option Row → ℕ
hits p none = 0
hits p (some r) = if p r then 1 else 0

module _ {Row : Type 0} (key : Row → ℕ) (i : ℕ) (p : Row → Bool) (f : Row → Row) where
  rowcount_absent : (t : List Row) → find key i t ≡ none → rowcount (λ r. key r == i && p r) t ≡ 0
  rowcount_absent [] h = refl
  rowcount_absent (r ∷ t) h = ground (arith, rowcount_absent t)

  -- In a keyed table the count says whether the row is there and passes the guard.
  rowcount_keyed :
      (t : List Row) → IsKeyed key t → rowcount (λ r. key r == i && p r) t ≡ hits p (find key i t)
  rowcount_keyed [] k = refl
  rowcount_keyed (r ∷ t) k = ground (arith, rowcount_keyed t k.1, rowcount_absent t)

  -- A count of zero: the statement has changed nothing.
  update_where_miss :
      (t : List Row)
      → rowcount (λ r. key r == i && p r) t ≡ 0
      → update_where (λ r. key r == i && p r) f t ≡ t
  update_where_miss [] h = refl
  update_where_miss (r ∷ t) h = ground (arith, update_where_miss t)

  All-update_where :
      (P : Row → Type 0)
      → ((r : Row) → P r → p r ≡ true → P (f r))
      → (t : List Row) → All P t
      → All P (update_where (λ r. key r == i && p r) f t)
  All-update_where P keep [] h = tt
  All-update_where P keep (r ∷ t) h = ground (arith, All-update_where P keep t h.1, keep r h.0)

module _ {Row : Type 0} (key : Row → ℕ) (i : ℕ) (p : Row → Bool) (f : Row → Row)
    (same_key : (r : Row) → key (f r) ≡ key r) where
  find_touched :
      (t : List Row)
      → find key i (update_where (λ r. key r == i && p r) f t) ≡ touch p f (find key i t)
  find_touched [] = refl
  find_touched (r ∷ t) = ground (arith, find_touched t, same_key r)

  find_other :
      (j : ℕ)
      → j ≢ i
      → (t : List Row) → find key j (update_where (λ r. key r == i && p r) f t) ≡ find key j t
  find_other j ne [] = refl
  find_other j ne (r ∷ t) = ground (arith, find_other j ne t, same_key r)

  find_absent :
      (j : ℕ) (t : List Row)
      → find key j t ≡ none
      → find key j (update_where (λ r. key r == i && p r) f t) ≡ none
  find_absent j [] h = refl
  find_absent j (r ∷ t) h = ground (arith, find_absent j t, same_key r)

  IsKeyed-after :
      (t : List Row) → IsKeyed key t → IsKeyed key (update_where (λ r. key r == i && p r) f t)
  IsKeyed-after [] k = tt
  IsKeyed-after (r ∷ t) k =
      ground (
        arith,
        IsKeyed-after t k.1,
        find_absent (key r) t k.0,
        find_absent (key (f r)) t,
        same_key r,
      )

module _ {Row : Type 0} (key : Row → ℕ) (i : ℕ) (p : Row → Bool) (f : Row → Row) where
  absent_kept : (t : List Row) → find key i t ≡ none → update_where (λ r. key r == i && p r) f t ≡ t
  absent_kept [] h = refl
  absent_kept (r ∷ t) h = ground (arith, absent_kept t)

  All-with_found :
      (P : Row → Type 0) (t : List Row)
      → IsKeyed key t
      → All P t
      → ((r : Row) → find key i t ≡ some r → P r → p r ≡ true → P (f r))
      → All P (update_where (λ r. key r == i && p r) f t)
  All-with_found P [] k h keep = tt
  All-with_found P (r ∷ t) k h keep = elim (Bool-cases (key r == i)) [
    | inr other ↦ rw other (h.0, All-with_found P t k.1 h.1 (λ x e. keep x (rw other e)))
    | inl here ↦
        let absent : find key i t ≡ none =
          subst (λ n. find key n t ≡ none) ((==_iff (key r) i).0 here) k.0 in
        elim (Bool-cases (p r)) [
          | inl pass ↦ rw (here, pass, absent_kept t absent) (keep r (rw here) h.0 pass, h.1)
          | inr stop ↦ rw (here, stop, absent_kept t absent) h
        ]
  ]

-- The same facts of the statement that the components call.
module _ {Row : Type 0} (key : Row → ℕ) (i : ℕ) (p : Row → Bool) (f : Row → Row) where
  pub update_row-count :
      (t : List Row) → IsKeyed key t → (update_row key i p f t).1 ≡ hits p (find key i t)
  unfolding update_row
  update_row-count t k = rowcount_keyed key i p f t k

  pub update_row_miss :
      (t : List Row) → (update_row key i p f t).1 ≡ 0 → (update_row key i p f t).0 ≡ t
  unfolding update_row
  update_row_miss t h = update_where_miss key i p f t h

  pub All-update_row :
      (P : Row → Type 0)
      → ((r : Row) → P r → p r ≡ true → P (f r))
      → (t : List Row) → All P t
      → All P (update_row key i p f t).0
  unfolding update_row
  All-update_row P keep t h = All-update_where key i p f P keep t h

  -- The update may use that it finds the one row of its key.
  pub All-update_row_found :
      (P : Row → Type 0) (t : List Row)
      → IsKeyed key t
      → All P t
      → ((r : Row) → find key i t ≡ some r → P r → p r ≡ true → P (f r))
      → All P (update_row key i p f t).0
  unfolding update_row
  All-update_row_found P t k h keep = All-with_found key i p f P t k h keep

  pub find-update_row_self :
      ((r : Row) → key (f r) ≡ key r)
      → (t : List Row) → find key i (update_row key i p f t).0 ≡ touch p f (find key i t)
  unfolding update_row
  find-update_row_self same t = find_touched key i p f same t

  pub find-update_row_ne :
      ((r : Row) → key (f r) ≡ key r)
      → (j : ℕ) → j ≢ i
      → (t : List Row) → find key j (update_row key i p f t).0 ≡ find key j t
  unfolding update_row
  find-update_row_ne same j ne t = find_other key i p f same j ne t

  pub update_row-IsKeyed :
      ((r : Row) → key (f r) ≡ key r)
      → (t : List Row) → IsKeyed key t
      → IsKeyed key (update_row key i p f t).0
  unfolding update_row
  update_row-IsKeyed same t k = IsKeyed-after key i p f same t k
