-- ===== src/Table/Select.antt =====
-- Ordered selections: `SELECT ... WHERE p ORDER BY le`, with and without `LIMIT 1`. Where the order
-- ties, the engine may return the rows in any order; here the table's own order decides.
pub mod First
pub mod Rows
pub mod Unique
use partha.Prelude.{◌≡◌, Bool, true, Option, none, some, List, [], ◌∷◌, if◌then◌else◌, All}

module _ {Row : Type 0} (le : Row → Row → Bool) where
  abbrev pub better : Row → Option Row → Option Row
  better r none = some r
  better r (some s) = if le r s then some r else some s

  -- `SELECT ... WHERE p ORDER BY le LIMIT 1`
  unfoldable pub first_by : (Row → Bool) → List Row → Option Row
  first_by p [] = none
  first_by p (r ∷ t) = let rest = first_by p t in if p r then better r rest else rest

  abbrev pub insert_by : Row → List Row → List Row
  insert_by r [] = r ∷ []
  insert_by r (s ∷ t) = if le r s then r ∷ s ∷ t else s ∷ insert_by r t

  -- `SELECT ... WHERE p ORDER BY le`
  unfoldable pub select_by : (Row → Bool) → List Row → List Row
  select_by p [] = []
  select_by p (r ∷ t) = let rest = select_by p t in if p r then insert_by r rest else rest

  abbrev pub IsSorted : List Row → Type 0
  IsSorted [] = Unit
  IsSorted (r ∷ t) = All (λ s. le r s ≡ true) t × IsSorted t
