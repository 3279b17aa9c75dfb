-- ===== src/Table.antt =====
-- A database table under the statements that the backend sends through SQLAlchemy: a lookup by
-- primary key, a guarded `UPDATE ... WHERE` with its row count, a `SELECT ... ORDER BY`.
-- The database engine is not part of the repository: a statement takes effect at once, on all rows.
-- `Table.Laws` has the laws of the guarded update, `Table.Select` the ordered selections.
pub mod Laws
pub mod Cases
pub mod Select
use partha.Prelude.{ℕ, ◌+◌, ◌≡◌, Bool, ◌&&◌, Option, none, some, List, [], ◌∷◌, ◌==◌, if◌then◌else◌}

module _ {Row : Type 0} (key : Row → ℕ) where
  -- `session.get(Row, id)`
  abbrev pub find : ℕ → List Row → Option Row
  find i [] = none
  find i (r ∷ t) = if key r == i then some r else find i t

  -- The primary key: no two rows share one.
  abbrev pub IsKeyed : List Row → Type 0
  IsKeyed [] = Unit
  IsKeyed (r ∷ t) = (find (key r) t ≡ none) × IsKeyed t

-- `UPDATE table SET f WHERE p`
abbrev pub update_where : {Row : Type 0} → (Row → Bool) → (Row → Row) → List Row → List Row
update_where p f [] = []
update_where p f (r ∷ t) = (if p r then f r else r) ∷ update_where p f t

-- `result.rowcount` of that statement.
abbrev pub rowcount : {Row : Type 0} → (Row → Bool) → List Row → ℕ
rowcount p [] = 0
rowcount p (r ∷ t) = (if p r then 1 else 0) + rowcount p t

-- `UPDATE table SET f WHERE id = i AND p`, with its row count.
unfoldable pub update_row :
    {Row : Type 0} (key : Row → ℕ) → ℕ → (Row → Bool) → (Row → Row) → List Row → List Row × ℕ
update_row key i p f t =
    (update_where (λ r. key r == i && p r) f t, rowcount (λ r. key r == i && p r) t)
