-- ===== src/Retention.antt =====
-- apps/backend/app/intelligence/retention.py: the facts of a failed snapshot are discarded. The
-- connection that the deletes go through belongs to the session's transaction.
pub mod Purge
use partha.Prelude.{
  ℕ, ◌+◌, not, Bool, true, false, ◌&&◌, ◌||◌, Option, none, some, List, [], ◌∷◌, map, ◌==◌, take,
  if◌then◌else◌,
}
use partha.Table.{find}
use partha.Database.{
  FactTable, derivation, evidence, assertion, diagnostic, edge, observation, node, Fact, RiSnapshot,
  snapshot_key, is_failed, Database,
}
use partha.Session.{Exec, pure, gets, ◌>>=◌, ◌>>◌, statement, commit}

-- Children before parents.
abbrev pub fact_tables : List FactTable
fact_tables = derivation ∷ evidence ∷ assertion ∷ diagnostic ∷ edge ∷ observation ∷ node ∷ []

abbrev pub same_table : FactTable → FactTable → Bool
same_table derivation derivation = true
same_table evidence evidence = true
same_table assertion assertion = true
same_table diagnostic diagnostic = true
same_table edge edge = true
same_table observation observation = true
same_table node node = true
same_table _ _ = false

-- `DELETE FROM table WHERE snapshot_id = id`, with its row count.
unfoldable pub delete_facts : FactTable → ℕ → List Fact → ℕ × List Fact
delete_facts t id [] = (0, [])
delete_facts t id (f ∷ facts) =
    let (n, rest) = delete_facts t id facts in
    if same_table f.table t && f.snapshot_id == id then (n + 1, rest) else (n, f ∷ rest)

-- The loop over the tables, which adds the row counts up.
unfoldable pub delete_all : List FactTable → ℕ → List Fact → ℕ × List Fact
delete_all [] id facts = (0, facts)
delete_all (t ∷ ts) id facts =
    let (n, rest) = delete_facts t id facts in
    let (m, rest') = delete_all ts id rest in (n + m, rest')

-- The seven statements of a purge, in one transaction.
unfoldable pub delete_snapshot_facts : ℕ → Exec ℕ
delete_snapshot_facts id =
    statement
      λ db. let (n, rest) = delete_all fact_tables id db.facts in (n, record db { facts = rest })

abbrev pub state_is_failed : Option RiSnapshot → Bool
state_is_failed none = false
state_is_failed (some s) = is_failed s.state

unfoldable pub purge_snapshot_facts : ℕ → Exec ℕ
purge_snapshot_facts id = do
  stored ← gets (λ db. find snapshot_key id db.snapshots)
  if not (state_is_failed stored)
      then pure 0
      else do removed ← delete_snapshot_facts id; commit; pure removed

-- `exists().where(table.snapshot_id == id)` for the three tables that the scan asks.
abbrev pub has_facts : ℕ → List Fact → Bool
has_facts id [] = false
has_facts id (f ∷ facts) =
    (f.snapshot_id == id
      && (same_table f.table node
          || same_table f.table observation
          || same_table f.table diagnostic))
    || has_facts id facts

unfoldable pub orphaned : List Fact → List RiSnapshot → List ℕ
orphaned facts [] = []
orphaned facts (s ∷ snapshots) =
    let rest = orphaned facts snapshots in
    if is_failed s.state && has_facts s.snapshot_id facts then s.snapshot_id ∷ rest else rest

-- The generator that `sum` consumes.
unfoldable pub purge_each : List ℕ → Exec ℕ
purge_each [] = pure 0
purge_each (id ∷ ids) = do
  removed ← purge_snapshot_facts id
  rest ← purge_each ids
  pure (removed + rest)

unfoldable pub purge_orphaned_failed_facts : ℕ → Exec ℕ
unfolding purge_each
purge_orphaned_failed_facts limit = do
  candidates ← gets (λ db. take limit (orphaned db.facts db.snapshots))
  purge_each candidates
