-- ===== src/Tests/Guard.antt =====
-- The theorem on the flush guard at two snapshots: 1 is completed, 2 is being built.
use partha.Prelude.{ℕ, arith, ◌≡◌, refl, false, none, some, List, [], ◌∷◌}
use partha.Prelude.Text.{codes}
use partha.Jobs.{git}
use partha.Database.{SnapshotState, RiSnapshot}
use partha.Canonical.{snapshot_immutable_error, ok, err}
use partha.Snapshots.Guard.{
  SnapshotObject, IdentityMap, deleted_snapshot, FactRow, Tables, Written, new_fact, dirty_fact,
  Deleted, deleted_fact, find_snapshot, guard_completed_snapshots, flush,
}
use partha.Snapshots.Guard.Fresh.{FreshMap}
use partha.Snapshots.Guard.Immutable.{facts_of, KeepOwners}
use partha.Snapshots.Guard.Flush.{flush_immutable}

abbrev snapshot : ℕ → SnapshotState → RiSnapshot
snapshot id state = record {
  snapshot_id = id;
  repository_id = 11;
  revision_kind = git;
  revision_value = 9;
  schema_version = 1;
  producer_set_hash = 5;
  config_hash = 4;
  state = state;
  canonical_graph_hash = none;
  failure_code = none;
  created_at = 0;
  sealed_at = none;
}

abbrev fact : ℕ → ℕ → List ℕ → FactRow
fact id owner content = record { id = id; snapshot_id = owner; content = content }

abbrev tables : Tables
tables = record {
  snapshots = snapshot 1 SnapshotState.sealed ∷ snapshot 2 SnapshotState.building ∷ [];
  facts = fact 10 1 (codes "a") ∷ fact 20 2 (codes "b") ∷ fact 21 2 (codes "c") ∷ [];
}

abbrev writes : List Written
writes = new_fact (fact 22 2 (codes "d")) ∷ dirty_fact (fact 20 2 (codes "e")) ∷ []

abbrev deletes : List Deleted
deletes = deleted_fact (fact 21 2 (codes "c")) ∷ []

abbrev after : Tables
after = record {
  snapshots = tables.snapshots;
  facts = fact 10 1 (codes "a") ∷ fact 20 2 (codes "e") ∷ fact 22 2 (codes "d") ∷ [];
}

abbrev loaded : ℕ → SnapshotState → SnapshotObject
loaded id state = record {
  row = snapshot id state;
  history = record { deleted = none; unchanged = some state };
}

-- After a commit: nothing of the attributes is loaded any more.
abbrev expired : ℕ → SnapshotState → SnapshotObject
expired id state = record {
  row = snapshot id state;
  history = record { deleted = none; unchanged = none };
}

abbrev mapped : IdentityMap
mapped =
    record { object = loaded 1 SnapshotState.sealed; is_new = false }
    ∷ record { object = expired 2 SnapshotState.building; is_new = false }
    ∷ []

mapped-FreshMap : FreshMap tables mapped
mapped-FreshMap = ((refl, λ state h. h), ((refl, λ state h. cc), tt))

flushed : flush [] mapped tables writes deletes ≡ ok after
unfolding flush guard_completed_snapshots
flushed = refl

keeps : KeepOwners writes deletes tables.facts
keeps = (
  (tt, ((λ e. absurd (omega (arith, e)), (λ _. refl, (λ e. absurd (omega (arith, e)), tt))), tt)),
  ((λ e. absurd (omega (arith, e)), (λ e. absurd (omega (arith, e)), (λ _. refl, tt))), tt),
)

flush_immutable_example :
    (find_snapshot 1 after.snapshots ≡ some (snapshot 1 SnapshotState.sealed))
    × (facts_of 1 after.facts ≡ facts_of 1 tables.facts)
flush_immutable_example =
    flush_immutable [] mapped tables writes deletes after 1 (snapshot 1 SnapshotState.sealed) refl
      refl keeps mapped-FreshMap (tt, (tt, tt)) (tt, tt) flushed

changed :
    flush [] mapped tables (dirty_fact (fact 10 1 (codes "z")) ∷ []) []
    ≡ err snapshot_immutable_error
unfolding flush guard_completed_snapshots
changed = refl

-- A fact of the completed snapshot that the session has moved to another one passes the guard.
moved :
    flush [] mapped tables (dirty_fact (fact 10 2 (codes "a")) ∷ []) []
    ≡ ok (record tables {
      facts = fact 10 2 (codes "a") ∷ fact 20 2 (codes "b") ∷ fact 21 2 (codes "c") ∷ [];
    })
unfolding flush guard_completed_snapshots
moved = refl

-- A completed snapshot whose attributes are loaded cannot be deleted.
loaded_refused :
    flush [] mapped tables [] (deleted_snapshot (loaded 1 SnapshotState.sealed) ∷ [])
    ≡ err snapshot_immutable_error
unfolding flush guard_completed_snapshots
loaded_refused = refl

-- One whose attributes are expired is deleted with its facts.
expired_deleted :
    flush [] mapped tables [] (deleted_snapshot (expired 1 SnapshotState.sealed) ∷ [])
    ≡ ok (record {
      snapshots = snapshot 2 SnapshotState.building ∷ [];
      facts = fact 20 2 (codes "b") ∷ fact 21 2 (codes "c") ∷ [];
    })
unfolding flush guard_completed_snapshots
expired_deleted = refl
