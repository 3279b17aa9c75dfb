-- ===== src/Snapshots/Guard/Flush.antt =====
-- A flush that passes the guard leaves completed snapshots and their facts as they were.
use partha.Prelude.{
  ℕ, ◌≡◌, refl, sym, ap, ◌∙◌, false, some, List, [], ◌∷◌, ◌==◌, ==_iff, All, Bool-cases, inl, inr,
}
use mathlib.Core.Path.{subst}
use partha.Database.{sealed, RiSnapshot}
use partha.Canonical.{ok}
use partha.Canonical.Results.{ok-injective}
use partha.Snapshots.Guard.{
  IdentityMap, database_state, FactRow, Tables, Written, new_snapshot, dirty_snapshot, new_fact,
  dirty_fact, Deleted, deleted_snapshot, deleted_fact, Transition, find_snapshot, check_written,
  is_deleted, check_deleted, check_each, guard_completed_snapshots, written_snapshot,
  is_deleted_fact, write_snapshots, write_facts, flush,
}
use partha.Snapshots.Guard.Fresh.{
  FreshMap, FreshWritten, LoadedDeleted, Passes, PassesDeleted, All-pair,
}
use partha.Snapshots.Guard.Immutable.{
  facts_of, WrittenKeeps, DeletedKeeps, KeepOwners, then_ok_unit, check_each_lem, transition_closed,
  not_deleted, fact_kept, fact_present, fact_elsewhere, no_new_fact,
}

first_written :
    (row : FactRow) (rows : List FactRow) (ws : List Written)
    → All (WrittenKeeps (row ∷ rows)) ws
    → All (WrittenKeeps (row ∷ [])) ws × All (WrittenKeeps rows) ws
first_written row rows [] h = (tt, tt)
first_written row rows (dirty_fact f ∷ ws) h =
    let (a, b) = first_written row rows ws h.1 in (((h.0.0, tt), a), (h.0.1, b))
first_written row rows (new_fact f ∷ ws) h =
    let (a, b) = first_written row rows ws h.1 in ((tt, a), (tt, b))
first_written row rows (new_snapshot f ∷ ws) h =
    let (a, b) = first_written row rows ws h.1 in ((tt, a), (tt, b))
first_written row rows (dirty_snapshot f ∷ ws) h =
    let (a, b) = first_written row rows ws h.1 in ((tt, a), (tt, b))

first_deleted :
    (row : FactRow) (rows : List FactRow) (ds : List Deleted)
    → All (DeletedKeeps (row ∷ rows)) ds
    → All (DeletedKeeps (row ∷ [])) ds × All (DeletedKeeps rows) ds
first_deleted row rows [] h = (tt, tt)
first_deleted row rows (deleted_fact f ∷ ds) h =
    let (a, b) = first_deleted row rows ds h.1 in (((h.0.0, tt), a), (h.0.1, b))
first_deleted row rows (deleted_snapshot f ∷ ds) h =
    let (a, b) = first_deleted row rows ds h.1 in ((tt, a), (tt, b))

module _ (allowed : List Transition) (mapped : IdentityMap) (tables : Tables)
    (written : List Written) (deleted : List Deleted) (id : ℕ)
    (completed : database_state tables id ≡ some sealed) (fresh : FreshMap tables mapped)
    (passed : All (Passes allowed mapped tables) written)
    (passed' : All (PassesDeleted mapped tables deleted) deleted) where
  facts_of-write_facts :
      (rows : List FactRow)
      → KeepOwners written deleted rows
      → facts_of id (write_facts written deleted rows) ≡ facts_of id rows
  facts_of-write_facts [] k =
      no_new_fact allowed mapped tables written deleted id completed fresh passed' written passed
  facts_of-write_facts (row ∷ rows) k =
      let (here, later) = first_written row rows written k.0 in
      let (here', later') = first_deleted row rows deleted k.1 in
      let rest : facts_of id (write_facts written deleted rows) ≡ facts_of id rows =
        facts_of-write_facts rows (later, later') in
      elim (Bool-cases (row.snapshot_id == id)) [
        | inl e ↦
            let owner : row.snapshot_id ≡ id = (==_iff row.snapshot_id id).0 e in
            rw
              (
                fact_present allowed mapped tables written deleted id completed fresh passed' row
                    deleted owner passed' here',
                fact_kept allowed mapped tables written deleted id completed fresh passed' row
                    written owner passed here,
                e,
                rest,
              )
              refl
        | inr e ↦ elim (Bool-cases (is_deleted_fact row deleted)) [
          | inl gone ↦ rw (gone, e) rest
          | inr stays ↦
              rw
                (
                  stays,
                  e,
                  fact_elsewhere allowed mapped tables written deleted id completed fresh passed'
                      row written e here,
                )
                rest
        ]
      ]

  snapshot_kept :
      (row : RiSnapshot) (ws : List Written)
      → row.snapshot_id ≡ id
      → All (Passes allowed mapped tables) ws
      → written_snapshot ws row ≡ row
  snapshot_kept row [] e h = refl
  snapshot_kept row (dirty_snapshot s ∷ ws) e h =
      elim (Bool-cases (s.row.snapshot_id == row.snapshot_id)) [
        | inl same ↦ absurd (
            transition_closed allowed mapped tables written deleted id completed fresh s
              ((==_iff s.row.snapshot_id row.snapshot_id).0 same ∙ e) h.0)
        | inr other ↦ rw (other) (snapshot_kept row ws e h.1)
      ]
  snapshot_kept row (new_snapshot s ∷ ws) e h = snapshot_kept row ws e h.1
  snapshot_kept row (new_fact s ∷ ws) e h = snapshot_kept row ws e h.1
  snapshot_kept row (dirty_fact s ∷ ws) e h = snapshot_kept row ws e h.1

  snapshot_elsewhere :
      (row : RiSnapshot) (ws : List Written)
      → (written_snapshot ws row).snapshot_id ≡ row.snapshot_id
  snapshot_elsewhere row [] = refl
  snapshot_elsewhere row (dirty_snapshot s ∷ ws) =
      elim (Bool-cases (s.row.snapshot_id == row.snapshot_id)) [
        | inl same ↦ rw (same) ((==_iff s.row.snapshot_id row.snapshot_id).0 same)
        | inr other ↦ rw (other) (snapshot_elsewhere row ws)
      ]
  snapshot_elsewhere row (new_snapshot s ∷ ws) = snapshot_elsewhere row ws
  snapshot_elsewhere row (new_fact s ∷ ws) = snapshot_elsewhere row ws
  snapshot_elsewhere row (dirty_fact s ∷ ws) = snapshot_elsewhere row ws

  find_snapshot-write_snapshots :
      (rows : List RiSnapshot) (found : RiSnapshot)
      → find_snapshot id rows ≡ some found
      → find_snapshot id (write_snapshots written deleted rows) ≡ some found
  find_snapshot-write_snapshots [] found h = cc
  find_snapshot-write_snapshots (row ∷ rows) found h = elim (Bool-cases (row.snapshot_id == id)) [
    | inl e ↦
        let owner : row.snapshot_id ≡ id = (==_iff row.snapshot_id id).0 e in
        let present : is_deleted row.snapshot_id deleted ≡ false =
          subst (λ (j : ℕ). is_deleted j deleted ≡ false) (sym owner)
            (not_deleted allowed mapped tables written deleted id completed fresh deleted
              passed') in
        rw (present, snapshot_kept row written owner passed, e) (rw (e) at h)
    | inr e ↦
        let rest : find_snapshot id (write_snapshots written deleted rows) ≡ some found =
          find_snapshot-write_snapshots rows found (rw (e) at h) in
        elim (Bool-cases (is_deleted row.snapshot_id deleted)) [
          | inl gone ↦ rw (gone) rest
          | inr stays ↦ rw (stays, snapshot_elsewhere row written, e) rest
        ]
  ]

-- A flush that goes through leaves the row and the facts of every completed snapshot as they were, where
-- each fact stands in the session under the snapshot of its row; where the states that the session has
-- loaded are those of the table, for the snapshots of its identity map and the changed ones; and
-- where the state of every snapshot that is deleted is loaded, too.
pub flush_immutable :
    (allowed : List Transition) (mapped : IdentityMap) (tables : Tables) (written : List Written)
    (deleted : List Deleted) (tables' : Tables) (id : ℕ) (row : RiSnapshot)
    → find_snapshot id tables.snapshots ≡ some row
    → row.state ≡ sealed
    → KeepOwners written deleted tables.facts
    → FreshMap tables mapped
    → All (FreshWritten tables) written
    → All (LoadedDeleted tables) deleted
    → flush allowed mapped tables written deleted ≡ ok tables'
    → (find_snapshot id tables'.snapshots ≡ some row)
      × (facts_of id tables'.facts ≡ facts_of id tables.facts)
unfolding flush guard_completed_snapshots
flush_immutable allowed mapped tables written deleted tables' id row f s k fresh w d h =
    let (guarded, e) =
      then_ok_unit (guard_completed_snapshots allowed mapped tables written deleted) _ tables' h in
    let (a, b) =
      then_ok_unit (check_each (check_written allowed mapped tables) written)
        (check_each (check_deleted mapped tables deleted) deleted) tt guarded in
    let passed =
      All-pair _ (FreshWritten tables) written
        (check_each_lem (check_written allowed mapped tables) written a) w in
    let passed' =
      All-pair _ (LoadedDeleted tables) deleted
        (check_each_lem (check_deleted mapped tables deleted) deleted b) d in
    let completed : database_state tables id ≡ some sealed = rw (f) (ap some s) in
    let same = ok-injective e in
    (
      ap (λ (t : Tables). find_snapshot id t.snapshots) (sym same)
          ∙ find_snapshot-write_snapshots allowed mapped tables written deleted id completed fresh
              passed passed' tables.snapshots row f,
      ap (λ (t : Tables). facts_of id t.facts) (sym same)
          ∙ facts_of-write_facts allowed mapped tables written deleted id completed fresh passed
              passed' tables.facts k,
    )
