-- ===== src/Snapshots/Guard.antt =====
-- `_guard_completed_snapshots`, which runs before a session writes its pending objects, and the writing itself. A fact is a
-- row of any of the seven tables: `id` stands for its table and its key there, `content` for its other columns. A flush
-- writes all pending objects at once, and does not change a key; deleting a snapshot takes its facts along, as the foreign keys say.
pub mod Fresh
pub mod Immutable
pub mod Flush
use partha.Prelude.{
  ℕ, Bool, true, false, not, ◌&&◌, ◌||◌, Option, none, some, List, [], ◌∷◌, ◌++◌, ◌==◌,
  if◌then◌else◌,
}
use partha.Database.{SnapshotState, building, sealed, failed, RiSnapshot}
use partha.Canonical.{snapshot_immutable_error, snapshot_state_error, Checked, ok, err, ◌>>◌}

pub record FactRow : Type 0 where
  pub id : ℕ
  pub snapshot_id : ℕ
  pub content : List ℕ

pub record Tables : Type 0 where
  pub snapshots : List RiSnapshot
  pub facts : List FactRow

-- The history of the attribute `state`: its value when it was loaded, which is under `deleted` where the
-- attribute has been changed, and under `unchanged` where it has not. Both are empty where it is expired.
pub record History : Type 0 where
  pub deleted : Option SnapshotState
  pub unchanged : Option SnapshotState

-- A snapshot in the session, with the values that its attributes have there.
pub record SnapshotObject : Type 0 where
  pub row : RiSnapshot
  pub history : History

-- An object of the identity map, and whether it is in `session.new`.
pub record Mapped : Type 0 where
  pub object : SnapshotObject
  pub is_new : Bool

abbrev pub IdentityMap : Type 0
IdentityMap = List Mapped

-- An object of `session.new` or of `session.dirty`.
pub data Written : Type 0 where
  new_snapshot dirty_snapshot : SnapshotObject → Written
  new_fact dirty_fact : FactRow → Written

-- An object of `session.deleted`.
pub data Deleted : Type 0 where
  deleted_snapshot : SnapshotObject → Deleted
  deleted_fact : FactRow → Deleted

abbrev pub Transition : Type 0
Transition = ℕ × SnapshotState × SnapshotState

abbrev pub same_state : SnapshotState → SnapshotState → Bool
same_state SnapshotState.building SnapshotState.building = true
same_state SnapshotState.sealed SnapshotState.sealed = true
same_state SnapshotState.failed SnapshotState.failed = true
same_state _ _ = false

abbrev pub is_allowed : Transition → List Transition → Bool
is_allowed t [] = false
is_allowed (id, old, new) ((id', old', new') ∷ allowed) =
    id == id' && same_state old old' && same_state new new' || is_allowed (id, old, new) allowed

abbrev pub find_snapshot : ℕ → List RiSnapshot → Option RiSnapshot
find_snapshot id [] = none
find_snapshot id (s ∷ rows) = if s.snapshot_id == id then some s else find_snapshot id rows

abbrev pub state_of : Option RiSnapshot → Option SnapshotState
state_of none = none
state_of (some s) = some s.state

-- `_persisted_state`
abbrev pub persisted_state : History → Option SnapshotState
persisted_state h = elim h.deleted [ some state ↦ some state | none ↦ h.unchanged ]

-- The query for the state of a row.
abbrev pub database_state : Tables → ℕ → Option SnapshotState
database_state tables id = state_of (find_snapshot id tables.snapshots)

-- `identity_map.get(key)`
abbrev pub find_mapped : ℕ → IdentityMap → Option Mapped
find_mapped id [] = none
find_mapped id (m ∷ mapped) =
    if m.object.row.snapshot_id == id then some m else find_mapped id mapped

abbrev pub or_database : Tables → ℕ → Option SnapshotState → Option SnapshotState
or_database tables id (some state) = some state
or_database tables id none = database_state tables id

abbrev pub or_object : Tables → ℕ → Mapped → Option SnapshotState → Option SnapshotState
or_object tables id m (some state) = some state
or_object tables id m none = if m.is_new then some m.object.row.state else database_state tables id

abbrev pub mapped_state : Tables → ℕ → Option Mapped → Option SnapshotState
mapped_state tables id none = database_state tables id
mapped_state tables id (some m) = or_object tables id m (persisted_state m.object.history)

-- `_stored_snapshot_state`
abbrev pub stored_snapshot_state : IdentityMap → Tables → ℕ → Option SnapshotState
stored_snapshot_state mapped tables id = mapped_state tables id (find_mapped id mapped)

abbrev pub is_completed : Option SnapshotState → Bool
is_completed (some SnapshotState.sealed) = true
is_completed _ = false

abbrev pub check_fact : Option SnapshotState → Checked (Unit {0})
check_fact state = if is_completed state then err snapshot_immutable_error else ok tt

abbrev pub check_transition :
    List Transition → RiSnapshot → Option SnapshotState → Checked (Unit {0})
check_transition allowed s none = ok tt
check_transition allowed s (some state) =
    if is_completed (some state)
    then err snapshot_immutable_error
    else if same_state s.state state
    then ok tt
    else if is_allowed (s.snapshot_id, state, s.state) allowed
    then ok tt
    else err snapshot_state_error

-- A new snapshot has no row that could be asked for its state.
abbrev pub check_written : List Transition → IdentityMap → Tables → Written → Checked (Unit {0})
check_written allowed mapped tables (new_snapshot s) =
    check_transition allowed s.row (persisted_state s.history)
check_written allowed mapped tables (dirty_snapshot s) =
    check_transition allowed s.row
      (or_database tables s.row.snapshot_id (persisted_state s.history))
check_written allowed mapped tables (new_fact f) =
    check_fact (stored_snapshot_state mapped tables f.snapshot_id)
check_written allowed mapped tables (dirty_fact f) =
    check_fact (stored_snapshot_state mapped tables f.snapshot_id)

abbrev pub is_deleted : ℕ → List Deleted → Bool
is_deleted id [] = false
is_deleted id (deleted_snapshot s ∷ deleted) = s.row.snapshot_id == id || is_deleted id deleted
is_deleted id (deleted_fact f ∷ deleted) = is_deleted id deleted

-- `_owning_snapshot`, and whether it is deleted along.
abbrev pub owner_is_deleted : IdentityMap → ℕ → List Deleted → Bool
owner_is_deleted mapped id deleted = elim (find_mapped id mapped) [
  | none ↦ false
  | some m ↦ is_deleted id deleted
]

-- The state of a deleted snapshot is that of its history alone.
abbrev pub check_deleted : IdentityMap → Tables → List Deleted → Deleted → Checked (Unit {0})
check_deleted mapped tables deleted (deleted_snapshot s) = check_fact (persisted_state s.history)
check_deleted mapped tables deleted (deleted_fact f) =
    if owner_is_deleted mapped f.snapshot_id deleted
    then ok tt
    else check_fact (stored_snapshot_state mapped tables f.snapshot_id)

abbrev pub check_each : {A : Type 0} → (A → Checked (Unit {0})) → List A → Checked (Unit {0})
check_each check [] = ok tt
check_each check (a ∷ objects) = check a >> check_each check objects

unfoldable pub guard_completed_snapshots :
    List Transition → IdentityMap → Tables → List Written → List Deleted → Checked (Unit {0})
guard_completed_snapshots allowed mapped tables written deleted =
    check_each (check_written allowed mapped tables) written
    >> check_each (check_deleted mapped tables deleted) deleted

-- What a row becomes.
abbrev pub written_snapshot : List Written → RiSnapshot → RiSnapshot
written_snapshot [] row = row
written_snapshot (dirty_snapshot s ∷ written) row =
    if s.row.snapshot_id == row.snapshot_id then s.row else written_snapshot written row
written_snapshot (_ ∷ written) row = written_snapshot written row

abbrev pub written_fact : List Written → FactRow → FactRow
written_fact [] row = row
written_fact (dirty_fact f ∷ written) row = if f.id == row.id then f else written_fact written row
written_fact (_ ∷ written) row = written_fact written row

abbrev pub is_deleted_fact : FactRow → List Deleted → Bool
is_deleted_fact row [] = false
is_deleted_fact row (deleted_snapshot s ∷ deleted) =
    s.row.snapshot_id == row.snapshot_id || is_deleted_fact row deleted
is_deleted_fact row (deleted_fact f ∷ deleted) = f.id == row.id || is_deleted_fact row deleted

abbrev pub new_snapshots : List Written → List RiSnapshot
new_snapshots [] = []
new_snapshots (new_snapshot s ∷ written) = s.row ∷ new_snapshots written
new_snapshots (_ ∷ written) = new_snapshots written

abbrev pub new_facts : List Written → List FactRow
new_facts [] = []
new_facts (new_fact f ∷ written) = f ∷ new_facts written
new_facts (_ ∷ written) = new_facts written

abbrev pub write_snapshots : List Written → List Deleted → List RiSnapshot → List RiSnapshot
write_snapshots written deleted [] = new_snapshots written
write_snapshots written deleted (row ∷ rows) =
    let rest = write_snapshots written deleted rows in
    if is_deleted row.snapshot_id deleted then rest else written_snapshot written row ∷ rest

abbrev pub write_facts : List Written → List Deleted → List FactRow → List FactRow
write_facts written deleted [] = new_facts written
write_facts written deleted (row ∷ rows) =
    let rest = write_facts written deleted rows in
    if is_deleted_fact row deleted then rest else written_fact written row ∷ rest

-- The flush: the guard, and then the statements.
unfoldable pub flush :
    List Transition → IdentityMap → Tables → List Written → List Deleted → Checked Tables
unfolding guard_completed_snapshots
flush allowed mapped tables written deleted =
    guard_completed_snapshots allowed mapped tables written deleted
    >> ok (record {
      snapshots = write_snapshots written deleted tables.snapshots;
      facts = write_facts written deleted tables.facts;
    })
