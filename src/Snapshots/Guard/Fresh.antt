-- ===== src/Snapshots/Guard/Fresh.antt =====
-- What a session has loaded of the states of snapshots, and what the table has.
use partha.Prelude.{
  ℕ, ◌≡◌, refl, sym, ◌∙◌, false, some, List, [], ◌∷◌, ◌==◌, ==_iff, All, Bool-cases, Option-cases,
  Option, none, inl, inr,
}
use mathlib.Core.Path.{subst}
use partha.Database.{SnapshotState, sealed}
use partha.Canonical.{ok}
use partha.Snapshots.Guard.{
  SnapshotObject, Mapped, IdentityMap, database_state, or_database, or_object, Tables, Written,
  dirty_snapshot, Deleted, deleted_snapshot, deleted_fact, Transition, persisted_state,
  stored_snapshot_state, check_written, check_deleted,
}

-- What the session has loaded of a snapshot's state is what the table has.
abbrev pub IsFresh : Tables → SnapshotObject → Type 0
IsFresh tables s =
    (state : SnapshotState)
    → persisted_state s.history ≡ some state
    → database_state tables s.row.snapshot_id ≡ some state

-- The objects of the identity map have rows, and are fresh.
abbrev pub FreshMap : Tables → IdentityMap → Type 0
FreshMap tables mapped = All (λ (m : Mapped). (m.is_new ≡ false) × IsFresh tables m.object) mapped

abbrev pub FreshWritten : Tables → Written → Type 0
FreshWritten tables (dirty_snapshot s) = IsFresh tables s
FreshWritten tables _ = Unit

-- A snapshot that is deleted is loaded, too.
abbrev pub LoadedDeleted : Tables → Deleted → Type 0
LoadedDeleted tables (deleted_snapshot s) =
    persisted_state s.history ≡ database_state tables s.row.snapshot_id
LoadedDeleted tables (deleted_fact f) = Unit

abbrev pub Passes : List Transition → IdentityMap → Tables → Written → Type 0
Passes allowed mapped tables w =
    (check_written allowed mapped tables w ≡ ok tt) × FreshWritten tables w

abbrev pub PassesDeleted : IdentityMap → Tables → List Deleted → Deleted → Type 0
PassesDeleted mapped tables deleted d =
    (check_deleted mapped tables deleted d ≡ ok tt) × LoadedDeleted tables d

pub All-pair :
    {A : Type 0} (P Q : A → Type 0) (xs : List A)
    → All P xs
    → All Q xs
    → All (λ (a : A). P a × Q a) xs
All-pair P Q [] h k = tt
All-pair P Q (a ∷ xs) h k = ((h.0, k.0), All-pair P Q xs h.1 k.1)

object_fresh :
    (tables : Tables) (m : Mapped) (id : ℕ) (o : Option SnapshotState)
    → m.is_new ≡ false
    → ((state : SnapshotState) → o ≡ some state → database_state tables id ≡ some state)
    → database_state tables id ≡ some sealed
    → or_object tables id m o ≡ some sealed
object_fresh tables m id none old fresh h = rw old h
object_fresh tables m id (some state) old fresh h = sym (fresh state refl) ∙ h

pub mapped_fresh :
    (tables : Tables) (mapped : IdentityMap) (id : ℕ)
    → FreshMap tables mapped
    → database_state tables id ≡ some sealed
    → stored_snapshot_state mapped tables id ≡ some sealed
mapped_fresh tables [] id fresh h = h
mapped_fresh tables (m ∷ mapped) id fresh h = elim (Bool-cases (m.object.row.snapshot_id == id)) [
  | inr e ↦ rw e (mapped_fresh tables mapped id fresh.1 h)
  | inl e ↦
      let same : m.object.row.snapshot_id ≡ id = (==_iff m.object.row.snapshot_id id).0 e in
      rw e (
        object_fresh tables m id (persisted_state m.object.history) fresh.0.0
          (λ state loaded.
            subst (λ (j : ℕ). database_state tables j ≡ some state) same (fresh.0.1 state loaded))
          h)
]

pub dirty_fresh :
    (tables : Tables) (s : SnapshotObject)
    → IsFresh tables s
    → database_state tables s.row.snapshot_id ≡ some sealed
    → or_database tables s.row.snapshot_id (persisted_state s.history) ≡ some sealed
dirty_fresh tables s fresh h = elim (Option-cases (persisted_state s.history)) [
  | inl expired ↦ rw expired h
  | inr (state, loaded) ↦ rw loaded (sym (fresh state loaded) ∙ h)
]
