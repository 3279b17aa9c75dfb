-- ===== src/Snapshots/Guard/Immutable.antt =====
-- What a flush leaves of a completed snapshot.
use partha.Prelude.{
  ℕ, ◌≡◌, ◌≢◌, refl, sym, ◌∙◌, false, some, List, [], ◌∷◌, ◌==◌, ==_iff, if◌then◌else◌, All,
  Bool-cases, Option-cases, inl, inr, ap,
}
use mathlib.Core.Path.{subst}
use partha.Database.{sealed}
use partha.Canonical.{snapshot_immutable_error, Checked, ok, err, ◌>>◌}
use partha.Canonical.Results.{err_apart}
use partha.Snapshots.Guard.{
  SnapshotObject, IdentityMap, database_state, find_mapped, owner_is_deleted, FactRow, Tables,
  Written, new_snapshot, dirty_snapshot, new_fact, dirty_fact, Deleted, deleted_snapshot,
  deleted_fact, Transition, persisted_state, stored_snapshot_state, check_fact, check_transition,
  is_deleted, check_each, written_fact, is_deleted_fact, new_facts,
}
use partha.Snapshots.Guard.Fresh.{FreshMap, Passes, PassesDeleted, mapped_fresh, dirty_fresh}

abbrev pub facts_of : ℕ → List FactRow → List FactRow
facts_of id [] = []
facts_of id (row ∷ rows) =
    let rest = facts_of id rows in if row.snapshot_id == id then row ∷ rest else rest

-- An object stands in the session under the snapshot of its row.
abbrev KeepsOwner : List FactRow → FactRow → Type 0
KeepsOwner rows f = All (λ (row : FactRow). f.id ≡ row.id → f.snapshot_id ≡ row.snapshot_id) rows

abbrev pub WrittenKeeps : List FactRow → Written → Type 0
WrittenKeeps rows (dirty_fact f) = KeepsOwner rows f
WrittenKeeps rows _ = Unit

abbrev pub DeletedKeeps : List FactRow → Deleted → Type 0
DeletedKeeps rows (deleted_fact f) = KeepsOwner rows f
DeletedKeeps rows _ = Unit

abbrev pub KeepOwners : List Written → List Deleted → List FactRow → Type 0
KeepOwners written deleted rows = All (WrittenKeeps rows) written × All (DeletedKeeps rows) deleted

pub then_ok_unit :
    {A : Type 0} (m : Checked (Unit {0})) (k : Checked A) (a : A)
    → m >> k ≡ ok a
    → (m ≡ ok tt) × (k ≡ ok a)
then_ok_unit (ok tt) k a h = (refl, h)
then_ok_unit (err e) k a h = absurd (err_apart h)

pub check_each_lem :
    {A : Type 0} (check : A → Checked (Unit {0})) (xs : List A)
    → check_each check xs ≡ ok tt
    → All (λ (a : A). check a ≡ ok tt) xs
check_each_lem check [] h = tt
check_each_lem check (a ∷ xs) h =
    let (first, rest) = then_ok_unit (check a) (check_each check xs) tt h in
    (first, check_each_lem check xs rest)

module _ (allowed : List Transition) (mapped : IdentityMap) (tables : Tables)
    (written : List Written) (deleted : List Deleted) (id : ℕ)
    (completed : database_state tables id ≡ some sealed) (fresh : FreshMap tables mapped) where
  -- Nothing of the snapshot passes the guard, nor does the snapshot.
  stored_closed : (i : ℕ) → i ≡ id → check_fact (stored_snapshot_state mapped tables i) ≢ ok tt
  stored_closed i e h =
      let closed : check_fact (stored_snapshot_state mapped tables id)
          ≡ err snapshot_immutable_error =
        ap check_fact (mapped_fresh tables mapped id fresh completed) in
      err_apart (
        sym closed
        ∙ subst (λ (j : ℕ). check_fact (stored_snapshot_state mapped tables j) ≡ ok tt) e h)

  row_closed :
      (s : SnapshotObject)
      → s.row.snapshot_id ≡ id
      → ¬ PassesDeleted mapped tables deleted (deleted_snapshot s)
  row_closed s e h =
      let state : persisted_state s.history ≡ some sealed =
        h.1 ∙ ap (λ (j : ℕ). database_state tables j) e ∙ completed in
      err_apart (sym (ap check_fact state) ∙ h.0)

  pub transition_closed :
      (s : SnapshotObject)
      → s.row.snapshot_id ≡ id
      → ¬ Passes allowed mapped tables (dirty_snapshot s)
  transition_closed s e h =
      let there : database_state tables s.row.snapshot_id ≡ some sealed =
        ap (λ (j : ℕ). database_state tables j) e ∙ completed in
      err_apart (sym (ap (check_transition allowed s.row) (dirty_fresh tables s h.1 there)) ∙ h.0)

  pub not_deleted :
      (ds : List Deleted) → All (PassesDeleted mapped tables deleted) ds → is_deleted id ds ≡ false
  not_deleted [] h = refl
  not_deleted (deleted_snapshot s ∷ ds) h = elim (Bool-cases (s.row.snapshot_id == id)) [
    | inl e ↦ absurd (row_closed s ((==_iff s.row.snapshot_id id).0 e) h.0)
    | inr e ↦ rw (e) (not_deleted ds h.1)
  ]
  not_deleted (deleted_fact f ∷ ds) h = not_deleted ds h.1

  owner_stays :
      (i : ℕ)
      → i ≡ id
      → All (PassesDeleted mapped tables deleted) deleted
      → owner_is_deleted mapped i deleted ≡ false
  owner_stays i e h =
      let present : is_deleted i deleted ≡ false =
        subst (λ (j : ℕ). is_deleted j deleted ≡ false) (sym e) (not_deleted deleted h) in
      elim (Option-cases (find_mapped i mapped)) [
        | inl none_there ↦ rw (none_there, owner_is_deleted) refl
        | inr (m, there) ↦ rw (there, owner_is_deleted) present
      ]

  module _ (passed : All (PassesDeleted mapped tables deleted) deleted) where
    pub fact_kept :
        (row : FactRow) (ws : List Written)
        → row.snapshot_id ≡ id
        → All (Passes allowed mapped tables) ws
        → All (WrittenKeeps (row ∷ [])) ws
        → written_fact ws row ≡ row
    fact_kept row [] e h k = refl
    fact_kept row (dirty_fact f ∷ ws) e h k = elim (Bool-cases (f.id == row.id)) [
      | inl same ↦
          absurd (stored_closed f.snapshot_id (k.0.0 ((==_iff f.id row.id).0 same) ∙ e) h.0.0)
      | inr other ↦ rw (other) (fact_kept row ws e h.1 k.1)
    ]
    fact_kept row (new_fact f ∷ ws) e h k = fact_kept row ws e h.1 k.1
    fact_kept row (new_snapshot s ∷ ws) e h k = fact_kept row ws e h.1 k.1
    fact_kept row (dirty_snapshot s ∷ ws) e h k = fact_kept row ws e h.1 k.1

    pub fact_present :
        (row : FactRow) (ds : List Deleted)
        → row.snapshot_id ≡ id
        → All (PassesDeleted mapped tables deleted) ds
        → All (DeletedKeeps (row ∷ [])) ds
        → is_deleted_fact row ds ≡ false
    fact_present row [] e h k = refl
    fact_present row (deleted_snapshot s ∷ ds) e h k =
        elim (Bool-cases (s.row.snapshot_id == row.snapshot_id)) [
          | inl same ↦
              absurd (row_closed s ((==_iff s.row.snapshot_id row.snapshot_id).0 same ∙ e) h.0)
          | inr other ↦ rw (other) (fact_present row ds e h.1 k.1)
        ]
    fact_present row (deleted_fact f ∷ ds) e h k = elim (Bool-cases (f.id == row.id)) [
      | inl same ↦
          let owner : f.snapshot_id ≡ id = k.0.0 ((==_iff f.id row.id).0 same) ∙ e in
          absurd (
            stored_closed f.snapshot_id owner
              (rw (owner_stays f.snapshot_id owner passed) at h.0.0))
      | inr other ↦ rw (other) (fact_present row ds e h.1 k.1)
    ]

    -- A row of another snapshot stays a row of it.
    pub fact_elsewhere :
        (row : FactRow) (ws : List Written)
        → row.snapshot_id == id ≡ false
        → All (WrittenKeeps (row ∷ [])) ws
        → (written_fact ws row).snapshot_id == id ≡ false
    fact_elsewhere row [] e k = e
    fact_elsewhere row (dirty_fact f ∷ ws) e k = elim (Bool-cases (f.id == row.id)) [
      | inl same ↦
          rw (same)
            (subst (λ (j : ℕ). j == id ≡ false) (sym (k.0.0 ((==_iff f.id row.id).0 same))) e)
      | inr other ↦ rw (other) (fact_elsewhere row ws e k.1)
    ]
    fact_elsewhere row (new_fact f ∷ ws) e k = fact_elsewhere row ws e k.1
    fact_elsewhere row (new_snapshot s ∷ ws) e k = fact_elsewhere row ws e k.1
    fact_elsewhere row (dirty_snapshot s ∷ ws) e k = fact_elsewhere row ws e k.1

    pub no_new_fact :
        (ws : List Written)
        → All (Passes allowed mapped tables) ws
        → facts_of id (new_facts ws) ≡ []
    no_new_fact [] h = refl
    no_new_fact (new_fact f ∷ ws) h = elim (Bool-cases (f.snapshot_id == id)) [
      | inl e ↦ absurd (stored_closed f.snapshot_id ((==_iff f.snapshot_id id).0 e) h.0.0)
      | inr e ↦ rw (e) (no_new_fact ws h.1)
    ]
    no_new_fact (dirty_fact f ∷ ws) h = no_new_fact ws h.1
    no_new_fact (new_snapshot s ∷ ws) h = no_new_fact ws h.1
    no_new_fact (dirty_snapshot s ∷ ws) h = no_new_fact ws h.1
