-- ===== src/Snapshots/Begin/Reuse.antt =====
-- One snapshot for each identity: what was begun and completed is what the next request gets.
use partha.Prelude.{
  ℕ, ◌≡◌, ◌≢◌, refl, sym, ap, ◌∙◌, Bool, true, false, not, Option, none, some, List, [], ◌∷◌, ◌++◌,
  All, Bool-cases, inl, inr,
}
use mathlib.Core.Bool.{true≢false}
use mathlib.Core.Path.{subst}
use partha.Text.{same_text}
use partha.Text.Laws.{same_text_refl}
use partha.Database.{SnapshotState}
use partha.Canonical.{Unicode, snapshot_seal_error, Checked, ok, err}
use partha.Canonical.Results.{ok-injective, err_apart, bind_ok, else_ok}
use partha.Canonical.Key.{is_empty}
use partha.Canonical.Lists.{normalize_producer_version_set}
use partha.Canonical.Lists.Producers.{normalize-normalize_producer_version_set}
use partha.Snapshots.Guard.Immutable.{then_ok_unit}
use partha.Snapshots.Begin.{
  SnapshotRow, RepositoryRow, require_matching_repository, resolve_config_hash, any_bad,
  is_content_hash, Identity, is_completed_of, find_row, Request, producer_set_hash, new_row, begin,
  identity_of, reuse_or, get_or_reuse, complete_row, complete_rows,
}

-- No row of the table has the identifier.
abbrev pub IsFreshId : List ℕ → List SnapshotRow → Type 0
IsFreshId id rows = All (λ (s : SnapshotRow). same_text s.snapshot_id id ≡ false) rows

some_apart : {A : Type 0} {a : A} → some a ≢ none
some_apart h = cc

find_row-complete_rows :
    (i : Identity) (id : List ℕ) (rows : List SnapshotRow) (row : SnapshotRow)
    → IsFreshId id rows
    → find_row i rows ≡ none
    → find_row i (complete_rows id (rows ++ row ∷ [])) ≡ find_row i (complete_row id row ∷ [])
unfolding find_row
find_row-complete_rows i id [] row f h = refl
find_row-complete_rows i id (s ∷ rows) row f h = elim (Bool-cases (is_completed_of i s)) [
  | inl found ↦ absurd (some_apart (rw (found) at h))
  | inr other ↦ rw (f.0, other) (find_row-complete_rows i id rows row f.1 (rw (other) at h))
]

first : {A B : Type 0} {p q : A × B} → p ≡ q → p.0 ≡ q.0
first e = ap (λ x. x.0) e

second : {A B : Type 0} {p q : A × B} → p ≡ q → p.1 ≡ q.1
second e = ap (λ x. x.1) e

module _ (u : Unicode) (utf_8 : List ℕ → List ℕ) (digest : List (List ℕ) → List ℕ)
    (repositories : List RepositoryRow) where
  -- What `begin` has put into the row that it returns.
  begin_lem :
      (computed : Checked (List ℕ)) (id : List ℕ) (r : Request) (rows : List SnapshotRow)
      (row : SnapshotRow) (rows' : List SnapshotRow)
      → begin u utf_8 digest repositories computed id r rows ≡ ok (row, rows')
      → (producers : List (List ℕ)) × (set_hash : List ℕ) × (config_hash : List ℕ)
        × ((normalize_producer_version_set u utf_8 r.producer_version_set ≡ ok producers)
            × (producer_set_hash u utf_8 digest repositories producers ≡ ok set_hash)
            × (resolve_config_hash r.config_given r.config_hash computed ≡ ok config_hash)
            × (row ≡ new_row u utf_8 digest repositories id r producers set_hash config_hash)
            × (rows' ≡ rows ++ row ∷ []))
  unfolding begin
  begin_lem computed id r rows row rows' h =
      let (valid, a) =
        then_ok_unit (require_matching_repository repositories r.repository_id r.revision) _ _ h in
      let (producers, n, b) =
        bind_ok (normalize_producer_version_set u utf_8 r.producer_version_set) _ a in
      let (good, c) = else_ok (any_bad producers) snapshot_seal_error b in
      let (config_hash, g, d) =
        bind_ok (resolve_config_hash r.config_given r.config_hash computed) _ c in
      let (hash, e) = else_ok (not (is_content_hash config_hash)) snapshot_seal_error d in
      let (set_hash, s, f) =
        bind_ok (producer_set_hash u utf_8 digest repositories producers) _ e in
      (
        producers,
        set_hash,
        config_hash,
        (
          n,
          s,
          g,
          first (sym (ok-injective f)),
          second (sym (ok-injective f))
              ∙ ap (λ (x : SnapshotRow). rows ++ x ∷ []) (sym (first (sym (ok-injective f)))),
        ),
      )

  -- A request that has begun a snapshot has found no completed one of its identity.
  begun :
      (o : Option SnapshotRow) (rows : List SnapshotRow)
      (m : Checked (SnapshotRow × List SnapshotRow)) (row : SnapshotRow) (rows' : List SnapshotRow)
      → reuse_or u utf_8 digest repositories o rows m ≡ ok (row, false, rows')
      → (o ≡ none) × (m ≡ ok (row, rows'))
  begun none rows (ok m) row rows' h = (
    refl,
    λ i. ok (
      ap (λ (x : SnapshotRow × Bool × List SnapshotRow). x.0) (ok-injective h) i,
      ap (λ (x : SnapshotRow × Bool × List SnapshotRow). x.2) (ok-injective h) i,
    ),
  )
  begun none rows (err e) row rows' h = absurd (err_apart h)
  begun (some s) rows m row rows' h =
      absurd (true≢false (ap (λ (x : SnapshotRow × Bool × List SnapshotRow). x.1) (ok-injective h)))

  same_hash :
      (ch empty_hash config_hash : List ℕ)
      → is_empty ch ≡ false
      → resolve_config_hash false (some ch) (ok empty_hash) ≡ ok config_hash
      → config_hash ≡ ch
  unfolding resolve_config_hash
  same_hash ch empty_hash config_hash full h = sym (ok-injective (rw (full) at h))

  hash_same :
      ((s : List ℕ) → u.nfc (u.nfc s) ≡ u.nfc s)
      → (raw ps : List (List ℕ)) (sh set_hash : List ℕ)
      → normalize_producer_version_set u utf_8 raw ≡ ok ps
      → producer_set_hash u utf_8 digest repositories raw ≡ ok sh
      → producer_set_hash u utf_8 digest repositories ps ≡ ok set_hash
      → set_hash ≡ sh
  unfolding producer_set_hash
  hash_same idempotent raw ps sh set_hash n h k =
      let again : normalize_producer_version_set u utf_8 ps ≡ ok ps =
        normalize-normalize_producer_version_set u utf_8 idempotent raw ps n in
      sym (ok-injective (rw (again) at k)) ∙ ok-injective (rw (n) at h)

  completed_found :
      (id : List ℕ) (r : Request) (ps : List (List ℕ)) (sh ch : List ℕ) (row : SnapshotRow)
      → row ≡ new_row u utf_8 digest repositories id r ps sh ch
      → find_row (identity_of u utf_8 digest repositories r sh ch) (complete_row id row ∷ [])
        ≡ some (record row { state = SnapshotState.sealed })
  unfolding find_row
  completed_found id r ps sh ch row e =
      subst
        (λ (x : SnapshotRow).
          find_row (identity_of u utf_8 digest repositories r sh ch) (complete_row id x ∷ [])
          ≡ some (record x { state = SnapshotState.sealed }))
        (sym e)
        (rw
          (
            same_text_refl id,
            same_text_refl r.repository_id,
            same_text_refl r.revision.value,
            same_text_refl r.schema_version,
            same_text_refl sh,
            same_text_refl ch,
          )
          refl)

  reuses :
      (computed : Checked (List ℕ)) (empty_hash id ch sh : List ℕ) (r : Request)
      (rows : List SnapshotRow) (row : SnapshotRow)
      → require_matching_repository repositories r.repository_id r.revision ≡ ok tt
      → resolve_config_hash r.config_given r.config_hash computed ≡ ok ch
      → producer_set_hash u utf_8 digest repositories r.producer_version_set ≡ ok sh
      → find_row (identity_of u utf_8 digest repositories r sh ch) rows ≡ some row
      → get_or_reuse u utf_8 digest repositories computed empty_hash id r rows
        ≡ ok (row, true, rows)
  unfolding get_or_reuse
  reuses computed empty_hash id ch sh r rows row valid c s found = rw (valid, c, s, found) refl

  -- Once a snapshot that a request has begun is completed, the same request reuses it, whatever new identifier it brings. The
  -- identifier was not in use, the configuration hash is not empty, and `nfc` leaves its own results as they are.
  pub reuse_after_begin :
      ((s : List ℕ) → u.nfc (u.nfc s) ≡ u.nfc s)
      → (computed : Checked (List ℕ)) (empty_hash id id' : List ℕ) (r : Request)
        (rows rows' : List SnapshotRow) (row : SnapshotRow)
      → ((h : List ℕ)
          → resolve_config_hash r.config_given r.config_hash computed ≡ ok h
          → is_empty h ≡ false)
      → IsFreshId id rows
      → get_or_reuse u utf_8 digest repositories computed empty_hash id r rows
        ≡ ok (row, false, rows')
      → get_or_reuse u utf_8 digest repositories computed empty_hash id' r (complete_rows id rows')
        ≡ ok (record row { state = SnapshotState.sealed }, true, complete_rows id rows')
  unfolding get_or_reuse
  reuse_after_begin idempotent computed empty_hash id id' r rows rows' row full fresh h =
      let (valid, a) =
        then_ok_unit (require_matching_repository repositories r.repository_id r.revision) _ _ h in
      let (ch, c, b) = bind_ok (resolve_config_hash r.config_given r.config_hash computed) _ a in
      let (sh, s, d) =
        bind_ok (producer_set_hash u utf_8 digest repositories r.producer_version_set) _ b in
      let (missing, e) = begun _ rows _ row rows' d in
      let (ps, set_hash, config_hash, (n, s', g, made, appended)) =
        begin_lem (ok empty_hash) id (record r { config_hash = some ch; config_given = false }) rows
          row rows' e in
      let same : config_hash ≡ ch = same_hash ch empty_hash config_hash (full ch c) g in
      let hashed : set_hash ≡ sh =
        hash_same idempotent r.producer_version_set ps sh set_hash n s s' in
      let row_made : row ≡ new_row u utf_8 digest repositories id r ps sh ch =
        made ∙ λ i. new_row u utf_8 digest repositories id r ps (hashed i) (same i) in
      let i : Identity = identity_of u utf_8 digest repositories r sh ch in
      let found : find_row i (complete_rows id rows')
          ≡ some (record row { state = SnapshotState.sealed }) =
        ap (λ (t : List SnapshotRow). find_row i (complete_rows id t)) appended
        ∙ find_row-complete_rows i id rows row fresh missing
        ∙ completed_found id r ps sh ch row row_made in
      reuses computed empty_hash id' ch sh r (complete_rows id rows')
        (record row { state = SnapshotState.sealed }) valid c s found
