-- ===== src/Snapshots/Nodes.antt =====
-- `add_node` with its evidence. `properties` is what `normalize_declared_arrays` returns for the properties of the node,
-- `same_properties` is the equality of two such values, and `new_id` is the key of a new row, which is the last one.
pub mod Find
pub mod Lookup
use partha.Prelude.{
  ℕ, Bool, true, false, not, ◌&&◌, Option, none, some, List, [], ◌∷◌, ◌++◌, if◌then◌else◌,
}
use partha.Text.{same_text}
use partha.Database.{SnapshotState, is_building}
use partha.Canonical.{
  Unicode, snapshot_seal_error, snapshot_state_error, Checked, ok, err, ◌>>=◌, ◌>>◌,
}
use partha.Canonical.Json.{Json}
use partha.Canonical.Key.{normalize_stable_key}
use partha.Snapshots.Evidence.{Evidence, Parent, node_ref, RiEvidence, add_evidence}

pub record RiNode : Type 0 where
  pub id : ℕ
  pub snapshot_id : List ℕ
  pub stable_key : List ℕ
  pub node_kind : List ℕ
  pub name : Option (List ℕ)
  pub language : Option (List ℕ)
  pub truth_class : List ℕ
  pub properties : Option Json

-- The arguments of `add_node` but for its properties.
pub record NodeArguments : Type 0 where
  pub node_kind : List ℕ
  pub stable_key : List ℕ
  pub name : Option (List ℕ)
  pub language : Option (List ℕ)
  pub evidence : List Evidence
  pub truth_class : List ℕ

pub record NodeTables : Type 0 where
  pub nodes : List RiNode
  pub evidence : List RiEvidence

abbrev pub is_node_of : List ℕ → List ℕ → RiNode → Bool
is_node_of snapshot_id stable_key n =
    same_text n.snapshot_id snapshot_id && same_text n.stable_key stable_key

abbrev pub find_node : List ℕ → List ℕ → List RiNode → Option RiNode
find_node snapshot_id stable_key [] = none
find_node snapshot_id stable_key (n ∷ nodes) =
    if is_node_of snapshot_id stable_key n then some n else find_node snapshot_id stable_key nodes

abbrev pub same_optional : Option (List ℕ) → Option (List ℕ) → Bool
same_optional none none = true
same_optional (some s) (some t) = same_text s t
same_optional _ _ = false

abbrev pub normalized_optional : Unicode → Option (List ℕ) → Option (List ℕ)
normalized_optional u none = none
normalized_optional u (some s) = some (u.nfc s)

unfoldable pub add_all_evidence :
    Unicode → List ℕ → ℕ → List Evidence → List RiEvidence → Checked (List RiEvidence)
unfolding add_evidence
add_all_evidence u snapshot_id id [] rows = ok rows
add_all_evidence u snapshot_id id (e ∷ records) rows = do
  added ← add_evidence u snapshot_id (node_ref id) e rows
  add_all_evidence u snapshot_id id records added

-- `_require_building`
abbrev pub require_building : SnapshotState → Checked (Unit {0})
require_building state = if is_building state then ok tt else err snapshot_state_error

module _ (u : Unicode) (same_properties : Option Json → Option Json → Bool) where
  -- `candidate == stored`
  abbrev pub same_node : RiNode → RiNode → Bool
  same_node candidate stored =
      same_text candidate.node_kind stored.node_kind
      && same_optional candidate.name stored.name
      && same_optional candidate.language stored.language
      && same_text candidate.truth_class stored.truth_class
      && same_properties candidate.properties stored.properties

  -- The end of the call, with the row that is in the table.
  abbrev pub with_evidence :
      List ℕ → NodeTables → List Evidence → RiNode → List RiNode → Checked (RiNode × NodeTables)
  with_evidence snapshot_id tables records n nodes =
      add_all_evidence u snapshot_id n.id records tables.evidence >>= λ evidence.
      ok (n, record { nodes = nodes; evidence = evidence })

  abbrev pub store_node :
      List ℕ → NodeTables → List Evidence → RiNode → Option RiNode → Checked (RiNode × NodeTables)
  store_node snapshot_id tables records candidate none =
      with_evidence snapshot_id tables records candidate (tables.nodes ++ candidate ∷ [])
  store_node snapshot_id tables records candidate (some existing) =
      if same_node candidate existing
      then with_evidence snapshot_id tables records existing tables.nodes
      else err snapshot_seal_error

  unfoldable pub add_node :
      List ℕ
      → SnapshotState
      → NodeArguments
      → Checked (Option Json)
      → ℕ
      → NodeTables
      → Checked (RiNode × NodeTables)
  unfolding add_all_evidence
  add_node snapshot_id state a properties new_id tables = do
    require_building state
    stable_key ← normalize_stable_key u (u.nfc a.node_kind) a.stable_key
    normalized_properties ← properties
    let candidate : RiNode = record {
      id = new_id;
      snapshot_id = snapshot_id;
      stable_key = stable_key;
      node_kind = u.nfc a.node_kind;
      name = normalized_optional u a.name;
      language = normalized_optional u a.language;
      truth_class = a.truth_class;
      properties = normalized_properties;
    }
    store_node snapshot_id tables a.evidence candidate
        (find_node snapshot_id stable_key tables.nodes)
