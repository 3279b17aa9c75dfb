-- ===== src/Tests/Nodes.antt =====
-- A file node that is added to a snapshot with its root.
use partha.Prelude.{ℕ, ◌≡◌, refl, Bool, true, false, Option, none, some, List, [], ◌∷◌}
use partha.Prelude.Text.{codes}
use partha.Text.{split, join}
use partha.Database.{SnapshotState, is_building}
use partha.Canonical.{snapshot_seal_error, ok, err}
use partha.Canonical.Json.{Json}
use partha.Canonical.Path.{normalize_repo_path, resolve, resolve_text}
use partha.Canonical.Key.{normalize_stable_key, registered_key}
use partha.Snapshots.Evidence.{Evidence, node_ref, RiEvidence, add_evidence, evidence_row}
use partha.Snapshots.Nodes.{RiNode, NodeArguments, NodeTables, add_all_evidence, add_node}
use partha.Snapshots.Nodes.Lookup.{IsRowOf, IsFound, add_node_lem}
use partha.Tests.Paths.{ascii}

-- The nodes here have no properties.
abbrev both_none : Option Json → Option Json → Bool
both_none none none = true
both_none _ _ = false

abbrev node_at : ℕ → List ℕ → List ℕ → RiNode
node_at id kind key = record {
  id = id;
  snapshot_id = codes "snap_1";
  stable_key = key;
  node_kind = kind;
  name = none;
  language = none;
  truth_class = codes "observed";
  properties = none;
}

abbrev root : RiNode
root = node_at 1 (codes "repository") (codes "repo:root")

abbrev file : RiNode
file = node_at 2 (codes "file") (codes "file:a.py")

abbrev line_one : Evidence
line_one = record {
  path = codes "./a.py";
  start_line = 1;
  end_line = 1;
  extractor = codes "python";
  extractor_version = codes "1";
  logical_line_count = 4;
  granularity = codes "file";
}

abbrev row_one : RiEvidence
row_one = record {
  snapshot_id = codes "snap_1";
  parent = node_ref 2;
  path = codes "a.py";
  start_line = 1;
  end_line = 1;
  logical_line_count = some 4;
  granularity = codes "file";
  extractor = codes "python";
  extractor_version = codes "1";
}

abbrev arguments : NodeArguments
arguments = record {
  node_kind = codes "file";
  stable_key = codes "file:./a.py";
  name = none;
  language = none;
  evidence = line_one ∷ line_one ∷ [];
  truth_class = codes "observed";
}

abbrev before : NodeTables
before = record { nodes = root ∷ []; evidence = [] }

abbrev after : NodeTables
after = record { nodes = root ∷ file ∷ []; evidence = row_one ∷ [] }

added :
    add_node ascii both_none (codes "snap_1") SnapshotState.building arguments (ok none) 2 before
    ≡ ok (file, after)
unfolding add_node add_all_evidence add_evidence evidence_row normalize_stable_key registered_key
    normalize_repo_path resolve_text resolve split join
added = refl

-- A second call finds the node and its evidence.
again :
    add_node ascii both_none (codes "snap_1") SnapshotState.building arguments (ok none) 3 after
    ≡ ok (file, after)
unfolding add_node add_all_evidence add_evidence evidence_row normalize_stable_key registered_key
    normalize_repo_path resolve_text resolve split join
again = refl

add_node_lem_example :
    (is_building SnapshotState.building ≡ true)
    × (p : Option Json) × (ok none ≡ ok p)
    × IsRowOf ascii both_none (codes "snap_1") arguments p file
    × IsFound (codes "snap_1") after.nodes file after.nodes
    × (add_all_evidence ascii (codes "snap_1") 2 arguments.evidence after.evidence
        ≡ ok after.evidence)
add_node_lem_example =
    add_node_lem ascii both_none (codes "snap_1") SnapshotState.building arguments (ok none) 3 after
      file after again

-- A call for a key that is stored with another truth class is refused.
conflicting :
    add_node ascii both_none
      (codes "snap_1")
      SnapshotState.building
      (record arguments { truth_class = codes "derived" })
      (ok none)
      3
      after
    ≡ err snapshot_seal_error
unfolding add_node add_all_evidence add_evidence evidence_row normalize_stable_key registered_key
    normalize_repo_path resolve_text resolve split join
conflicting = refl
