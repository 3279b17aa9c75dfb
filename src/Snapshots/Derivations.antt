-- ===== src/Snapshots/Derivations.antt =====
-- `_validate_derivation_graph`: the references of a snapshot's derivations are looked up, the graph of the derived facts is
-- built from them, and it is searched for a cycle. Rows are the columns that this reads.
pub mod Grouped
pub mod ByRow
pub mod Filled
pub mod Described
pub mod Validated
use partha.Prelude.{
  ℕ, Bool, true, false, Option, none, some, List, [], ◌∷◌, ◌++◌, ◌==◌, if◌then◌else◌,
}
use partha.Prelude.Text.{codes}
use partha.Text.{same_text, one_of}
use partha.Canonical.{snapshot_seal_error, key_error, Checked, ok, err, ◌>>=◌}
use partha.Canonical.Lists.{ReferenceKind, observation, node, edge, assertion, kind_name}
use partha.Snapshots.Graph.{Outgoing, Visit, done, cycle, exhausted, detect_cycle}

pub record RiDerivation : Type 0 where
  pub edge_ref : Option ℕ
  pub assertion_ref : Option ℕ
  pub ref_kind : ReferenceKind
  pub ref_identity : List ℕ

-- The keys of the rows of a table with the identities of the facts.
abbrev pub Ids : Type 0
Ids = List (ℕ × List ℕ)

pub record DerivationFacts : Type 0 where
  pub node_keys : List (List ℕ)
  pub observation_ids : List (List ℕ)
  pub edges : Ids
  pub assertions : Ids
  pub derivations : List RiDerivation

abbrev pub Groups : Type 0
Groups = List (ℕ × List RiDerivation)

-- `groups[row_id].append(derivation)`
abbrev pub append_to : ℕ → RiDerivation → Groups → Groups
append_to row_id d [] = (row_id, d ∷ []) ∷ []
append_to row_id d ((other, ds) ∷ groups) =
    if other == row_id
    then (other, ds ++ d ∷ []) ∷ groups
    else (other, ds) ∷ append_to row_id d groups

abbrev pub add_to_edge : Option ℕ → RiDerivation → Groups → Groups
add_to_edge none d groups = groups
add_to_edge (some row_id) d groups = append_to row_id d groups

abbrev pub derivations_by_edge : List RiDerivation → Groups → Groups
derivations_by_edge [] groups = groups
derivations_by_edge (d ∷ ds) groups = derivations_by_edge ds (add_to_edge d.edge_ref d groups)

-- A derivation with an edge is not looked at again.
abbrev pub add_to_assertion : Option ℕ → Option ℕ → RiDerivation → Groups → Groups
add_to_assertion (some row_id) assertion_ref d groups = groups
add_to_assertion none none d groups = groups
add_to_assertion none (some row_id) d groups = append_to row_id d groups

abbrev pub derivations_by_assertion : List RiDerivation → Groups → Groups
derivations_by_assertion [] groups = groups
derivations_by_assertion (d ∷ ds) groups =
    derivations_by_assertion ds (add_to_assertion d.edge_ref d.assertion_ref d groups)

abbrev pub identities : Ids → List (List ℕ)
identities [] = []
identities ((row_id, identity) ∷ rows) = identity ∷ identities rows

abbrev pub table_of : DerivationFacts → ReferenceKind → List (List ℕ)
table_of f observation = f.observation_ids
table_of f node = f.node_keys
table_of f edge = identities f.edges
table_of f assertion = identities f.assertions

-- `resolve`
abbrev pub resolve_reference : DerivationFacts → RiDerivation → Checked (List ℕ)
resolve_reference f d =
    if one_of d.ref_identity (table_of f d.ref_kind)
    then ok (kind_name d.ref_kind ++ codes ":" ++ d.ref_identity)
    else err snapshot_seal_error

unfoldable pub resolve_all : DerivationFacts → List RiDerivation → Checked (List (List ℕ))
resolve_all f [] = ok []
resolve_all f (d ∷ ds) = do key ← resolve_reference f d; rest ← resolve_all f ds; ok (key ∷ rest)

-- A dictionary's lookup. Where a table has a row twice, the last one counts.
abbrev pub last_of : Option (List ℕ) → Option (List ℕ) → Option (List ℕ)
last_of earlier none = earlier
last_of earlier (some identity) = some identity

abbrev pub identity_of_row : ℕ → Ids → Option (List ℕ)
identity_of_row row_id [] = none
identity_of_row row_id ((other, identity) ∷ rows) =
    let later = identity_of_row row_id rows in
    if other == row_id then last_of (some identity) later else later

-- `outgoing[key] = targets`
abbrev pub put : List ℕ → List (List ℕ) → Outgoing → Outgoing
put key targets [] = (key, targets) ∷ []
put key targets ((other, old) ∷ outgoing) =
    if same_text other key
    then (other, targets) ∷ outgoing
    else (other, old) ∷ put key targets outgoing

abbrev pub key_of_row : List ℕ → Option (List ℕ) → Checked (List ℕ)
key_of_row prefix none = err key_error
key_of_row prefix (some identity) = ok (prefix ++ identity)

-- One of the two loops that fill the dictionary.
unfoldable pub fill : DerivationFacts → List ℕ → Ids → Groups → Outgoing → Checked Outgoing
unfolding resolve_all
fill f prefix ids [] outgoing = ok outgoing
fill f prefix ids ((row_id, ds) ∷ groups) outgoing = do
  key ← key_of_row prefix (identity_of_row row_id ids)
  targets ← resolve_all f ds
  fill f prefix ids groups (put key targets outgoing)

unfoldable pub outgoing_of : DerivationFacts → Checked Outgoing
unfolding fill
outgoing_of f = do
  edges ← fill f (codes "edge:") f.edges (derivations_by_edge f.derivations []) []
  fill f (codes "assertion:") f.assertions (derivations_by_assertion f.derivations []) edges

-- The end of the search. It does not run out of fuel; that it would is not an end of the code.
abbrev pub accepted : Visit → Checked (Unit {0})
accepted (done colors) = ok tt
accepted cycle = err snapshot_seal_error
accepted exhausted = err key_error

unfoldable pub validate_derivation_graph : DerivationFacts → Checked (Unit {0})
unfolding outgoing_of detect_cycle
validate_derivation_graph f = do outgoing ← outgoing_of f; accepted (detect_cycle outgoing)
