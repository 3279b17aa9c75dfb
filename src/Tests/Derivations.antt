-- ===== src/Tests/Derivations.antt =====
-- The derivations of a snapshot with one edge, which derives from an observation and an assertion that derives from it.
use partha.Prelude.{
  ℕ, ◌≡◌, refl, Bool, true, false, none, some, List, [], ◌∷◌, ◌↔◌, sym, ◌∙◌, inl, inr,
}
use partha.Prelude.Text.{codes}
use partha.Canonical.{Checked, ok, err}
use partha.Canonical.Lists.{ReferenceKind, observation, edge, assertion}
use partha.Snapshots.Graph.{scan, visit, visit_all, detect_cycle}
use partha.Snapshots.Derivations.{
  RiDerivation, DerivationFacts, resolve_all, fill, outgoing_of, validate_derivation_graph,
}
use partha.Snapshots.Derivations.Filled.{IsOneToOne}
use partha.Snapshots.Derivations.Validated.{AllGrounded, IsCircular, validate_derivation_graph_lem}

abbrev of_edge : ReferenceKind → List ℕ → RiDerivation
of_edge kind identity = record {
  edge_ref = some 1;
  assertion_ref = none;
  ref_kind = kind;
  ref_identity = identity;
}

abbrev of_assertion : ReferenceKind → List ℕ → RiDerivation
of_assertion kind identity = record {
  edge_ref = none;
  assertion_ref = some 1;
  ref_kind = kind;
  ref_identity = identity;
}

abbrev facts : List RiDerivation → DerivationFacts
facts derivations = record {
  node_keys = codes "repo:root" ∷ [];
  observation_ids = codes "obs:9" ∷ [];
  edges = (1, codes "e") ∷ [];
  assertions = (1, codes "a") ∷ [];
  derivations = derivations;
}

abbrev chain : List RiDerivation
chain = of_edge observation (codes "obs:9") ∷ of_assertion edge (codes "e") ∷ []

chain_accepted : validate_derivation_graph (facts chain) ≡ ok tt
unfolding validate_derivation_graph outgoing_of fill resolve_all detect_cycle visit_all visit scan
chain_accepted = refl

one_row : (identity : List ℕ) → IsOneToOne ((1, identity) ∷ [])
one_row identity = record {
  rows = λ row i j h k. elim h [
    | inl m ↦ elim k [ inl n ↦ sym m.1 ∙ n.1 | inr n ↦ absurd n ]
    | inr m ↦ absurd m
  ];
  identities = λ row other i h k. elim h [
    | inl m ↦ elim k [ inl n ↦ sym m.0 ∙ n.0 | inr n ↦ absurd n ]
    | inr m ↦ absurd m
  ];
}

validate_derivation_graph_lem_example :
    validate_derivation_graph (facts chain) ≡ ok tt
    ↔ (AllGrounded (facts chain) × ¬ IsCircular (facts chain))
validate_derivation_graph_lem_example =
    validate_derivation_graph_lem (facts chain) (one_row (codes "e")) (one_row (codes "a"))

abbrev is_refused : Checked (Unit {0}) → Bool
is_refused (ok _) = false
is_refused (err _) = true

-- With the edge derived from the assertion too, there is a cycle.
ring_refused :
    is_refused (validate_derivation_graph (facts (of_edge assertion (codes "a") ∷ chain))) ≡ true
unfolding validate_derivation_graph outgoing_of fill resolve_all detect_cycle visit_all visit scan
ring_refused = refl
