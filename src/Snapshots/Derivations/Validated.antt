-- ===== src/Snapshots/Derivations/Validated.antt =====
-- What it means that the derivations of a snapshot are accepted.
use partha.Prelude.{
  ℕ, ◌≡◌, ◌≢◌, refl, sym, ap, ◌∙◌, true, false, List, [], ◌++◌, ◌↔◌, inl, inr, IsIn,
}
use partha.Prelude.Text.{codes}
use partha.Text.{starts_with}
use partha.Canonical.{ok}
use partha.Canonical.Results.{err_apart, bind_ok}
use partha.Snapshots.Graph.{Outgoing, Visit, done, cycle, exhausted, detect_cycle}
use partha.Snapshots.Graph.Acyclic.{Edge, Way, one, more}
use partha.Snapshots.Graph.Search.{detect_cycle_lem}
use partha.Snapshots.Derivations.{
  RiDerivation, DerivationFacts, Groups, derivations_by_edge, derivations_by_assertion, fill,
  outgoing_of, accepted, validate_derivation_graph,
}
use partha.Snapshots.Derivations.Grouped.{GroupHas}
use partha.Snapshots.Derivations.ByRow.{
  OfEdge, OfAssertion, edge_groups, assertion_groups, derivations_by_edge-AreGroups,
  derivations_by_assertion-AreGroups,
}
use partha.Snapshots.Derivations.Filled.{HasIdentity, IsOneToOne, Resolves, reference}
use partha.Snapshots.Derivations.Described.{fill-Edge, fill-Resolves, fill-ok, fill-get}

-- A fact, written `kind:identity`, derives from another: a derivation of its row refers to that one.
pub data Derives (f : DerivationFacts) (a b : List ℕ) : Type 0 where
  edge_derives :
      (d : RiDerivation)
      → IsIn d f.derivations
      → (row : ℕ) → OfEdge d row
      → (identity : List ℕ) → HasIdentity f.edges row identity
      → codes "edge:" ++ identity ≡ a
      → reference d ≡ b
      → Derives f a b
  assertion_derives :
      (d : RiDerivation)
      → IsIn d f.derivations
      → (row : ℕ) → OfAssertion d row
      → (identity : List ℕ) → HasIdentity f.assertions row identity
      → codes "assertion:" ++ identity ≡ a
      → reference d ≡ b
      → Derives f a b

-- Over one derivation or more.
pub data DerivesFrom (f : DerivationFacts) (a : List ℕ) : List ℕ → Type 0 where
  directly : {b : List ℕ} → Derives f a b → DerivesFrom f a b
  further : {b c : List ℕ} → DerivesFrom f a b → Derives f b c → DerivesFrom f a c

-- A fact derives from itself.
abbrev pub IsCircular : DerivationFacts → Type 0
IsCircular f = (k : List ℕ) × DerivesFrom f k k

-- What a derivation of an edge or of an assertion refers to is a fact of the snapshot, and so is what
-- it derives.
abbrev pub IsGrounded : DerivationFacts → RiDerivation → Type 0
IsGrounded f d =
    ((row : ℕ) → OfEdge d row → Resolves f d × ((i : List ℕ) × HasIdentity f.edges row i))
    × ((row : ℕ)
        → OfAssertion d row
        → Resolves f d × ((i : List ℕ) × HasIdentity f.assertions row i))

abbrev pub AllGrounded : DerivationFacts → Type 0
AllGrounded f = (d : RiDerivation) → IsIn d f.derivations → IsGrounded f d

true_apart : true ≡ false → ⊥
true_apart h = cc

kinds_apart : (i j : List ℕ) → codes "edge:" ++ i ≢ codes "assertion:" ++ j
kinds_apart i j e = true_apart (ap (λ (s : List ℕ). starts_with s (codes "edge:")) e)

module _ (f : DerivationFacts) (edges_one : IsOneToOne f.edges)
    (assertions_one : IsOneToOne f.assertions) where
  abbrev by_edge : Groups
  by_edge = derivations_by_edge f.derivations []

  abbrev by_assertion : Groups
  by_assertion = derivations_by_assertion f.derivations []

  -- The edges of the graph that is built are the derivations.
  Edge-Derives : (g : Outgoing) → outgoing_of f ≡ ok g → (a b : List ℕ) → Edge g a b ↔ Derives f a b
  unfolding outgoing_of
  Edge-Derives g h a b =
      let (first, e, r) = bind_ok (fill f (codes "edge:") f.edges by_edge []) _ h in
      let (edges_only, edges_enough) =
        fill-Edge f (codes "edge:") f.edges edges_one by_edge [] first
          (derivations_by_edge-AreGroups f.derivations [] (tt, λ row n. absurd n)).0
          (λ row i there known. refl) e a b in
      let (only, enough) =
        fill-Edge f (codes "assertion:") f.assertions assertions_one by_assertion first g
          (derivations_by_assertion-AreGroups f.derivations [] (tt, λ row n. absurd n)).0
          (λ row i there known.
            fill-get f (codes "edge:") f.edges edges_one by_edge [] first e
              (codes "assertion:" ++ i) (λ j. kinds_apart j i))
          r a b in
      (
        (λ k. elim (only k) [
          | inl m ↦ elim (edges_only m) [
            | inl n ↦ absurd n
            | inr n ↦
                let (row, i, d, there, known, ka, eq) = n in
                let (listed, of) = (edge_groups f.derivations row d).0 there in
                edge_derives d listed row of i known ka eq
          ]
          | inr n ↦
              let (row, i, d, there, known, ka, eq) = n in
              let (listed, of) = (assertion_groups f.derivations row d).0 there in
              assertion_derives d listed row of i known ka eq
        ]),
        λ k. elim k [
          | edge_derives d listed row of i known ka eq ↦ enough (
              inl (
                edges_enough (
                  inr
                    (row, i, d, (edge_groups f.derivations row d).1 (listed, of), known, ka, eq))))
          | assertion_derives d listed row of i known ka eq ↦ enough (
              inr (row, i, d, (assertion_groups f.derivations row d).1 (listed, of), known, ka, eq))
        ],
      )

  Way-DerivesFrom :
      (g : Outgoing)
      → outgoing_of f ≡ ok g
      → (a : List ℕ) {b : List ℕ} → Way g a b
      → DerivesFrom f a b
  Way-DerivesFrom g h a (one {b} e) = directly ((Edge-Derives g h a b).0 e)
  Way-DerivesFrom g h a (more {b} {c} w e) =
      further (Way-DerivesFrom g h a w) ((Edge-Derives g h b c).0 e)

  DerivesFrom-Way :
      (g : Outgoing)
      → outgoing_of f ≡ ok g
      → (a : List ℕ) {b : List ℕ} → DerivesFrom f a b
      → Way g a b
  DerivesFrom-Way g h a (directly {b} e) = one ((Edge-Derives g h a b).1 e)
  DerivesFrom-Way g h a (further {b} {c} w e) =
      more (DerivesFrom-Way g h a w) ((Edge-Derives g h b c).1 e)

  outgoing_of-AllGrounded : (g : Outgoing) → outgoing_of f ≡ ok g → AllGrounded f
  unfolding outgoing_of
  outgoing_of-AllGrounded g h d listed =
      let (first, e, r) = bind_ok (fill f (codes "edge:") f.edges by_edge []) _ h in
      (
        (λ row of.
            fill-Resolves f (codes "edge:") f.edges edges_one by_edge [] first e row d
              ((edge_groups f.derivations row d).1 (listed, of))),
        λ row of.
            fill-Resolves f (codes "assertion:") f.assertions assertions_one by_assertion first g r
              row d ((assertion_groups f.derivations row d).1 (listed, of)),
      )

  edge_fact :
      AllGrounded f
      → (row : ℕ) (d : RiDerivation) → GroupHas by_edge row d
      → Resolves f d × ((i : List ℕ) × HasIdentity f.edges row i)
  edge_fact all row d there =
      let (listed, of) = (edge_groups f.derivations row d).0 there in (all d listed).0 row of

  assertion_fact :
      AllGrounded f
      → (row : ℕ) (d : RiDerivation) → GroupHas by_assertion row d
      → Resolves f d × ((i : List ℕ) × HasIdentity f.assertions row i)
  assertion_fact all row d there =
      let (listed, of) = (assertion_groups f.derivations row d).0 there in (all d listed).1 row of

  outgoing_of-ok : AllGrounded f → (g : Outgoing) × (outgoing_of f ≡ ok g)
  unfolding outgoing_of
  outgoing_of-ok all =
      let (first, e) =
        fill-ok f (codes "edge:") f.edges edges_one by_edge []
          (λ row d k. (edge_fact all row d k).0)
          (λ row k.
            let (d, there) =
              (derivations_by_edge-AreGroups f.derivations [] (tt, λ row n. absurd n)).1 row k in
            (edge_fact all row d there).1) in
      let (g, e') =
        fill-ok f (codes "assertion:") f.assertions assertions_one by_assertion first
          (λ row d k. (assertion_fact all row d k).0)
          (λ row k.
            let (d, there) =
              (derivations_by_assertion-AreGroups f.derivations [] (tt, λ row n. absurd n)).1 row
                k in
            (assertion_fact all row d there).1) in
      (g, rw e e')

accepted_done : (v : Visit) → v ≢ cycle → v ≢ exhausted → accepted v ≡ ok tt
accepted_done (done c) h k = refl
accepted_done cycle h k = absurd (h refl)
accepted_done exhausted h k = absurd (k refl)

cycle_refused : (v : Visit) → accepted v ≡ ok tt → v ≢ cycle
cycle_refused v h e = err_apart (sym (ap accepted e) ∙ h)

-- Where a row is in its table once and no two rows have one identity, the derivations of a snapshot are
-- accepted exactly where every one that an edge or an assertion has is of a fact of the snapshot and refers to a
-- fact of the snapshot, and no fact derives from itself.
pub validate_derivation_graph_lem :
    (f : DerivationFacts)
    → IsOneToOne f.edges
    → IsOneToOne f.assertions
    → validate_derivation_graph f ≡ ok tt ↔ (AllGrounded f × ¬ IsCircular f)
unfolding validate_derivation_graph
validate_derivation_graph_lem f p q = (
  (λ h.
      let (g, o, a) = bind_ok (outgoing_of f) _ h in
      (
        outgoing_of-AllGrounded f p q g o,
        λ c.
            cycle_refused (detect_cycle g) a
              ((detect_cycle_lem g).0.1 (c.0, DerivesFrom-Way f p q g o c.0 c.1)),
      )),
  λ h.
      let (g, o) = outgoing_of-ok f p q h.0 in
      rw o (
        accepted_done (detect_cycle g)
          (λ e. let (k, w) = (detect_cycle_lem g).0.0 e in h.1 (k, Way-DerivesFrom f p q g o k w))
          (detect_cycle_lem g).1),
)
