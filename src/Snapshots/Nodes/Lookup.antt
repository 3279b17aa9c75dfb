-- ===== src/Snapshots/Nodes/Lookup.antt =====
-- A node that was added is found under its key, and the others are found as before.
use partha.Prelude.{
  ℕ, ◌≡◌, refl, sym, ap, Bool, true, Option, some, List, [], ◌∷◌, ◌++◌, ◌∙◌, ◌⊎◌, Option-cases, inl,
  inr,
}
use mathlib.Core.Path.{subst}
use partha.Text.{same_text}
use partha.Text.Laws.{same_text_refl, same_text_eq}
use partha.Database.{SnapshotState, is_building}
use partha.Canonical.{Unicode, snapshot_seal_error, snapshot_state_error, Checked, ok}
use partha.Canonical.Json.{Json}
use partha.Canonical.Key.{normalize_stable_key}
use partha.Canonical.Key.Forms.{HasForm, normalize_stable_key-HasForm}
use partha.Canonical.Results.{ok-injective, bind_ok, then_ok}
use partha.Snapshots.Evidence.{Evidence}
use partha.Snapshots.Guard.Immutable.{then_ok_unit}
use partha.Snapshots.Nodes.Find.{
  and_both, find_node-append_found, find_node-append_new, find_node-key, find_node-snapshot_id,
  same_optional_eq,
}
use partha.Snapshots.Nodes.{
  same_optional, normalized_optional, RiNode, NodeArguments, NodeTables, is_node_of, find_node,
  add_all_evidence, require_building, same_node, with_evidence, store_node, add_node,
}

-- A row of the call's snapshot, with the normalised arguments of the call in its columns, and
-- properties that are those of the call or compare equal to them. The key has the form of the
-- row's kind.
pub record IsRowOf (u : Unicode) (same_properties : Option Json → Option Json → Bool)
    (snapshot_id : List ℕ) (a : NodeArguments) (p : Option Json) (node : RiNode) : Type 0 where
  pub owner : node.snapshot_id ≡ snapshot_id
  pub key : normalize_stable_key u (u.nfc a.node_kind) a.stable_key ≡ ok node.stable_key
  pub form : HasForm (u.nfc node.node_kind) node.stable_key
  pub kind : node.node_kind ≡ u.nfc a.node_kind
  pub named : node.name ≡ normalized_optional u a.name
  pub language : node.language ≡ normalized_optional u a.language
  pub truth_class : node.truth_class ≡ a.truth_class
  pub properties : (node.properties ≡ p) ⊎ (same_properties p node.properties ≡ true)

-- The node is found under its key, and every node that was found before still is.
pub record IsFound (snapshot_id : List ℕ) (before : List RiNode) (node : RiNode)
    (after : List RiNode) : Type 0 where
  pub found : find_node snapshot_id node.stable_key after ≡ some node
  pub others :
      (snapshot_id' key : List ℕ) (n : RiNode)
      → find_node snapshot_id' key before ≡ some n
      → find_node snapshot_id' key after ≡ some n

module _ (u : Unicode) (same_properties : Option Json → Option Json → Bool) where
  -- The node, the nodes and the evidence that a call ends with.
  ending :
      (snapshot_id : List ℕ) (tables : NodeTables) (records : List Evidence) (n : RiNode)
      (nodes : List RiNode) (node : RiNode) (tables' : NodeTables)
      → with_evidence u same_properties snapshot_id tables records n nodes ≡ ok (node, tables')
      → (n ≡ node)
        × (nodes ≡ tables'.nodes)
        × (add_all_evidence u snapshot_id n.id records tables.evidence ≡ ok tables'.evidence)
  ending snapshot_id tables records n nodes node tables' h =
      let (evidence, a, e) =
        bind_ok (add_all_evidence u snapshot_id n.id records tables.evidence) _ h in
      (
        ap (λ (x : RiNode × NodeTables). x.0) (ok-injective e),
        ap (λ (x : RiNode × NodeTables). x.1.nodes) (ok-injective e),
        a ∙ ap (λ (x : RiNode × NodeTables). ok x.1.evidence) (ok-injective e),
      )

  -- What the comparison of a row with the candidate says of the row.
  agreeing :
      (snapshot_id : List ℕ) (a : NodeArguments) (p : Option Json) (candidate existing : RiNode)
      → IsRowOf u same_properties snapshot_id a p candidate
      → candidate.properties ≡ p
      → existing.snapshot_id ≡ snapshot_id
      → existing.stable_key ≡ candidate.stable_key
      → same_node u same_properties candidate existing ≡ true
      → IsRowOf u same_properties snapshot_id a p existing
  agreeing snapshot_id a p candidate existing c props owner key h =
      let (kind_name, k4) =
        and_both _ (same_properties candidate.properties existing.properties) h in
      let (k3, truth) =
        and_both _ (same_text candidate.truth_class existing.truth_class) kind_name in
      let (k2, language) = and_both _ (same_optional candidate.language existing.language) k3 in
      let (kind, named) = and_both _ (same_optional candidate.name existing.name) k2 in
      let same_kind = same_text_eq candidate.node_kind existing.node_kind kind in
      record {
        owner = owner;
        key = c.key ∙ ap ok (sym key);
        form = rw (sym same_kind, key) c.form;
        kind = sym same_kind ∙ c.kind;
        named = sym (same_optional_eq candidate.name existing.name named) ∙ c.named;
        language =
            sym (same_optional_eq candidate.language existing.language language) ∙ c.language;
        truth_class =
            sym (same_text_eq candidate.truth_class existing.truth_class truth) ∙ c.truth_class;
        properties = inr (rw props at k4);
      }

  -- What holds of the row at the end of a call holds of the node that it returns.
  moved :
      (snapshot_id : List ℕ) (a : NodeArguments) (p : Option Json) (tables : NodeTables)
      (n node : RiNode) (nodes : List RiNode) (tables' : NodeTables)
      → n ≡ node
      → nodes ≡ tables'.nodes
      → add_all_evidence u snapshot_id n.id a.evidence tables.evidence ≡ ok tables'.evidence
      → IsRowOf u same_properties snapshot_id a p n
      → IsFound snapshot_id tables.nodes n nodes
      → IsRowOf u same_properties snapshot_id a p node
        × IsFound snapshot_id tables.nodes node tables'.nodes
        × (add_all_evidence u snapshot_id node.id a.evidence tables.evidence ≡ ok tables'.evidence)
  moved snapshot_id a p tables n node nodes tables' same moved_nodes evidence c f = (
    subst (IsRowOf u same_properties snapshot_id a p) same c,
    subst (IsFound snapshot_id tables.nodes node) moved_nodes
        (subst (λ (x : RiNode). IsFound snapshot_id tables.nodes x nodes) same f),
    subst
        (λ (x : RiNode).
          add_all_evidence u snapshot_id x.id a.evidence tables.evidence ≡ ok tables'.evidence)
        same evidence,
  )

  stored :
      (snapshot_id : List ℕ) (a : NodeArguments) (p : Option Json) (tables : NodeTables)
      (candidate node : RiNode) (tables' : NodeTables)
      → IsRowOf u same_properties snapshot_id a p candidate
      → candidate.properties ≡ p
      → store_node u same_properties snapshot_id tables a.evidence candidate
          (find_node snapshot_id candidate.stable_key tables.nodes)
        ≡ ok (node, tables')
      → IsRowOf u same_properties snapshot_id a p node
        × IsFound snapshot_id tables.nodes node tables'.nodes
        × (add_all_evidence u snapshot_id node.id a.evidence tables.evidence ≡ ok tables'.evidence)
  stored snapshot_id a p tables candidate node tables' c props h =
      elim (Option-cases (find_node snapshot_id candidate.stable_key tables.nodes)) [
        | inl missing ↦
            let (same, nodes, evidence) =
              ending snapshot_id tables a.evidence candidate (tables.nodes ++ candidate ∷ []) node
                tables' (rw (missing) at h) in
            let of_it : is_node_of snapshot_id candidate.stable_key candidate ≡ true =
              rw (c.owner, same_text_refl snapshot_id, same_text_refl candidate.stable_key) refl in
            moved snapshot_id a p tables candidate node (tables.nodes ++ candidate ∷ []) tables'
              same nodes evidence c
              (record {
                found =
                    find_node-append_new snapshot_id candidate.stable_key tables.nodes candidate
                      missing of_it;
                others = λ snapshot_id' key n f.
                    find_node-append_found snapshot_id' key tables.nodes candidate n f;
              })
        | inr (existing, there) ↦
            let (agrees, b) =
              then_ok (same_node u same_properties candidate existing) snapshot_seal_error
                (rw (there) at h) in
            let (same, nodes, evidence) =
              ending snapshot_id tables a.evidence existing tables.nodes node tables' b in
            let key : existing.stable_key ≡ candidate.stable_key =
              find_node-key snapshot_id candidate.stable_key tables.nodes existing there in
            moved snapshot_id a p tables existing node tables.nodes tables' same nodes evidence
              (agreeing snapshot_id a p candidate existing c props
                (find_node-snapshot_id snapshot_id candidate.stable_key tables.nodes existing there)
                key agrees)
              (record {
                found =
                    subst (λ (k : List ℕ). find_node snapshot_id k tables.nodes ≡ some existing)
                      (sym key) there;
                others = λ snapshot_id' key n f. f;
              })
      ]

  -- A call that returns a node was made while the snapshot was being built. The node, new or found,
  -- belongs to the snapshot and has the normalised arguments in its columns, a key in the form of its
  -- kind among them; its properties are the normalised ones or compare equal to them. It is found
  -- under its key, every node that was found before is found as before, and the evidence is
  -- added for it.
  pub add_node_lem :
      (snapshot_id : List ℕ) (state : SnapshotState) (a : NodeArguments)
      (properties : Checked (Option Json)) (new_id : ℕ) (tables : NodeTables) (node : RiNode)
      (tables' : NodeTables)
      → add_node u same_properties snapshot_id state a properties new_id tables ≡ ok (node, tables')
      → (is_building state ≡ true)
        × (p : Option Json) × (properties ≡ ok p)
        × IsRowOf u same_properties snapshot_id a p node
        × IsFound snapshot_id tables.nodes node tables'.nodes
        × (add_all_evidence u snapshot_id node.id a.evidence tables.evidence ≡ ok tables'.evidence)
  unfolding add_node
  add_node_lem snapshot_id state a properties new_id tables node tables' h =
      let (opened, b) = then_ok_unit (require_building state) _ _ h in
      let (key, k, c) = bind_ok (normalize_stable_key u (u.nfc a.node_kind) a.stable_key) _ b in
      let (normalized, p, d) = bind_ok properties _ c in
      let (row, found, evidence) =
        stored snapshot_id a normalized tables _ node tables'
          (record {
            owner = refl;
            key = k;
            form = normalize_stable_key-HasForm u (u.nfc a.node_kind) a.stable_key key k;
            kind = refl;
            named = refl;
            language = refl;
            truth_class = refl;
            properties = inl refl;
          })
          refl d in
      (
        (then_ok (is_building state) snapshot_state_error opened).0,
        normalized,
        p,
        row,
        found,
        evidence,
      )
