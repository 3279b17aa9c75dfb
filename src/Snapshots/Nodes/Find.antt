-- ===== src/Snapshots/Nodes/Find.antt =====
-- The lookup of a node by its key, in a table that has grown.
use partha.Prelude.{
  ℕ, ◌≡◌, ◌≢◌, refl, sym, ap, Bool, true, false, ◌&&◌, Option, none, some, List, [], ◌∷◌, ◌++◌,
  Bool-cases, inl, inr, coalesce,
}
use mathlib.Core.Path.{subst}
use partha.Text.{same_text}
use partha.Text.Laws.{same_text_eq}
use partha.Snapshots.Nodes.{same_optional, RiNode, is_node_of, find_node}

some_apart : {A : Type 0} {a : A} → some a ≢ none
some_apart h = cc

and_second : (a b : Bool) → (a && b) ≡ true → b ≡ true
and_second true b h = h
and_second false b h = cc

and_first : (a b : Bool) → (a && b) ≡ true → a ≡ true
and_first true b h = refl
and_first false b h = cc

pub and_both : (a b : Bool) → (a && b) ≡ true → (a ≡ true) × (b ≡ true)
and_both a b h = (and_first a b h, and_second a b h)

pub find_node-append_found :
    (snapshot_id key : List ℕ) (nodes : List RiNode) (n found : RiNode)
    → find_node snapshot_id key nodes ≡ some found
    → find_node snapshot_id key (nodes ++ n ∷ []) ≡ some found
find_node-append_found snapshot_id key [] n found h = cc
find_node-append_found snapshot_id key (m ∷ nodes) n found h =
    elim (Bool-cases (is_node_of snapshot_id key m)) [
      | inl e ↦ rw (e) (rw (e) at h)
      | inr e ↦ rw (e) (find_node-append_found snapshot_id key nodes n found (rw (e) at h))
    ]

pub find_node-append_new :
    (snapshot_id key : List ℕ) (nodes : List RiNode) (n : RiNode)
    → find_node snapshot_id key nodes ≡ none
    → is_node_of snapshot_id key n ≡ true
    → find_node snapshot_id key (nodes ++ n ∷ []) ≡ some n
find_node-append_new snapshot_id key [] n h e = rw (e) refl
find_node-append_new snapshot_id key (m ∷ nodes) n h e =
    elim (Bool-cases (is_node_of snapshot_id key m)) [
      | inl f ↦ absurd (some_apart (rw (f) at h))
      | inr f ↦ rw (f) (find_node-append_new snapshot_id key nodes n (rw (f) at h) e)
    ]

pub find_node-key :
    (snapshot_id key : List ℕ) (nodes : List RiNode) (n : RiNode)
    → find_node snapshot_id key nodes ≡ some n
    → n.stable_key ≡ key
find_node-key snapshot_id key [] n h = absurd (some_apart (sym h))
find_node-key snapshot_id key (m ∷ nodes) n h = elim (Bool-cases (is_node_of snapshot_id key m)) [
  | inl e ↦
      let same : m ≡ n = ap (λ (o : Option RiNode). coalesce o m) (rw (e) at h) in
      subst (λ (x : RiNode). x.stable_key ≡ key) same
        (same_text_eq m.stable_key key
          (and_second (same_text m.snapshot_id snapshot_id) (same_text m.stable_key key) e))
  | inr e ↦ find_node-key snapshot_id key nodes n (rw (e) at h)
]

pub find_node-snapshot_id :
    (snapshot_id key : List ℕ) (nodes : List RiNode) (n : RiNode)
    → find_node snapshot_id key nodes ≡ some n
    → n.snapshot_id ≡ snapshot_id
find_node-snapshot_id snapshot_id key [] n h = absurd (some_apart (sym h))
find_node-snapshot_id snapshot_id key (m ∷ nodes) n h =
    elim (Bool-cases (is_node_of snapshot_id key m)) [
      | inl e ↦
          let same : m ≡ n = ap (λ (o : Option RiNode). coalesce o m) (rw (e) at h) in
          subst (λ (x : RiNode). x.snapshot_id ≡ snapshot_id) same
            (same_text_eq m.snapshot_id snapshot_id
              (and_first (same_text m.snapshot_id snapshot_id) (same_text m.stable_key key) e))
      | inr e ↦ find_node-snapshot_id snapshot_id key nodes n (rw (e) at h)
    ]

pub same_optional_eq : (a b : Option (List ℕ)) → same_optional a b ≡ true → a ≡ b
same_optional_eq none none h = refl
same_optional_eq (some s) (some t) h = ap some (same_text_eq s t h)
same_optional_eq none (some t) h = cc
same_optional_eq (some s) none h = cc
