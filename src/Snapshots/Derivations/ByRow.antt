-- ===== src/Snapshots/Derivations/ByRow.antt =====
-- The groups of the derivations of edges and of assertions.
use partha.Prelude.{
  ℕ, ◌≡◌, ◌⊎◌, inl, inr, refl, sym, ap, Option, none, some, List, [], ◌∷◌, IsIn, ◌↔◌,
}
use mathlib.Core.Path.{subst}
use mathlib.Core.Option.{some-injective}
use partha.Snapshots.Derivations.{
  RiDerivation, Groups, append_to, add_to_edge, derivations_by_edge, add_to_assertion,
  derivations_by_assertion,
}
use partha.Snapshots.Derivations.Grouped.{
  GroupHas, HasRow, DistinctRows, append_to-GroupHas, append_to-HasRow, append_to-DistinctRows,
  absent_present,
}

-- The derivation is of the row of an edge.
abbrev pub OfEdge : RiDerivation → ℕ → Type 0
OfEdge d row = d.edge_ref ≡ some row

-- It is of the row of an assertion, and of no edge.
abbrev pub OfAssertion : RiDerivation → ℕ → Type 0
OfAssertion d row = (d.edge_ref ≡ none) × (d.assertion_ref ≡ some row)

add_to_edge-GroupHas :
    (o : Option ℕ) (x : RiDerivation) (groups : Groups) (row : ℕ) (d : RiDerivation)
    → GroupHas (add_to_edge o x groups) row d ↔ (GroupHas groups row d ⊎ ((o ≡ some row) × (x ≡ d)))
add_to_edge-GroupHas none x groups row d =
    ((λ h. inl h), λ h. elim h [ inl k ↦ k | inr k ↦ absurd (absent_present k.0) ])
add_to_edge-GroupHas (some r) x groups row d =
    let (only, enough) = append_to-GroupHas r x groups row d in
    (
      (λ h. elim (only h) [ inl k ↦ inl k | inr k ↦ inr (ap some k.0, k.1) ]),
      λ h. elim h [ inl k ↦ enough (inl k) | inr k ↦ enough (inr (some-injective r row k.0, k.1)) ],
    )

add_to_assertion-GroupHas :
    (o o' : Option ℕ) (x : RiDerivation) (groups : Groups) (row : ℕ) (d : RiDerivation)
    → GroupHas (add_to_assertion o o' x groups) row d
      ↔ (GroupHas groups row d ⊎ (((o ≡ none) × (o' ≡ some row)) × (x ≡ d)))
add_to_assertion-GroupHas (some r) o' x groups row d =
    ((λ h. inl h), λ h. elim h [ inl k ↦ k | inr k ↦ absurd (absent_present (sym k.0.0)) ])
add_to_assertion-GroupHas none none x groups row d =
    ((λ h. inl h), λ h. elim h [ inl k ↦ k | inr k ↦ absurd (absent_present k.0.1) ])
add_to_assertion-GroupHas none (some r) x groups row d =
    let (only, enough) = append_to-GroupHas r x groups row d in
    (
      (λ h. elim (only h) [ inl k ↦ inl k | inr k ↦ inr ((refl, ap some k.0), k.1) ]),
      λ h. elim h [
        | inl k ↦ enough (inl k)
        | inr k ↦ enough (inr (some-injective r row k.0.1, k.1))
      ],
    )

pub GroupHas-HasRow :
    (groups : Groups) (row : ℕ) (d : RiDerivation) → GroupHas groups row d → HasRow groups row
GroupHas-HasRow [] row d h = h
GroupHas-HasRow ((other, ds) ∷ groups) row d h = elim h [
  | inl k ↦ inl k.0
  | inr k ↦ inr (GroupHas-HasRow groups row d k)
]

module _ (OfRow : RiDerivation → ℕ → Type 0) (add : RiDerivation → Groups → Groups)
    (add-GroupHas : (x : RiDerivation) (groups : Groups) (row : ℕ) (d : RiDerivation)
      → GroupHas (add x groups) row d ↔ (GroupHas groups row d ⊎ (OfRow x row × (x ≡ d)))) where
  -- One derivation more is in its group.
  added :
      (x : RiDerivation) (ds : List RiDerivation) (groups : Groups) (row : ℕ) (d : RiDerivation)
      → (GroupHas (add x groups) row d ⊎ (IsIn d ds × OfRow d row))
        ↔ (GroupHas groups row d ⊎ (IsIn d (x ∷ ds) × OfRow d row))
  added x ds groups row d =
      let (only, enough) = add-GroupHas x groups row d in
      (
        (λ h. elim h [
          | inl k ↦ elim (only k) [
            | inl old ↦ inl old
            | inr new ↦ inr (inl new.1, subst (λ (y : RiDerivation). OfRow y row) new.1 new.0)
          ]
          | inr k ↦ inr (inr k.0, k.1)
        ]),
        λ h. elim h [
          | inl k ↦ inl (enough (inl k))
          | inr k ↦ elim k.0 [
            | inl same ↦
                inl (enough (inr (subst (λ (y : RiDerivation). OfRow y row) (sym same) k.1, same)))
            | inr later ↦ inr (later, k.1)
          ]
        ],
      )

derivations_by_edge-GroupHas :
    (ds : List RiDerivation) (groups : Groups) (row : ℕ) (d : RiDerivation)
    → GroupHas (derivations_by_edge ds groups) row d
      ↔ (GroupHas groups row d ⊎ (IsIn d ds × OfEdge d row))
derivations_by_edge-GroupHas [] groups row d =
    ((λ h. inl h), λ h. elim h [ inl k ↦ k | inr k ↦ absurd k.0 ])
derivations_by_edge-GroupHas (x ∷ ds) groups row d =
    let (only, enough) = derivations_by_edge-GroupHas ds (add_to_edge x.edge_ref x groups) row d in
    let (there, back) =
      added OfEdge (λ x. add_to_edge x.edge_ref x) (λ x. add_to_edge-GroupHas x.edge_ref x) x ds
        groups row d in
    ((λ h. there (only h)), λ h. enough (back h))

derivations_by_assertion-GroupHas :
    (ds : List RiDerivation) (groups : Groups) (row : ℕ) (d : RiDerivation)
    → GroupHas (derivations_by_assertion ds groups) row d
      ↔ (GroupHas groups row d ⊎ (IsIn d ds × OfAssertion d row))
derivations_by_assertion-GroupHas [] groups row d =
    ((λ h. inl h), λ h. elim h [ inl k ↦ k | inr k ↦ absurd k.0 ])
derivations_by_assertion-GroupHas (x ∷ ds) groups row d =
    let (only, enough) =
      derivations_by_assertion-GroupHas ds (add_to_assertion x.edge_ref x.assertion_ref x groups)
        row d in
    let (there, back) =
      added OfAssertion (λ x. add_to_assertion x.edge_ref x.assertion_ref x)
        (λ x. add_to_assertion-GroupHas x.edge_ref x.assertion_ref x) x ds groups row d in
    ((λ h. there (only h)), λ h. enough (back h))

-- The derivations of the rows, and no others, are in the groups that start empty.
pub edge_groups :
    (ds : List RiDerivation) (row : ℕ) (d : RiDerivation)
    → GroupHas (derivations_by_edge ds []) row d ↔ (IsIn d ds × OfEdge d row)
edge_groups ds row d =
    let (only, enough) = derivations_by_edge-GroupHas ds [] row d in
    ((λ h. elim (only h) [ inl n ↦ absurd n | inr k ↦ k ]), λ k. enough (inr k))

pub assertion_groups :
    (ds : List RiDerivation) (row : ℕ) (d : RiDerivation)
    → GroupHas (derivations_by_assertion ds []) row d ↔ (IsIn d ds × OfAssertion d row)
assertion_groups ds row d =
    let (only, enough) = derivations_by_assertion-GroupHas ds [] row d in
    ((λ h. elim (only h) [ inl n ↦ absurd n | inr k ↦ k ]), λ k. enough (inr k))

abbrev pub NoEmpty : Groups → Type 0
NoEmpty groups = (row : ℕ) → HasRow groups row → (d : RiDerivation) × GroupHas groups row d

append_to-NoEmpty :
    (r : ℕ) (x : RiDerivation) (groups : Groups) → NoEmpty groups → NoEmpty (append_to r x groups)
append_to-NoEmpty r x groups h row k = elim (append_to-HasRow r x groups row k) [
  | inl old ↦ let (d, m) = h row old in (d, (append_to-GroupHas r x groups row d).1 (inl m))
  | inr new ↦ (x, (append_to-GroupHas r x groups row x).1 (inr (new, refl)))
]

-- No row has two groups, and no group is empty.
abbrev pub AreGroups : Groups → Type 0
AreGroups groups = DistinctRows groups × NoEmpty groups

append_to-AreGroups :
    (r : ℕ) (x : RiDerivation) (groups : Groups)
    → AreGroups groups
    → AreGroups (append_to r x groups)
append_to-AreGroups r x groups h =
    (append_to-DistinctRows r x groups h.0, append_to-NoEmpty r x groups h.1)

add_to_edge-AreGroups :
    (o : Option ℕ) (x : RiDerivation) (groups : Groups)
    → AreGroups groups
    → AreGroups (add_to_edge o x groups)
add_to_edge-AreGroups none x groups h = h
add_to_edge-AreGroups (some r) x groups h = append_to-AreGroups r x groups h

add_to_assertion-AreGroups :
    (o o' : Option ℕ) (x : RiDerivation) (groups : Groups)
    → AreGroups groups
    → AreGroups (add_to_assertion o o' x groups)
add_to_assertion-AreGroups (some r) o' x groups h = h
add_to_assertion-AreGroups none none x groups h = h
add_to_assertion-AreGroups none (some r) x groups h = append_to-AreGroups r x groups h

pub derivations_by_edge-AreGroups :
    (ds : List RiDerivation) (groups : Groups)
    → AreGroups groups
    → AreGroups (derivations_by_edge ds groups)
derivations_by_edge-AreGroups [] groups h = h
derivations_by_edge-AreGroups (x ∷ ds) groups h =
    derivations_by_edge-AreGroups ds (add_to_edge x.edge_ref x groups)
      (add_to_edge-AreGroups x.edge_ref x groups h)

pub derivations_by_assertion-AreGroups :
    (ds : List RiDerivation) (groups : Groups)
    → AreGroups groups
    → AreGroups (derivations_by_assertion ds groups)
derivations_by_assertion-AreGroups [] groups h = h
derivations_by_assertion-AreGroups (x ∷ ds) groups h =
    derivations_by_assertion-AreGroups ds (add_to_assertion x.edge_ref x.assertion_ref x groups)
      (add_to_assertion-AreGroups x.edge_ref x.assertion_ref x groups h)
