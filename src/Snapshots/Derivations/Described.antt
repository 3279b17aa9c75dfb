-- ===== src/Snapshots/Derivations/Described.antt =====
-- The edges of the graph that the validation of derivations builds.
use partha.Prelude.{ℕ, ◌≡◌, ◌≢◌, ◌⊎◌, inl, inr, refl, sym, ap, ◌∙◌, none, List, [], ◌∷◌, ◌++◌, ◌↔◌}
use mathlib.Core.Path.{subst}
use partha.Canonical.{ok}
use partha.Canonical.Results.{ok-injective, bind_ok}
use partha.Snapshots.Graph.{Outgoing, get}
use partha.Snapshots.Graph.Acyclic.{Edge}
use partha.Snapshots.Derivations.{
  RiDerivation, DerivationFacts, Ids, Groups, resolve_all, identity_of_row, put, key_of_row, fill,
}
use partha.Snapshots.Derivations.Grouped.{GroupHas, HasRow, DistinctRows}
use partha.Snapshots.Derivations.Filled.{
  HasIdentity, IsOneToOne, Resolves, Adds, IsNew, resolve_all-IsIn, resolve_all-Resolves,
  resolve_all-ok, put-Edge, key_of_row-HasIdentity, append_cancel, get-put_other,
  identity_of_row-known,
}

module _ (f : DerivationFacts) (prefix : List ℕ) (ids : Ids) (one : IsOneToOne ids) where
  -- The key of a group is not that of a group after it.
  IsNew-put :
      (row : ℕ) (ds : List RiDerivation) (groups : Groups) (i : List ℕ) (targets : List (List ℕ))
      (g : Outgoing)
      → ¬ HasRow groups row
      → HasIdentity ids row i
      → IsNew prefix ids ((row, ds) ∷ groups) g
      → IsNew prefix ids groups (put (prefix ++ i) targets g)
  IsNew-put row ds groups i targets g alone known new other j there known' =
      let apart : prefix ++ i ≢ prefix ++ j = λ e. alone (
        subst (HasRow groups)
          (sym (
            one.identities row other j
              (subst (HasIdentity ids row) (append_cancel prefix i j e) known) known'))
          there) in
      get-put_other (prefix ++ i) (prefix ++ j) targets g apart ∙ new other j (inr there) known'

  pub fill-Edge :
      (groups : Groups) (before g : Outgoing)
      → DistinctRows groups
      → IsNew prefix ids groups before
      → fill f prefix ids groups before ≡ ok g
      → (a b : List ℕ) → Edge g a b ↔ (Edge before a b ⊎ Adds prefix ids groups a b)
  unfolding fill
  fill-Edge [] before g distinct new h a b =
      subst (λ (t : Outgoing). Edge t a b ↔ (Edge before a b ⊎ Adds prefix ids [] a b))
        (ok-injective h)
        (
          (λ k. inl k),
          λ k. elim k [ inl m ↦ m | inr m ↦ let (row, i, d, n, known, ka, eq) = m in absurd n ],
        )
  fill-Edge ((row, ds) ∷ groups) before g distinct new h a b =
      let (key, k, r) = bind_ok (key_of_row prefix (identity_of_row row ids)) _ h in
      let (targets, t, rest) = bind_ok (resolve_all f ds) _ r in
      let (i, known, same) = key_of_row-HasIdentity prefix row ids key k in
      let fresh : get before key ≡ none =
        subst (λ x. get before x ≡ none) same (new row i (inl refl) known) in
      let later : IsNew prefix ids groups (put key targets before) =
        subst (λ x. IsNew prefix ids groups (put x targets before)) same
          (IsNew-put row ds groups i targets before distinct.0 known new) in
      let (only, enough) = fill-Edge groups (put key targets before) g distinct.1 later rest a b in
      let (put_only, put_enough) = put-Edge key a b targets before fresh in
      let (in_only, in_enough) = resolve_all-IsIn f ds targets t b in
      (
        (λ e. elim (only e) [
          | inl m ↦ elim (put_only m) [
            | inl old ↦ inl old
            | inr n ↦
                let (d, there, eq) = in_only n.1 in
                inr (row, i, d, inl (refl, there), known, same ∙ n.0, eq)
          ]
          | inr m ↦
              let (o, j, d, there, known', ka, eq) = m in inr (o, j, d, inr there, known', ka, eq)
        ]),
        λ e. elim e [
          | inl old ↦ enough (inl (put_enough (inl old)))
          | inr m ↦
              let (o, j, d, there, known', ka, eq) = m in
              elim there [
                | inl n ↦
                    let i_is_j : i ≡ j =
                      one.rows o i j (subst (λ x. HasIdentity ids x i) n.0 known) known' in
                    enough (
                      inl (
                        put_enough (
                          inr (
                            sym same ∙ ap (λ (x : List ℕ). prefix ++ x) i_is_j ∙ ka,
                            in_enough (d, n.1, eq),
                          ))))
                | inr n ↦ enough (inr (o, j, d, n, known', ka, eq))
              ]
        ],
      )

  pub fill-Resolves :
      (groups : Groups) (before g : Outgoing)
      → fill f prefix ids groups before ≡ ok g
      → (row : ℕ) (d : RiDerivation) → GroupHas groups row d
      → Resolves f d × ((i : List ℕ) × HasIdentity ids row i)
  unfolding fill
  fill-Resolves [] before g h row d k = absurd k
  fill-Resolves ((other, ds) ∷ groups) before g h row d there =
      let (key, k, r) = bind_ok (key_of_row prefix (identity_of_row other ids)) _ h in
      let (targets, t, rest) = bind_ok (resolve_all f ds) _ r in
      let (i, known, same) = key_of_row-HasIdentity prefix other ids key k in
      elim there [
        | inl m ↦ (
          resolve_all-Resolves f ds targets t d m.1,
          (i, subst (λ x. HasIdentity ids x i) m.0 known),
        )
        | inr m ↦ fill-Resolves groups (put key targets before) g rest row d m
      ]

  pub fill-ok :
      (groups : Groups) (before : Outgoing)
      → ((row : ℕ) (d : RiDerivation) → GroupHas groups row d → Resolves f d)
      → ((row : ℕ) → HasRow groups row → (i : List ℕ) × HasIdentity ids row i)
      → (g : Outgoing) × (fill f prefix ids groups before ≡ ok g)
  unfolding fill
  fill-ok [] before h known = (before, refl)
  fill-ok ((row, ds) ∷ groups) before h known =
      let (i, there) = known row (inl refl) in
      let (j, found) = identity_of_row-known row ids i there in
      let (targets, t) = resolve_all-ok f ds (λ d k. h row d (inl (refl, k))) in
      let (g, e) =
        fill-ok groups (put (prefix ++ j) targets before) (λ o d k. h o d (inr k))
          (λ o k. known o (inr k)) in
      (g, rw (found, t) e)

  -- Keys without the prefix are as before.
  pub fill-get :
      (groups : Groups) (before g : Outgoing)
      → fill f prefix ids groups before ≡ ok g
      → (k : List ℕ) → ((i : List ℕ) → prefix ++ i ≢ k)
      → get g k ≡ get before k
  unfolding fill
  fill-get [] before g h k apart = ap (λ (t : Outgoing). get t k) (sym (ok-injective h))
  fill-get ((row, ds) ∷ groups) before g h k apart =
      let (key, r, a) = bind_ok (key_of_row prefix (identity_of_row row ids)) _ h in
      let (targets, t, rest) = bind_ok (resolve_all f ds) _ a in
      let (i, known, same) = key_of_row-HasIdentity prefix row ids key r in
      fill-get groups (put key targets before) g rest k apart
      ∙ get-put_other key k targets before (λ e. apart i (same ∙ e))
