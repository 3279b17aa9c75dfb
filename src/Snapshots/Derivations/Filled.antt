-- ===== src/Snapshots/Derivations/Filled.antt =====
-- The dictionary that the validation of derivations fills.
use partha.Prelude.{
  ℕ, ◌≡◌, ◌≢◌, ◌⊎◌, inl, inr, refl, sym, ap, ◌∙◌, Option, none, some, List, [], ◌∷◌, ◌++◌, ◌==◌,
  ==_iff, ==_refl, Option-cases, IsIn, Bool-cases, true, false, ◌↔◌,
}
use mathlib.Core.Path.{subst}
use mathlib.Core.Option.{some-injective}
use partha.Prelude.Text.{codes}
use partha.Text.{same_text, one_of, drop}
use partha.Text.Laws.{same_text_refl, same_text_eq}
use partha.Canonical.{snapshot_seal_error, ok}
use partha.Canonical.Results.{ok-injective, err_apart, bind_ok, then_ok}
use partha.Canonical.Lists.{kind_name}
use partha.Snapshots.Graph.{Outgoing, get}
use partha.Snapshots.Graph.Acyclic.{Edge}
use partha.Snapshots.Derivations.{
  RiDerivation, DerivationFacts, Ids, Groups, table_of, resolve_reference, resolve_all,
  identity_of_row, last_of, put, key_of_row,
}
use partha.Snapshots.Derivations.Grouped.{GroupHas, HasRow}

-- A row of the table has the identity.
abbrev pub HasIdentity : Ids → ℕ → List ℕ → Type 0
HasIdentity [] row identity = ⊥
HasIdentity ((other, i) ∷ ids) row identity =
    ((other ≡ row) × (i ≡ identity)) ⊎ HasIdentity ids row identity

-- A row is in the table once, and no two rows have one identity.
pub record IsOneToOne (ids : Ids) : Type 0 where
  pub rows : (row : ℕ) (i j : List ℕ) → HasIdentity ids row i → HasIdentity ids row j → i ≡ j
  pub identities :
      (row other : ℕ) (i : List ℕ) → HasIdentity ids row i → HasIdentity ids other i → row ≡ other

last_of-HasIdentity :
    (i : List ℕ) (o : Option (List ℕ)) (identity : List ℕ)
    → last_of (some i) o ≡ some identity
    → (i ≡ identity) ⊎ (o ≡ some identity)
last_of-HasIdentity i none identity h = inl (some-injective i identity h)
last_of-HasIdentity i (some j) identity h = inr h

identity_of_row-HasIdentity :
    (row : ℕ) (ids : Ids) (identity : List ℕ)
    → identity_of_row row ids ≡ some identity
    → HasIdentity ids row identity
identity_of_row-HasIdentity row [] identity h = cc
identity_of_row-HasIdentity row ((other, i) ∷ ids) identity h = elim (Bool-cases (other == row)) [
  | inl e ↦ elim (last_of-HasIdentity i (identity_of_row row ids) identity (rw e at h)) [
    | inl same ↦ inl ((==_iff other row).0 e, same)
    | inr later ↦ inr (identity_of_row-HasIdentity row ids identity later)
  ]
  | inr e ↦ inr (identity_of_row-HasIdentity row ids identity (rw e at h))
]

some_last : (i : List ℕ) (o : Option (List ℕ)) → (j : List ℕ) × (last_of (some i) o ≡ some j)
some_last i none = (i, refl)
some_last i (some j) = (j, refl)

true_apart : true ≡ false → ⊥
true_apart h = cc

pub identity_of_row-known :
    (row : ℕ) (ids : Ids) (identity : List ℕ)
    → HasIdentity ids row identity
    → (j : List ℕ) × (identity_of_row row ids ≡ some j)
identity_of_row-known row [] identity h = absurd h
identity_of_row-known row ((other, i) ∷ ids) identity h = elim (Bool-cases (other == row)) [
  | inl e ↦ rw e (some_last i (identity_of_row row ids))
  | inr e ↦ rw e (elim h [
    | inl k ↦ absurd (true_apart (sym (rw k.0 (==_refl row)) ∙ e))
    | inr k ↦ identity_of_row-known row ids identity k
  ])
]

abbrev pub reference : RiDerivation → List ℕ
reference d = kind_name d.ref_kind ++ codes ":" ++ d.ref_identity

abbrev pub Resolves : DerivationFacts → RiDerivation → Type 0
Resolves f d = one_of d.ref_identity (table_of f d.ref_kind) ≡ true

resolve_reference-reference :
    (f : DerivationFacts) (d : RiDerivation) (key : List ℕ)
    → resolve_reference f d ≡ ok key
    → Resolves f d × (reference d ≡ key)
resolve_reference-reference f d key h =
    let (found, r) =
      then_ok (one_of d.ref_identity (table_of f d.ref_kind)) snapshot_seal_error h in
    (found, ok-injective r)

-- The targets are the references of the derivations.
pub resolve_all-IsIn :
    (f : DerivationFacts) (ds : List RiDerivation) (targets : List (List ℕ))
    → resolve_all f ds ≡ ok targets
    → (b : List ℕ) → IsIn b targets ↔ ((d : RiDerivation) × IsIn d ds × (reference d ≡ b))
unfolding resolve_all
resolve_all-IsIn f [] targets h b =
    subst (λ t. IsIn b t ↔ ((d : RiDerivation) × IsIn d [] × (reference d ≡ b))) (ok-injective h)
      ((λ n. absurd n), λ k. absurd k.1)
resolve_all-IsIn f (d ∷ ds) targets h b =
    let (key, r, a) = bind_ok (resolve_reference f d) _ h in
    let (rest, s, e) = bind_ok (resolve_all f ds) _ a in
    let (found, same) = resolve_reference-reference f d key r in
    let (only, enough) = resolve_all-IsIn f ds rest s b in
    subst (λ t. IsIn b t ↔ ((x : RiDerivation) × IsIn x (d ∷ ds) × (reference x ≡ b)))
      (ok-injective e)
      (
        (λ k. elim k [
          | inl m ↦ (d, inl refl, same ∙ m)
          | inr m ↦ let (x, there, eq) = only m in (x, inr there, eq)
        ]),
        λ k.
            let (x, there, eq) = k in
            elim there [
              | inl m ↦ inl (sym same ∙ ap reference m ∙ eq)
              | inr m ↦ inr (enough (x, m, eq))
            ],
      )

pub resolve_all-Resolves :
    (f : DerivationFacts) (ds : List RiDerivation) (targets : List (List ℕ))
    → resolve_all f ds ≡ ok targets
    → (d : RiDerivation) → IsIn d ds
    → Resolves f d
unfolding resolve_all
resolve_all-Resolves f [] targets h d k = absurd k
resolve_all-Resolves f (x ∷ ds) targets h d k =
    let (key, r, a) = bind_ok (resolve_reference f x) _ h in
    let (rest, s, e) = bind_ok (resolve_all f ds) _ a in
    elim k [
      | inl same ↦ subst (Resolves f) same (resolve_reference-reference f x key r).0
      | inr later ↦ resolve_all-Resolves f ds rest s d later
    ]

pub resolve_all-ok :
    (f : DerivationFacts) (ds : List RiDerivation)
    → ((d : RiDerivation) → IsIn d ds → Resolves f d)
    → (targets : List (List ℕ)) × (resolve_all f ds ≡ ok targets)
unfolding resolve_all
resolve_all-ok f [] h = ([], refl)
resolve_all-ok f (d ∷ ds) h =
    let (rest, e) = resolve_all-ok f ds (λ x k. h x (inr k)) in
    (reference d ∷ rest, rw (h d (inl refl), e) refl)

apart_false : (s t : List ℕ) → s ≢ t → same_text s t ≡ false
apart_false s t apart = elim (Bool-cases (same_text s t)) [
  | inl e ↦ absurd (apart (same_text_eq s t e))
  | inr e ↦ e
]

get-put_same :
    (key : List ℕ) (targets : List (List ℕ)) (g : Outgoing)
    → get (put key targets g) key ≡ some targets
get-put_same key targets [] = rw (same_text_refl key) refl
get-put_same key targets ((other, old) ∷ g) = elim (Bool-cases (same_text other key)) [
  | inl e ↦ rw (e, e) refl
  | inr e ↦ rw (e, e) (get-put_same key targets g)
]

pub get-put_other :
    (key a : List ℕ) (targets : List (List ℕ)) (g : Outgoing)
    → key ≢ a
    → get (put key targets g) a ≡ get g a
get-put_other key a targets [] apart = rw (apart_false key a apart) refl
get-put_other key a targets ((other, old) ∷ g) apart = elim (Bool-cases (same_text other key)) [
  | inl e ↦
      let off : same_text other a ≡ false =
        apart_false other a (λ m. apart (sym (same_text_eq other key e) ∙ m)) in
      rw (e, off) refl
  | inr e ↦ elim (Bool-cases (same_text other a)) [
    | inl m ↦ rw (e, m) refl
    | inr m ↦ rw (e, m) (get-put_other key a targets g apart)
  ]
]

-- A new key has the targets that are put, and the others have theirs.
pub put-Edge :
    (key a b : List ℕ) (targets : List (List ℕ)) (g : Outgoing)
    → get g key ≡ none
    → Edge (put key targets g) a b ↔ (Edge g a b ⊎ ((key ≡ a) × IsIn b targets))
put-Edge key a b targets g new = elim (Bool-cases (same_text key a)) [
  | inl e ↦
      let same = same_text_eq key a e in
      let now : get (put key targets g) a ≡ some targets =
        subst (λ k. get (put key targets g) k ≡ some targets) same (get-put_same key targets g) in
      let before : get g a ≡ none = subst (λ k. get g k ≡ none) same new in
      rw (now, before) ((λ k. inr (same, k)), λ k. elim k [ inl n ↦ absurd n | inr m ↦ m.1 ])
  | inr e ↦
      let apart : key ≢ a = λ m. true_apart (sym (rw m (same_text_refl a)) ∙ e) in
      rw (get-put_other key a targets g apart)
        ((λ k. inl k), λ k. elim k [ inl m ↦ m | inr m ↦ absurd (apart m.0) ])
]

-- What the loop adds for a group: a key and the reference of a derivation.
abbrev pub Adds : List ℕ → Ids → Groups → List ℕ → List ℕ → Type 0
Adds prefix ids groups a b =
    (row : ℕ) × (identity : List ℕ) × (d : RiDerivation) × GroupHas groups row d
    × HasIdentity ids row identity
    × (prefix ++ identity ≡ a)
    × (reference d ≡ b)

pub key_of_row-HasIdentity :
    (prefix : List ℕ) (row : ℕ) (ids : Ids) (key : List ℕ)
    → key_of_row prefix (identity_of_row row ids) ≡ ok key
    → (identity : List ℕ) × HasIdentity ids row identity × (prefix ++ identity ≡ key)
key_of_row-HasIdentity prefix row ids key h = elim (Option-cases (identity_of_row row ids)) [
  | inl e ↦ absurd (err_apart (rw e at h))
  | inr (i, e) ↦ (i, identity_of_row-HasIdentity row ids i e, ok-injective (rw e at h))
]

pub append_cancel : (p s t : List ℕ) → p ++ s ≡ p ++ t → s ≡ t
append_cancel [] s t h = h
append_cancel (a ∷ p) s t h = append_cancel p s t (ap (drop 1) h)

-- No key that is still to be put is there.
abbrev pub IsNew : List ℕ → Ids → Groups → Outgoing → Type 0
IsNew prefix ids groups g =
    (row : ℕ) (identity : List ℕ)
    → HasRow groups row
    → HasIdentity ids row identity
    → get g (prefix ++ identity) ≡ none
