-- ===== src/Canonical/Key/Forms.antt =====
-- The forms of the keys that `normalize_stable_key` accepts, by the kind of the node.
use partha.Prelude.{
  not-false, or_false, ℕ, ◌≡◌, ◌≢◌, refl, sym, ap, ◌∙◌, Bool, true, false, not, ◌||◌, Option, none,
  some, List, [], ◌∷◌, ◌++◌, ◌≤◌, ltb, arith, Bool-cases, inl, inr,
}
use mathlib.Core.Bool.{true≢false}
use mathlib.Core.Path.{subst}
use partha.Prelude.Text.{codes}
use partha.Text.{same_text, one_of, starts_with, contains, has_text, drop, count, cut}
use partha.Text.Laws.{same_text_eq, Lacks}
use partha.Text.Parts.{starts_with-append, contains-parts, has_text-parts, count-contains}
use partha.Canonical.{Unicode, canonicalization_error, Checked, ok}
use partha.Canonical.Results.{ok-injective, err_apart, bind_ok, then_ok, else_ok}
use partha.Canonical.Path.{normalize_repo_path}
use partha.Canonical.Path.Normal.{IsNormal, normalize_repo_path-IsNormal}
use partha.Canonical.Key.{
  is_token, is_empty, has_control, unit_separator, root_key, module_key, file_key, symbol_parts,
  dependency_key, service_key, iac_parts, iac_key, registered_key, normalize_stable_key,
}

abbrev pub registered_kinds : List (List ℕ)
registered_kinds =
    codes "repository"
    ∷ codes "module"
    ∷ codes "file"
    ∷ codes "symbol"
    ∷ codes "dependency"
    ∷ codes "service"
    ∷ codes "iac_resource"
    ∷ []

-- The documented forms, but for this: the parts of a dependency's, a service's and a resource's key
-- may be empty texts, as in `dep::`, `svc:://` and `iac:a.yml::/`.
pub data HasForm (kind key : List ℕ) : Type 0 where
  repository_form : kind ≡ codes "repository" → key ≡ codes "repo:root" → HasForm kind key
  module_form :
      kind ≡ codes "module" → (p : List ℕ) → key ≡ codes "mod:" ++ p → IsNormal p → HasForm kind key
  file_form :
      kind ≡ codes "file"
      → (p : List ℕ) → key ≡ codes "file:" ++ p
      → IsNormal p
      → p ≢ []
      → HasForm kind key
  symbol_form :
      kind ≡ codes "symbol"
      → (p q : List ℕ) → key ≡ p ++ codes "::" ++ q
      → IsNormal p
      → p ≢ []
      → q ≢ []
      → HasForm kind key
  dependency_form :
      kind ≡ codes "dependency"
      → (ecosystem name : List ℕ) → key ≡ codes "dep:" ++ (ecosystem ++ b':' ∷ name)
      → Lacks b':' ecosystem
      → HasForm kind key
  service_form :
      kind ≡ codes "service"
      → (scheme host : List ℕ) → key ≡ codes "svc:" ++ scheme ++ codes "://" ++ host
      → HasForm kind key
  iac_form :
      kind ≡ codes "iac_resource"
      → (p resource name : List ℕ)
      → key ≡ codes "iac:" ++ p ++ codes "::" ++ (resource ++ b'/' ∷ name)
      → IsNormal p
      → p ≢ []
      → Lacks b'/' resource
      → HasForm kind key
  other_form : one_of kind registered_kinds ≡ false → HasForm kind key

not_empty : (s : List ℕ) → is_empty s ≡ false → s ≢ []
not_empty s h e = absurd (true≢false (sym (ap is_empty e) ∙ h))

-- What holds of each form's reading holds of `registered_key`.
pub registered_key_cases :
    (u : Unicode) (kind key : List ℕ) (P : Checked (List ℕ) → Type 0)
    → (kind ≡ codes "repository" → P (root_key key))
    → (kind ≡ codes "module" → P (module_key u key))
    → (kind ≡ codes "file" → P (file_key u key))
    → (kind ≡ codes "symbol" → P (symbol_parts u (cut (codes "::") key)))
    → (kind ≡ codes "dependency" → P (dependency_key key))
    → (kind ≡ codes "service" → P (service_key key))
    → (kind ≡ codes "iac_resource" → P (iac_key u key))
    → (one_of kind registered_kinds ≡ false → P (ok key))
    → P (registered_key u kind key)
unfolding registered_key
registered_key_cases u kind key P r m f s d v i o =
    elim (Bool-cases (same_text kind (codes "repository"))) [
      | inl e ↦ rw (e) (r (same_text_eq kind (codes "repository") e))
      | inr e1 ↦ elim (Bool-cases (same_text kind (codes "module"))) [
        | inl e ↦ rw (e1, e) (m (same_text_eq kind (codes "module") e))
        | inr e2 ↦ elim (Bool-cases (same_text kind (codes "file"))) [
          | inl e ↦ rw (e1, e2, e) (f (same_text_eq kind (codes "file") e))
          | inr e3 ↦ elim (Bool-cases (same_text kind (codes "symbol"))) [
            | inl e ↦ rw (e1, e2, e3, e) (s (same_text_eq kind (codes "symbol") e))
            | inr e4 ↦ elim (Bool-cases (same_text kind (codes "dependency"))) [
              | inl e ↦ rw (e1, e2, e3, e4, e) (d (same_text_eq kind (codes "dependency") e))
              | inr e5 ↦ elim (Bool-cases (same_text kind (codes "service"))) [
                | inl e ↦ rw (e1, e2, e3, e4, e5, e) (v (same_text_eq kind (codes "service") e))
                | inr e6 ↦ elim (Bool-cases (same_text kind (codes "iac_resource"))) [
                  | inl e ↦
                      rw (e1, e2, e3, e4, e5, e6, e)
                        (i (same_text_eq kind (codes "iac_resource") e))
                  | inr e7 ↦
                      rw (e1, e2, e3, e4, e5, e6, e7) (o (rw (e1, e2, e3, e4, e5, e6, e7) refl))
                ]
              ]
            ]
          ]
        ]
      ]
    ]

not_ltb : (a b : ℕ) → ltb a b ≡ false → b ≤ a
not_ltb a b h = ground (arith, h)

dependency-parts :
    (key : List ℕ)
    → starts_with key (codes "dep:") ≡ true
    → 2 ≤ count b':' key
    → (ecosystem name : List ℕ) × (key ≡ codes "dep:" ++ (ecosystem ++ b':' ∷ name))
      × Lacks b':' ecosystem
dependency-parts key starts two =
    let (rest, prefixed) = starts_with-append key (codes "dep:") starts in
    let one : 1 ≤ count b':' rest = ground (arith, (rw prefixed at two)) in
    let (ecosystem, name, parts, lacks) = contains-parts b':' rest (count-contains b':' rest one) in
    (ecosystem, name, prefixed ∙ ap (λ (t : List ℕ). codes "dep:" ++ t) parts, lacks)

service-parts :
    (key : List ℕ)
    → starts_with key (codes "svc:") ≡ true
    → has_text (codes "://") (drop 4 key) ≡ true
    → (scheme host : List ℕ) × (key ≡ codes "svc:" ++ scheme ++ codes "://" ++ host)
service-parts key starts has =
    let (rest, prefixed) = starts_with-append key (codes "svc:") starts in
    let (scheme, host, parts) = has_text-parts (codes "://") rest (rw prefixed at has) in
    (scheme, host, prefixed ∙ ap (λ (t : List ℕ). codes "svc:" ++ t) parts)

module _ (u : Unicode) (kind key : List ℕ) where
  -- Where the check returns, it returns a key of the form.
  abbrev Returns : Checked (List ℕ) → Type 0
  Returns r = (k : List ℕ) → r ≡ ok k → HasForm kind k

  root_key_lem : kind ≡ codes "repository" → Returns (root_key key)
  root_key_lem e k h =
      let (same, r) = then_ok (same_text key (codes "repo:root")) canonicalization_error h in
      repository_form e (sym (ok-injective r) ∙ same_text_eq key (codes "repo:root") same)

  module_key_lem : kind ≡ codes "module" → Returns (module_key u key)
  module_key_lem e k h =
      let (starts, r) = then_ok (starts_with key (codes "mod:")) canonicalization_error h in
      let (p, n, joined) = bind_ok (normalize_repo_path u (drop 4 key)) _ r in
      module_form e p (sym (ok-injective joined)) (normalize_repo_path-IsNormal u (drop 4 key) p n)

  file_key_lem : kind ≡ codes "file" → Returns (file_key u key)
  file_key_lem e k h =
      let (starts, r) = then_ok (starts_with key (codes "file:")) canonicalization_error h in
      let (p, n, joined) = bind_ok (normalize_repo_path u (drop 5 key)) _ r in
      let (full, f) = else_ok (is_empty p) canonicalization_error joined in
      file_form e p (sym (ok-injective f)) (normalize_repo_path-IsNormal u (drop 5 key) p n)
        (not_empty p full)

  symbol_parts_lem :
      kind ≡ codes "symbol" → (parts : Option (List ℕ × List ℕ)) → Returns (symbol_parts u parts)
  symbol_parts_lem e none k h = absurd (err_apart h)
  symbol_parts_lem e (some (path, q)) k h =
      let (p, n, joined) = bind_ok (normalize_repo_path u path) _ h in
      let (full, f) = else_ok (is_empty p || is_empty q) canonicalization_error joined in
      let (full_p, full_q) = or_false (is_empty p) (is_empty q) full in
      symbol_form e p q (sym (ok-injective f)) (normalize_repo_path-IsNormal u path p n)
        (not_empty p full_p) (not_empty q full_q)

  dependency_key_lem : kind ≡ codes "dependency" → Returns (dependency_key key)
  dependency_key_lem e k h =
      let (fine, r) =
        else_ok (not (starts_with key (codes "dep:")) || ltb (count b':' key) 2)
          canonicalization_error h in
      let (starts, two) =
        or_false (not (starts_with key (codes "dep:"))) (ltb (count b':' key) 2) fine in
      let (ecosystem, name, parts, lacks) =
        dependency-parts key (not-false (starts_with key (codes "dep:")) starts)
          (not_ltb (count b':' key) 2 two) in
      subst (HasForm kind) (ok-injective r) (dependency_form e ecosystem name parts lacks)

  service_key_lem : kind ≡ codes "service" → Returns (service_key key)
  service_key_lem e k h =
      let host : Bool = has_text (codes "://") (drop 4 key) in
      let (fine, r) =
        else_ok (not (starts_with key (codes "svc:")) || not host) canonicalization_error h in
      let (starts, has) = or_false (not (starts_with key (codes "svc:"))) (not host) fine in
      let (scheme, rest, parts) =
        service-parts key (not-false (starts_with key (codes "svc:")) starts)
          (not-false host has) in
      subst (HasForm kind) (ok-injective r) (service_form e scheme rest parts)

  iac_parts_lem :
      kind ≡ codes "iac_resource" → (parts : Option (List ℕ × List ℕ)) → Returns (iac_parts u parts)
  iac_parts_lem e none k h = absurd (err_apart h)
  iac_parts_lem e (some (path, q)) k h =
      let (p, n, joined) = bind_ok (normalize_repo_path u path) _ h in
      let (full, f) = else_ok (is_empty p || not (contains b'/' q)) canonicalization_error joined in
      let (full_p, slash) = or_false (is_empty p) (not (contains b'/' q)) full in
      let (resource, name, parts, lacks) =
        contains-parts b'/' q (not-false (contains b'/' q) slash) in
      iac_form e p resource name
        (sym (ok-injective f) ∙ ap (λ (t : List ℕ). codes "iac:" ++ p ++ codes "::" ++ t) parts)
        (normalize_repo_path-IsNormal u path p n) (not_empty p full_p) lacks

  iac_key_lem : kind ≡ codes "iac_resource" → Returns (iac_key u key)
  iac_key_lem e k h =
      let (starts, r) = then_ok (starts_with key (codes "iac:")) canonicalization_error h in
      iac_parts_lem e (cut (codes "::") (drop 4 key)) k r

  registered_key-HasForm : Returns (registered_key u kind key)
  registered_key-HasForm =
      registered_key_cases u kind key Returns root_key_lem module_key_lem file_key_lem
        (λ e. symbol_parts_lem e (cut (codes "::") key)) dependency_key_lem service_key_lem
        iac_key_lem (λ o k h. subst (HasForm kind) (ok-injective h) (other_form o))

-- An accepted key has the form that is registered for its kind, with a normal path where the form has a path: a kind that
-- has no form may have any key.
pub normalize_stable_key-HasForm :
    (u : Unicode) (kind raw key : List ℕ)
    → normalize_stable_key u kind raw ≡ ok key
    → HasForm (u.nfc kind) key
unfolding normalize_stable_key
normalize_stable_key-HasForm u kind raw key h =
    let text = u.nfc raw in
    let (token, a) =
      else_ok (not (is_token (u.nfc kind)) || is_empty text) canonicalization_error h in
    let (plain, b) =
      else_ok (contains unit_separator text || has_control text) canonicalization_error a in
    registered_key-HasForm u (u.nfc kind) text key b
