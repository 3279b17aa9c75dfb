-- ===== src/Canonical/Key/Identity.antt =====
-- The texts that identities are computed from: no accepted key or predicate has the character that separates them.
use partha.Prelude.{
  or_false, ℕ, ◌≡◌, refl, sym, ap, ◌∙◌, Bool, true, not, ◌||◌, Option, none, some, List, [], ◌∷◌,
  ◌++◌, ltb, if◌then◌else◌, arith,
}
use mathlib.Core.Path.{subst}
use mathlib.Core.List.{tail}
use partha.Prelude.Text.{codes}
use partha.Text.{same_text, starts_with, contains, has_text, drop, count, cut, split}
use partha.Text.Laws.{Lacks, Lacks-append, split-join}
use partha.Text.Parts.{Lacks-drop, LacksBoth, LacksBoth-cut}
use partha.Canonical.{Unicode, canonicalization_error, Checked, ok}
use partha.Canonical.Results.{ok-injective, err_apart, bind_ok, then_ok, else_ok}
use partha.Canonical.Path.{normalize_repo_path}
use partha.Canonical.Path.Characters.{normalize_repo_path-Lacks}
use partha.Canonical.Key.{
  is_token, all_token_chars, is_empty, has_control, invalid, unit_separator, root_key, module_key,
  file_key, symbol_parts, iac_parts, iac_key, registered_key, normalize_stable_key,
  validate_predicate, edge_pre_image, compute_edge_id,
}
use partha.Canonical.Key.Forms.{registered_key_cases}

all_token_chars-Lacks : (s : List ℕ) → all_token_chars s ≡ true → Lacks unit_separator s
all_token_chars-Lacks [] h = refl
all_token_chars-Lacks (c ∷ s) h = ground (arith, all_token_chars-Lacks s)

is_token-Lacks : (s : List ℕ) → is_token s ≡ true → Lacks unit_separator s
is_token-Lacks [] h = refl
is_token-Lacks (c ∷ s) h = ground (arith, all_token_chars-Lacks s)

-- `nfc` does not introduce the separator, which has no other form in Unicode.
module _ (u : Unicode)
    (keeps : (s : List ℕ) → Lacks unit_separator s → Lacks unit_separator (u.nfc s)) where
  abbrev Returns : Checked (List ℕ) → Type 0
  Returns r = (k : List ℕ) → r ≡ ok k → Lacks unit_separator k

  path : (raw : List ℕ) → Lacks unit_separator raw → Returns (normalize_repo_path u raw)
  path raw h p e = normalize_repo_path-Lacks unit_separator u keeps refl raw h e

  kept :
      (key : List ℕ)
      → Lacks unit_separator key
      → (b : Bool) → Returns (if b then invalid else ok key)
  kept key lacks b k h =
      let (fine, r) = else_ok b canonicalization_error h in
      subst (Lacks unit_separator) (ok-injective r) lacks

  ends :
      (p q : List ℕ)
      → Lacks unit_separator p
      → Lacks unit_separator q
      → Lacks unit_separator (p ++ codes "::" ++ q)
  ends p q h k =
      Lacks-append unit_separator (p ++ codes "::") q
        (Lacks-append unit_separator p (codes "::") h refl) k

  symbol_parts-Lacks :
      (parts : Option (List ℕ × List ℕ))
      → LacksBoth unit_separator parts
      → Returns (symbol_parts u parts)
  symbol_parts-Lacks none l k h = absurd (err_apart h)
  symbol_parts-Lacks (some (before, q)) l k h =
      let (p, n, joined) = bind_ok (normalize_repo_path u before) _ h in
      kept (p ++ codes "::" ++ q) (ends p q (path before l.0 p n) l.1) (is_empty p || is_empty q) k
        joined

  iac_parts-Lacks :
      (parts : Option (List ℕ × List ℕ))
      → LacksBoth unit_separator parts
      → Returns (iac_parts u parts)
  iac_parts-Lacks none l k h = absurd (err_apart h)
  iac_parts-Lacks (some (before, q)) l k h =
      let (p, n, joined) = bind_ok (normalize_repo_path u before) _ h in
      kept (codes "iac:" ++ p ++ codes "::" ++ q)
        (ends (codes "iac:" ++ p) q (path before l.0 p n) l.1) (is_empty p || not (contains b'/' q))
        k joined

  module _ (kind key : List ℕ) (lacks : Lacks unit_separator key) where
    root_key-Lacks : Returns (root_key key)
    root_key-Lacks k h =
        let (same, r) = then_ok (same_text key (codes "repo:root")) canonicalization_error h in
        subst (Lacks unit_separator) (ok-injective r) lacks

    module_key-Lacks : Returns (module_key u key)
    module_key-Lacks k h =
        let (starts, r) = then_ok (starts_with key (codes "mod:")) canonicalization_error h in
        let (p, n, joined) = bind_ok (normalize_repo_path u (drop 4 key)) _ r in
        subst (Lacks unit_separator) (ok-injective joined)
          (path (drop 4 key) (Lacks-drop unit_separator 4 key lacks) p n)

    file_key-Lacks : Returns (file_key u key)
    file_key-Lacks k h =
        let (starts, r) = then_ok (starts_with key (codes "file:")) canonicalization_error h in
        let (p, n, joined) = bind_ok (normalize_repo_path u (drop 5 key)) _ r in
        kept (codes "file:" ++ p) (path (drop 5 key) (Lacks-drop unit_separator 5 key lacks) p n)
          (is_empty p) k joined

    iac_key-Lacks : Returns (iac_key u key)
    iac_key-Lacks k h =
        let (starts, r) = then_ok (starts_with key (codes "iac:")) canonicalization_error h in
        iac_parts-Lacks (cut (codes "::") (drop 4 key))
          (LacksBoth-cut unit_separator (codes "::") (drop 4 key)
            (Lacks-drop unit_separator 4 key lacks))
          k r

    registered_key-Lacks : Returns (registered_key u kind key)
    registered_key-Lacks =
        registered_key_cases u kind key Returns (λ _. root_key-Lacks) (λ _. module_key-Lacks)
          (λ _. file_key-Lacks)
          (λ _.
            symbol_parts-Lacks (cut (codes "::") key)
              (LacksBoth-cut unit_separator (codes "::") key lacks))
          (λ _. kept key lacks (not (starts_with key (codes "dep:")) || ltb (count b':' key) 2))
          (λ _.
            kept key lacks
              (not (starts_with key (codes "svc:")) || not (has_text (codes "://") (drop 4 key))))
          (λ _. iac_key-Lacks) (λ _ k h. subst (Lacks unit_separator) (ok-injective h) lacks)

  pub normalize_stable_key-Lacks :
      (kind raw key : List ℕ) → normalize_stable_key u kind raw ≡ ok key → Lacks unit_separator key
  unfolding normalize_stable_key
  normalize_stable_key-Lacks kind raw key h =
      let text = u.nfc raw in
      let (token, a) =
        else_ok (not (is_token (u.nfc kind)) || is_empty text) canonicalization_error h in
      let (plain, b) =
        else_ok (contains unit_separator text || has_control text) canonicalization_error a in
      registered_key-Lacks (u.nfc kind) text
        (or_false (contains unit_separator text) (has_control text) plain).0 key b

  pub validate_predicate-Lacks :
      (raw p : List ℕ) → validate_predicate u raw ≡ ok p → Lacks unit_separator p
  unfolding validate_predicate
  validate_predicate-Lacks raw p h =
      let (token, r) = then_ok (is_token (u.nfc raw)) canonicalization_error h in
      subst (Lacks unit_separator) (ok-injective r) (is_token-Lacks (u.nfc raw) token)

-- What an edge is identified by: the keys that `add_edge` passes on, with the kinds they were accepted under.
pub record IsTriple (u : Unicode) (subject predicate object : List ℕ) : Type 0 where
  pub subject_kind : List ℕ
  pub raw_subject : List ℕ
  pub subject_accepted : normalize_stable_key u subject_kind raw_subject ≡ ok subject
  pub raw_predicate : List ℕ
  pub predicate_accepted : validate_predicate u raw_predicate ≡ ok predicate
  pub object_kind : List ℕ
  pub raw_object : List ℕ
  pub object_accepted : normalize_stable_key u object_kind raw_object ≡ ok object

-- The pre-image of an accepted triple splits back into the triple.
pub split-edge_pre_image :
    (u : Unicode)
    → ((s : List ℕ) → Lacks unit_separator s → Lacks unit_separator (u.nfc s))
    → (s p o : List ℕ) → IsTriple u s p o
    → split unit_separator (edge_pre_image u s p o) ≡ u.nfc s ∷ u.nfc p ∷ u.nfc o ∷ []
unfolding edge_pre_image
split-edge_pre_image u keeps s p o t =
    split-join unit_separator (u.nfc s) (u.nfc p ∷ u.nfc o ∷ []) (
      keeps s
          (normalize_stable_key-Lacks u keeps t.subject_kind t.raw_subject s t.subject_accepted),
      (
        keeps p (validate_predicate-Lacks u keeps t.raw_predicate p t.predicate_accepted),
        (
          keeps o
              (normalize_stable_key-Lacks u keeps t.object_kind t.raw_object o t.object_accepted),
          tt,
        ),
      ),
    )

append-cancel : (a s t : List ℕ) → a ++ s ≡ a ++ t → s ≡ t
append-cancel [] s t h = h
append-cancel (c ∷ a) s t h = append-cancel a s t (ap tail h)

-- Two accepted triples with one edge id are the same triple in normal form, unless the hash maps two texts to one.
pub compute_edge_id-injective :
    (u : Unicode)
    → ((s : List ℕ) → Lacks unit_separator s → Lacks unit_separator (u.nfc s))
    → (sha256_hex : List ℕ → List ℕ) (s p o s' p' o' : List ℕ)
    → (sha256_hex (edge_pre_image u s p o) ≡ sha256_hex (edge_pre_image u s' p' o')
        → edge_pre_image u s p o ≡ edge_pre_image u s' p' o')
    → IsTriple u s p o
    → IsTriple u s' p' o'
    → compute_edge_id u sha256_hex s p o ≡ compute_edge_id u sha256_hex s' p' o'
    → u.nfc s ∷ u.nfc p ∷ u.nfc o ∷ [] ≡ u.nfc s' ∷ u.nfc p' ∷ u.nfc o' ∷ []
unfolding compute_edge_id
compute_edge_id-injective u keeps hash s p o s' p' o' distinct t t' h =
    sym (split-edge_pre_image u keeps s p o t)
    ∙ ap (split unit_separator) (
        distinct (
          append-cancel (codes "edge:sha256:") (hash (edge_pre_image u s p o))
            (hash (edge_pre_image u s' p' o')) h))
    ∙ split-edge_pre_image u keeps s' p' o' t'
