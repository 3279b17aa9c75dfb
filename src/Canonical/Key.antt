-- ===== src/Canonical/Key.antt =====
-- `normalize_stable_key`, `validate_predicate` and `compute_edge_id`. SHA-256 of the UTF-8 bytes of a text, in
-- hexadecimal, is an argument of the last one.
pub mod Forms
pub mod Identity
use partha.Prelude.{
  ℕ, Bool, true, false, not, ◌&&◌, ◌||◌, Option, none, some, List, [], ◌∷◌, ◌++◌, ◌==◌, leb, ltb,
  if◌then◌else◌,
}
use partha.Prelude.Text.{codes}
use partha.Text.{same_text, starts_with, contains, has_text, drop, count, cut, join}
use partha.Canonical.{Unicode, IntelligenceError, canonicalization_error, Checked, ok, err, ◌>>=◌}
use partha.Canonical.Path.{normalize_repo_path}

abbrev is_token_char : ℕ → Bool
is_token_char c = leb b'a' c && leb c b'z' || leb b'0' c && leb c b'9' || c == b'_'

abbrev all_token_chars : List ℕ → Bool
all_token_chars [] = true
all_token_chars (c ∷ s) = is_token_char c && all_token_chars s

-- `^[a-z][a-z0-9_]*$`
abbrev pub is_token : List ℕ → Bool
is_token [] = false
is_token (c ∷ s) = leb b'a' c && leb c b'z' && all_token_chars s

abbrev pub unit_separator : ℕ
unit_separator = 31

abbrev pub has_control : List ℕ → Bool
has_control [] = false
has_control (c ∷ s) = ltb c 32 || has_control s

abbrev pub is_empty : List ℕ → Bool
is_empty s = same_text s []

abbrev pub invalid : Checked (List ℕ)
invalid = err canonicalization_error

abbrev pub root_key : List ℕ → Checked (List ℕ)
root_key key = if same_text key (codes "repo:root") then ok key else invalid

abbrev pub module_key : Unicode → List ℕ → Checked (List ℕ)
module_key u key =
    if starts_with key (codes "mod:")
    then normalize_repo_path u (drop 4 key) >>= (λ path. ok (codes "mod:" ++ path))
    else invalid

abbrev pub file_key : Unicode → List ℕ → Checked (List ℕ)
file_key u key =
    if starts_with key (codes "file:")
    then normalize_repo_path u (drop 5 key)
      >>= (λ path. if is_empty path then invalid else ok (codes "file:" ++ path))
    else invalid

abbrev pub symbol_parts : Unicode → Option (List ℕ × List ℕ) → Checked (List ℕ)
symbol_parts u none = invalid
symbol_parts u (some (path, qualified_name)) = normalize_repo_path u path >>= (λ normalized.
    if is_empty normalized || is_empty qualified_name
    then invalid
    else ok (normalized ++ codes "::" ++ qualified_name))

abbrev pub dependency_key : List ℕ → Checked (List ℕ)
dependency_key key =
    if not (starts_with key (codes "dep:")) || ltb (count b':' key) 2 then invalid else ok key

abbrev pub service_key : List ℕ → Checked (List ℕ)
service_key key =
    if not (starts_with key (codes "svc:")) || not (has_text (codes "://") (drop 4 key))
    then invalid
    else ok key

abbrev pub iac_parts : Unicode → Option (List ℕ × List ℕ) → Checked (List ℕ)
iac_parts u none = invalid
iac_parts u (some (path, qualified)) = normalize_repo_path u path >>= (λ normalized.
    if is_empty normalized || not (contains b'/' qualified)
    then invalid
    else ok (codes "iac:" ++ normalized ++ codes "::" ++ qualified))

abbrev pub iac_key : Unicode → List ℕ → Checked (List ℕ)
iac_key u key =
    if starts_with key (codes "iac:") then iac_parts u (cut (codes "::") (drop 4 key)) else invalid

-- The forms by kind; of an unknown kind, any key.
unfoldable pub registered_key : Unicode → List ℕ → List ℕ → Checked (List ℕ)
registered_key u kind key =
    if same_text kind (codes "repository")
    then root_key key
    else if same_text kind (codes "module")
    then module_key u key
    else if same_text kind (codes "file")
    then file_key u key
    else if same_text kind (codes "symbol")
    then symbol_parts u (cut (codes "::") key)
    else if same_text kind (codes "dependency")
    then dependency_key key
    else if same_text kind (codes "service")
    then service_key key
    else if same_text kind (codes "iac_resource")
    then iac_key u key
    else ok key

unfoldable pub normalize_stable_key : Unicode → List ℕ → List ℕ → Checked (List ℕ)
normalize_stable_key u node_kind stable_key =
    let kind = u.nfc node_kind in
    let key = u.nfc stable_key in
    if not (is_token kind) || is_empty key
    then invalid
    else if contains unit_separator key || has_control key
    then invalid
    else registered_key u kind key

unfoldable pub validate_predicate : Unicode → List ℕ → Checked (List ℕ)
validate_predicate u predicate =
    if is_token (u.nfc predicate) then ok (u.nfc predicate) else invalid

unfoldable pub edge_pre_image : Unicode → List ℕ → List ℕ → List ℕ → List ℕ
edge_pre_image u subject_key predicate object_key =
    join unit_separator (u.nfc subject_key ∷ u.nfc predicate ∷ u.nfc object_key ∷ [])

unfoldable pub compute_edge_id : Unicode → (List ℕ → List ℕ) → List ℕ → List ℕ → List ℕ → List ℕ
unfolding edge_pre_image
compute_edge_id u sha256_hex subject_key predicate object_key =
    codes "edge:"
    ++ codes "sha256:"
    ++ sha256_hex (edge_pre_image u subject_key predicate object_key)
