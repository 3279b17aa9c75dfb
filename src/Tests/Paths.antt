-- ===== src/Tests/Paths.antt =====
-- The theorems on paths and keys at texts of ASCII, which `nfc` leaves as they are.
use partha.Prelude.{ℕ, ◌≡◌, refl, Bool, true, false, ◌&&◌, ◌||◌, List, [], ◌∷◌, leb, ◌↔◌}
use partha.Prelude.Text.{codes}
use partha.Text.{starts_with, replace, split, join, cut}
use partha.Canonical.{canonicalization_error, Unicode, path_escape_error, ok, err}
use partha.Canonical.Json.{
  Json, null, integer, string, array, object, item, no_item, member, no_member, normalize,
  normalize_content,
}
use partha.Canonical.Json.Stable.{normalize_content-normalize_content}
use partha.Canonical.Path.{is_drive, normalize_repo_path, is_valid_repo_path, resolve, resolve_text}
use partha.Canonical.Path.Normal.{
  IsNormal, normalize_repo_path-IsNormal, normalize_repo_path-normalize_repo_path,
}
use partha.Canonical.Path.Escape.{Within, is_valid_repo_path_lem}
use partha.Canonical.Key.{
  normalize_stable_key, validate_predicate, registered_key, edge_pre_image, unit_separator,
}
use partha.Canonical.Key.Forms.{HasForm, normalize_stable_key-HasForm}
use partha.Canonical.Key.Identity.{IsTriple, split-edge_pre_image, compute_edge_id-injective}

abbrev same : List ℕ → List ℕ
same s = s

abbrev letter : ℕ → Bool
letter c = leb 65 c && leb c 90 || leb 97 c && leb c 122

abbrev pub ascii : Unicode
ascii = record { nfc = same; isalpha = letter }

climbing : normalize_repo_path ascii (codes "src//./a/../b.py") ≡ ok (codes "src/b.py")
unfolding normalize_repo_path resolve_text resolve split join
climbing = refl

escaping : is_valid_repo_path ascii (codes "src/../../b.py") ≡ false
unfolding is_valid_repo_path normalize_repo_path resolve_text resolve split join
escaping = refl

hidden_drive : normalize_repo_path ascii (codes "./C:/x") ≡ ok (codes "C:/x")
unfolding normalize_repo_path resolve_text resolve split join
hidden_drive = refl

normalize_repo_path-IsNormal_example : IsNormal (codes "src/b.py")
normalize_repo_path-IsNormal_example =
    normalize_repo_path-IsNormal ascii (codes "src//./a/../b.py") (codes "src/b.py") climbing

-- A path that was accepted and that is rejected when it is normalised again.
normalize_repo_path-normalize_repo_path_example :
    normalize_repo_path ascii (codes "C:/x") ≡ err path_escape_error
normalize_repo_path-normalize_repo_path_example =
    normalize_repo_path-normalize_repo_path ascii (codes "./C:/x") (codes "C:/x") hidden_drive refl

is_valid_repo_path_lem_example : is_valid_repo_path ascii (codes "a/../b") ≡ true ↔ (
    is_drive ascii (codes "a/../b") ≡ false
    × starts_with (replace 92 b'/' (codes "a/../b")) (codes "/") ≡ false
    × Within 0 (split b'/' (replace 92 b'/' (codes "a/../b"))))
is_valid_repo_path_lem_example = is_valid_repo_path_lem ascii (codes "a/../b")

file_accepted :
    normalize_stable_key ascii (codes "file") (codes "file:src/./b.py") ≡ ok (codes "file:src/b.py")
unfolding normalize_stable_key registered_key normalize_repo_path resolve_text resolve split join
file_accepted = refl

normalize_stable_key-HasForm_example : HasForm (codes "file") (codes "file:src/b.py")
normalize_stable_key-HasForm_example =
    normalize_stable_key-HasForm ascii (codes "file") (codes "file:src/./b.py")
      (codes "file:src/b.py") file_accepted

-- Keys with empty parts are accepted.
empty_dependency :
    normalize_stable_key ascii (codes "dependency") (codes "dep::") ≡ ok (codes "dep::")
unfolding normalize_stable_key registered_key
empty_dependency = refl

empty_service :
    normalize_stable_key ascii (codes "service") (codes "svc:://") ≡ ok (codes "svc:://")
unfolding normalize_stable_key registered_key
empty_service = refl

empty_resource :
    normalize_stable_key ascii (codes "iac_resource") (codes "iac:a.yml::/")
    ≡ ok (codes "iac:a.yml::/")
unfolding normalize_stable_key registered_key normalize_repo_path resolve_text resolve split join
    cut
empty_resource = refl

root_accepted :
    normalize_stable_key ascii (codes "repository") (codes "repo:root") ≡ ok (codes "repo:root")
unfolding normalize_stable_key registered_key
root_accepted = refl

predicate_accepted : validate_predicate ascii (codes "contains") ≡ ok (codes "contains")
unfolding validate_predicate
predicate_accepted = refl

contains_file : IsTriple ascii (codes "repo:root") (codes "contains") (codes "file:src/b.py")
contains_file = record {
  subject_kind = codes "repository";
  raw_subject = codes "repo:root";
  subject_accepted = root_accepted;
  raw_predicate = codes "contains";
  predicate_accepted = predicate_accepted;
  object_kind = codes "file";
  raw_object = codes "file:src/./b.py";
  object_accepted = file_accepted;
}

file_accepted_again :
    normalize_stable_key ascii (codes "file") (codes "file:src//b.py") ≡ ok (codes "file:src/b.py")
unfolding normalize_stable_key registered_key normalize_repo_path resolve_text resolve split join
file_accepted_again = refl

contains_file_again : IsTriple ascii (codes "repo:root") (codes "contains") (codes "file:src/b.py")
contains_file_again = record {
  subject_kind = codes "repository";
  raw_subject = codes "repo:root";
  subject_accepted = root_accepted;
  raw_predicate = codes "contains";
  predicate_accepted = predicate_accepted;
  object_kind = codes "file";
  raw_object = codes "file:src//b.py";
  object_accepted = file_accepted_again;
}

split-edge_pre_image_example :
    split unit_separator
      (edge_pre_image ascii (codes "repo:root") (codes "contains") (codes "file:src/b.py"))
    ≡ codes "repo:root" ∷ codes "contains" ∷ codes "file:src/b.py" ∷ []
split-edge_pre_image_example =
    split-edge_pre_image ascii (λ s h. h) (codes "repo:root") (codes "contains")
      (codes "file:src/b.py") contains_file

compute_edge_id-injective_example :
    codes "repo:root" ∷ codes "contains" ∷ codes "file:src/b.py" ∷ []
    ≡ codes "repo:root" ∷ codes "contains" ∷ codes "file:src/b.py" ∷ []
compute_edge_id-injective_example =
    compute_edge_id-injective ascii (λ s h. h) same (codes "repo:root") (codes "contains")
      (codes "file:src/b.py") (codes "repo:root") (codes "contains") (codes "file:src/b.py")
      (λ h. h) contains_file contains_file_again refl

-- A mapping that holds a list, and a mapping with one key twice.
abbrev list_at_one : Json
list_at_one = object (
    member (codes "a") (array (item (integer true 7) (item (string (codes "x")) no_item)))
      no_member)

normal_list : normalize_content ascii list_at_one ≡ ok list_at_one
unfolding normalize_content normalize
normal_list = refl

twice :
    normalize_content ascii (object (member (codes "a") null (member (codes "a") null no_member)))
    ≡ err canonicalization_error
unfolding normalize_content normalize
twice = refl

normalize_content-normalize_content_example : normalize_content ascii list_at_one ≡ ok list_at_one
normalize_content-normalize_content_example =
    normalize_content-normalize_content ascii (λ s. refl) list_at_one list_at_one normal_list
