-- ===== src/Canonical/Path.antt =====
-- `normalize_repo_path`. The list `resolved` has its last segment at the head.
pub mod Normal
pub mod Escape
pub mod Characters
use partha.Prelude.{
  ℕ, Bool, true, false, ◌&&◌, ◌||◌, Option, none, some, List, [], ◌∷◌, ◌==◌, if◌then◌else◌,
}
use mathlib.Core.List.{reverse}
use partha.Prelude.Text.{codes}
use partha.Text.{same_text, one_of, starts_with, replace, split, join}
use partha.Canonical.{Unicode, IntelligenceError, path_escape_error, Checked, ok, err, ◌>>=◌}

-- `len(text) >= 2 and text[1] == ":" and text[0].isalpha()`
abbrev pub is_drive : Unicode → List ℕ → Bool
is_drive u (a ∷ b ∷ s) = b == b':' && u.isalpha a
is_drive u _ = false

abbrev pub is_skipped : List ℕ → Bool
is_skipped segment = same_text segment [] || same_text segment (codes ".")

abbrev pub is_parent : List ℕ → Bool
is_parent segment = same_text segment (codes "..")

abbrev pop : List (List ℕ) → Checked (List (List ℕ))
pop [] = err path_escape_error
pop (top ∷ resolved) = ok resolved

-- One round of the loop.
abbrev pub resolve_segment : List (List ℕ) → List ℕ → Checked (List (List ℕ))
resolve_segment resolved segment =
    if is_skipped segment
    then ok resolved
    else if is_parent segment
    then pop resolved
    else ok (segment ∷ resolved)

unfoldable pub resolve : List (List ℕ) → List (List ℕ) → Checked (List (List ℕ))
resolve resolved [] = ok resolved
resolve resolved (segment ∷ segments) = do
  next ← resolve_segment resolved segment
  resolve next segments

unfoldable pub resolve_text : List ℕ → Checked (List ℕ)
unfolding resolve
resolve_text text =
    if starts_with text (codes "/")
    then err path_escape_error
    else do resolved ← resolve [] (split b'/' text); ok (join b'/' (reverse resolved))

unfoldable pub normalize_repo_path : Unicode → List ℕ → Checked (List ℕ)
unfolding resolve_text
normalize_repo_path u raw =
    let text = u.nfc raw in
    if is_drive u text then err path_escape_error else resolve_text (replace 92 b'/' text)

abbrev pub is_ok : Checked (List ℕ) → Bool
is_ok (ok _) = true
is_ok (err _) = false

unfoldable pub is_valid_repo_path : Unicode → List ℕ → Bool
is_valid_repo_path u raw = is_ok (normalize_repo_path u raw)
