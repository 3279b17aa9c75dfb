-- ===== src/Canonical/Path/Characters.antt =====
-- A character that the text lacks, the normalised path lacks.
use partha.Prelude.{ℕ, ◌≡◌, false, List, [], ◌∷◌, ◌==◌, All, Bool-cases, inl, inr}
use mathlib.Core.List.{reverse, reverse_aux}
use mathlib.Core.Path.{subst}
use partha.Prelude.Text.{codes}
use partha.Text.{starts_with, replace, split}
use partha.Text.Laws.{Lacks, split-Lacks_other, Lacks-join}
use partha.Text.Parts.{Lacks-replace}
use partha.Canonical.{Unicode, path_escape_error, ok}
use partha.Canonical.Results.{ok-injective, err_apart, bind_ok, else_ok}
use partha.Canonical.Path.{
  is_drive, is_skipped, is_parent, resolve, resolve_text, normalize_repo_path,
}

module _ (c : ℕ) where
  resolve-Lacks :
      (resolved segments : List (List ℕ)) {result : List (List ℕ)}
      → All (Lacks c) resolved
      → All (Lacks c) segments
      → resolve resolved segments ≡ ok result
      → All (Lacks c) result
  unfolding resolve
  resolve-Lacks resolved [] h k e = subst (All (Lacks c)) (ok-injective e) h
  resolve-Lacks [] (s ∷ segments) h k e = elim (Bool-cases (is_skipped s)) [
    | inl skip ↦ resolve-Lacks [] segments h k.1 (rw (skip) at e)
    | inr keep ↦ elim (Bool-cases (is_parent s)) [
      | inl up ↦ absurd (err_apart (rw (keep, up) at e))
      | inr down ↦ resolve-Lacks (s ∷ []) segments (k.0, h) k.1 (rw (keep, down) at e)
    ]
  ]
  resolve-Lacks (top ∷ resolved) (s ∷ segments) h k e = elim (Bool-cases (is_skipped s)) [
    | inl skip ↦ resolve-Lacks (top ∷ resolved) segments h k.1 (rw (skip) at e)
    | inr keep ↦ elim (Bool-cases (is_parent s)) [
      | inl up ↦ resolve-Lacks resolved segments h.1 k.1 (rw (keep, up) at e)
      | inr down ↦ resolve-Lacks (s ∷ top ∷ resolved) segments (k.0, h) k.1 (rw (keep, down) at e)
    ]
  ]

  All-reverse :
      (l r : List (List ℕ)) → All (Lacks c) l → All (Lacks c) r → All (Lacks c) (reverse_aux l r)
  All-reverse [] r h k = k
  All-reverse (a ∷ l) r h k = All-reverse l (a ∷ r) h.1 (h.0, k)

  pub normalize_repo_path-Lacks :
      (u : Unicode)
      → ((s : List ℕ) → Lacks c s → Lacks c (u.nfc s))
      → b'/' == c ≡ false
      → (raw : List ℕ) {p : List ℕ} → Lacks c raw
      → normalize_repo_path u raw ≡ ok p
      → Lacks c p
  unfolding normalize_repo_path resolve_text
  normalize_repo_path-Lacks u keeps slash raw h e =
      let text = replace 92 b'/' (u.nfc raw) in
      let fine : Lacks c text = Lacks-replace c 92 b'/' (u.nfc raw) slash (keeps raw h) in
      let (local, e1) = else_ok (is_drive u (u.nfc raw)) path_escape_error e in
      let (relative, e2) = else_ok (starts_with text (codes "/")) path_escape_error e1 in
      let (resolved, r, joined) = bind_ok (resolve [] (split b'/' text)) _ e2 in
      subst (Lacks c) (ok-injective joined) (
        Lacks-join c b'/' (reverse resolved) slash (
          All-reverse resolved []
            (resolve-Lacks [] (split b'/' text) tt (split-Lacks_other c b'/' text fine) r) tt))
