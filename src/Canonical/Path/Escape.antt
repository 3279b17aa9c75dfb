-- ===== src/Canonical/Path/Escape.antt =====
-- Which paths leave the repository: `resolve` against counts of the segments.
use partha.Prelude.{
  ℕ, zero, suc, sym, ◌≡◌, refl, Bool, true, false, List, [], ◌∷◌, ◌+◌, ◌≤◌, ◌↔◌, arith, Bool-cases,
  inl, inr, if◌then◌else◌,
}
use mathlib.Core.Bool.{true≢false}
use mathlib.Core.List.{reverse}
use partha.Prelude.Text.{codes}
use partha.Text.{starts_with, replace, split, join}
use partha.Canonical.{Unicode, Checked, ok, err, ◌>>=◌}
use partha.Canonical.Path.{
  is_drive, is_skipped, is_parent, is_ok, resolve, resolve_text, normalize_repo_path,
  is_valid_repo_path,
}

-- How many segments among the first `k` go up, and how many go down.
abbrev pub ups : ℕ → List (List ℕ) → ℕ
ups zero segments = 0
ups (suc k) [] = 0
ups (suc k) (s ∷ segments) =
    if is_skipped s
    then ups k segments
    else if is_parent s
    then suc (ups k segments)
    else ups k segments

abbrev pub downs : ℕ → List (List ℕ) → ℕ
downs zero segments = 0
downs (suc k) [] = 0
downs (suc k) (s ∷ segments) =
    if is_skipped s
    then downs k segments
    else if is_parent s
    then downs k segments
    else suc (downs k segments)

abbrev depth : List (List ℕ) → ℕ
depth [] = 0
depth (s ∷ resolved) = suc (depth resolved)

abbrev is_resolved : Checked (List (List ℕ)) → Bool
is_resolved (ok _) = true
is_resolved (err _) = false

-- No prefix goes up more often than it goes down.
abbrev pub Within : ℕ → List (List ℕ) → Type 0
Within d segments = (k : ℕ) → ups k segments ≤ d + downs k segments

resolved-Within :
    (resolved segments : List (List ℕ))
    → is_resolved (resolve resolved segments) ≡ true
    → Within (depth resolved) segments
unfolding resolve
resolved-Within resolved segments h zero = omega arith
resolved-Within resolved [] h (suc k) = omega arith
resolved-Within [] (s ∷ segments) h (suc k) = elim (Bool-cases (is_skipped s)) [
  | inl skip ↦ rw (skip) (resolved-Within [] segments (rw (skip) at h) k)
  | inr keep ↦ elim (Bool-cases (is_parent s)) [
    | inl up ↦ absurd (true≢false (sym (rw (keep, up) at h)))
    | inr down ↦
        rw (keep, down) (omega (arith, resolved-Within (s ∷ []) segments (rw (keep, down) at h) k))
  ]
]
resolved-Within (top ∷ resolved) (s ∷ segments) h (suc k) = elim (Bool-cases (is_skipped s)) [
  | inl skip ↦ rw (skip) (resolved-Within (top ∷ resolved) segments (rw (skip) at h) k)
  | inr keep ↦ elim (Bool-cases (is_parent s)) [
    | inl up ↦
        rw (keep, up) (omega (arith, resolved-Within resolved segments (rw (keep, up) at h) k))
    | inr down ↦
        rw (keep, down)
          (omega (arith, resolved-Within (s ∷ top ∷ resolved) segments (rw (keep, down) at h) k))
  ]
]

Within-resolved :
    (resolved segments : List (List ℕ))
    → Within (depth resolved) segments
    → is_resolved (resolve resolved segments) ≡ true
unfolding resolve
Within-resolved resolved [] h = refl
Within-resolved [] (s ∷ segments) h = elim (Bool-cases (is_skipped s)) [
  | inl skip ↦ rw (skip) (Within-resolved [] segments (λ k. rw (skip) at (h (suc k))))
  | inr keep ↦ elim (Bool-cases (is_parent s)) [
    | inl up ↦ absurd (omega (arith, (rw (keep, up) at (h 1))))
    | inr down ↦
        rw (keep, down)
          (Within-resolved (s ∷ []) segments (λ k. omega (arith, (rw (keep, down) at (h (suc k))))))
  ]
]
Within-resolved (top ∷ resolved) (s ∷ segments) h = elim (Bool-cases (is_skipped s)) [
  | inl skip ↦ rw (skip) (Within-resolved (top ∷ resolved) segments (λ k. rw (skip) at (h (suc k))))
  | inr keep ↦ elim (Bool-cases (is_parent s)) [
    | inl up ↦
        rw (keep, up)
          (Within-resolved resolved segments (λ k. omega (arith, (rw (keep, up) at (h (suc k))))))
    | inr down ↦
        rw (keep, down)
          (Within-resolved (s ∷ top ∷ resolved) segments
            (λ k. omega (arith, (rw (keep, down) at (h (suc k))))))
  ]
]

is_ok-joined :
    (r : Checked (List (List ℕ)))
    → is_ok (r >>= (λ (resolved : List (List ℕ)). ok (join b'/' (reverse resolved))))
      ≡ is_resolved r
is_ok-joined (ok resolved) = refl
is_ok-joined (err e) = refl

-- A path is valid exactly where it has no drive prefix, does not begin with a separator, and no prefix of its segments
-- goes up more often than it goes down.
pub is_valid_repo_path_lem :
    (u : Unicode) (raw : List ℕ)
    → let text = replace 92 b'/' (u.nfc raw) in
      is_valid_repo_path u raw ≡ true ↔ (
        is_drive u (u.nfc raw) ≡ false
        × starts_with text (codes "/") ≡ false
        × Within 0 (split b'/' text))
unfolding is_valid_repo_path normalize_repo_path resolve_text
is_valid_repo_path_lem u raw = elim (Bool-cases (is_drive u (u.nfc raw))) [
  | inl drive ↦ rw (drive) (λ h. absurd (true≢false (sym h)), λ h. absurd (true≢false h.0))
  | inr local ↦ elim (Bool-cases (starts_with (replace 92 b'/' (u.nfc raw)) (codes "/"))) [
    | inl rooted ↦
        rw (local, rooted) (λ h. absurd (true≢false (sym h)), λ h. absurd (true≢false h.1))
    | inr relative ↦
        rw (local, relative, is_ok-joined (resolve [] (split b'/' (replace 92 b'/' (u.nfc raw)))))
          (
            λ h. (refl, refl, resolved-Within [] (split b'/' (replace 92 b'/' (u.nfc raw))) h),
            λ h. Within-resolved [] (split b'/' (replace 92 b'/' (u.nfc raw))) h.2,
          )
  ]
]
