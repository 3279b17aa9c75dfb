-- ===== src/Canonical/Path/Normal.antt =====
-- What `normalize_repo_path` accepts it brings into a normal form, and it leaves a normal form as it is.
use partha.Prelude.{
  ℕ, ◌≡◌, refl, sym, false, List, [], ◌∷◌, ◌++◌, if◌then◌else◌, arith, All, Bool-cases, inl, inr,
}
use mathlib.Core.Bool.{true≢false}
use mathlib.Core.List.{reverse, reverse_aux, reverse-reverse, append-nil}
use mathlib.Core.Path.{subst}
use partha.Prelude.Text.{codes}
use partha.Text.{starts_with, replace, split, join}
use partha.Text.Laws.{
  Lacks, split-join, split-Lacks, split-Lacks_other, replace-Lacks, replace_lacking, Lacks-join,
}
use partha.Canonical.{Unicode, path_escape_error, ok, err}
use partha.Canonical.Results.{ok-injective, err_apart, bind_ok, else_ok}
use partha.Canonical.Path.{
  is_drive, is_skipped, is_parent, resolve, resolve_text, normalize_repo_path,
}

-- A segment of a normal path: not empty, neither "." nor "..", with no separator of either kind.
pub record IsSegment (s : List ℕ) : Type 0 where
  pub kept : is_skipped s ≡ false
  pub down : is_parent s ≡ false
  pub one : Lacks b'/' s
  pub no_backslash : Lacks 92 s

-- A normal path is a join of such segments; the root is the join of none.
pub record IsNormal (p : List ℕ) : Type 0 where
  pub segments : List (List ℕ)
  pub joined : p ≡ join b'/' segments
  pub fine : All IsSegment segments

resolve-IsSegment :
    (resolved segments result : List (List ℕ))
    → All IsSegment resolved
    → All (Lacks b'/') segments
    → All (Lacks 92) segments
    → resolve resolved segments ≡ ok result
    → All IsSegment result
unfolding resolve
resolve-IsSegment resolved [] result h one back e = subst (All IsSegment) (ok-injective e) h
resolve-IsSegment [] (s ∷ segments) result h one back e = elim (Bool-cases (is_skipped s)) [
  | inl skip ↦ resolve-IsSegment [] segments result h one.1 back.1 (rw (skip) at e)
  | inr keep ↦ elim (Bool-cases (is_parent s)) [
    | inl up ↦ absurd (err_apart (rw (keep, up) at e))
    | inr down ↦
        resolve-IsSegment (s ∷ []) segments result
          (record { kept = keep; down = down; one = one.0; no_backslash = back.0 }, h) one.1 back.1
          (rw (keep, down) at e)
  ]
]
resolve-IsSegment (top ∷ resolved) (s ∷ segments) result h one back e =
    elim (Bool-cases (is_skipped s)) [
      | inl skip ↦
          resolve-IsSegment (top ∷ resolved) segments result h one.1 back.1 (rw (skip) at e)
      | inr keep ↦ elim (Bool-cases (is_parent s)) [
        | inl up ↦ resolve-IsSegment resolved segments result h.1 one.1 back.1 (rw (keep, up) at e)
        | inr down ↦
            resolve-IsSegment (s ∷ top ∷ resolved) segments result
              (record { kept = keep; down = down; one = one.0; no_backslash = back.0 }, h) one.1
              back.1 (rw (keep, down) at e)
      ]
    ]

All-reverse_aux :
    (l r : List (List ℕ)) → All IsSegment l → All IsSegment r → All IsSegment (reverse_aux l r)
All-reverse_aux [] r h k = k
All-reverse_aux (a ∷ l) r h k = All-reverse_aux l (a ∷ r) h.1 (h.0, k)

pub ok-IsNormal :
    (result : List (List ℕ)) → All IsSegment result → IsNormal (join b'/' (reverse result))
ok-IsNormal result h = record {
  segments = reverse result;
  joined = refl;
  fine = All-reverse_aux result [] h tt;
}

resolve_text-IsNormal : (text p : List ℕ) → Lacks 92 text → resolve_text text ≡ ok p → IsNormal p
unfolding resolve_text
resolve_text-IsNormal text p back h =
    let (relative, e) = else_ok (starts_with text (codes "/")) path_escape_error h in
    let (resolved, r, joined) = bind_ok (resolve [] (split b'/' text)) _ e in
    subst IsNormal (ok-injective joined) (
      ok-IsNormal resolved (
        resolve-IsSegment [] (split b'/' text) resolved tt (split-Lacks b'/' text)
          (split-Lacks_other 92 b'/' text back) r))

-- An accepted path is in normal form: its segments are not empty, and none is ".", ".." or has a separator.
pub normalize_repo_path-IsNormal :
    (u : Unicode) (raw p : List ℕ) → normalize_repo_path u raw ≡ ok p → IsNormal p
unfolding normalize_repo_path
normalize_repo_path-IsNormal u raw p h =
    let (local, e) = else_ok (is_drive u (u.nfc raw)) path_escape_error h in
    resolve_text-IsNormal (replace 92 b'/' (u.nfc raw)) p (replace-Lacks 92 b'/' (u.nfc raw) refl) e

-- `resolve` pushes the segments of a normal path.
resolve-append :
    (segments resolved : List (List ℕ))
    → All IsSegment segments
    → resolve resolved segments ≡ ok (reverse_aux segments resolved)
unfolding resolve
resolve-append [] resolved h = refl
resolve-append (s ∷ segments) resolved h =
    rw (h.0.kept, h.0.down) (resolve-append segments (s ∷ resolved) h.1)

starts-append : (s t : List ℕ) → IsSegment s → starts_with (s ++ t) (codes "/") ≡ false
starts-append [] t h = absurd (true≢false h.kept)
starts-append (a ∷ s) t h = ground (arith, h.one)

starts-join :
    (segments : List (List ℕ))
    → All IsSegment segments
    → starts_with (join b'/' segments) (codes "/") ≡ false
unfolding join
starts-join [] h = refl
starts-join (s ∷ []) h =
    subst (λ (t : List ℕ). starts_with t (codes "/") ≡ false) (append-nil s)
      (starts-append s [] h.0)
starts-join (s ∷ t ∷ segments) h = starts-append s (b'/' ∷ join b'/' (t ∷ segments)) h.0

back-join : (segments : List (List ℕ)) → All IsSegment segments → All (Lacks 92) segments
back-join [] h = tt
back-join (s ∷ segments) h = (h.0.no_backslash, back-join segments h.1)

one-join : (segments : List (List ℕ)) → All IsSegment segments → All (Lacks b'/') segments
one-join [] h = tt
one-join (s ∷ segments) h = (h.0.one, one-join segments h.1)

resolve_text-join :
    (segments : List (List ℕ))
    → All IsSegment segments
    → resolve_text (join b'/' segments) ≡ ok (join b'/' segments)
unfolding resolve_text join split
resolve_text-join [] h = refl
resolve_text-join (s ∷ segments) h =
    rw
      (
        starts-join (s ∷ segments) h,
        split-join b'/' s segments (one-join (s ∷ segments) h),
        resolve-append (s ∷ segments) [] h,
        reverse-reverse (s ∷ segments),
      )
      refl

-- A normal path that normalises to itself in Unicode is left as it is, unless it looks like a path on a Windows drive.
pub normalize-IsNormal :
    (u : Unicode) (p : List ℕ)
    → IsNormal p
    → u.nfc p ≡ p
    → normalize_repo_path u p ≡ (if is_drive u p then err path_escape_error else ok p)
unfolding normalize_repo_path
normalize-IsNormal u p h n =
    let segments = h.segments in
    let fine : All IsSegment segments = h.fine in
    let back : Lacks 92 p =
      subst (Lacks 92) (sym h.joined)
        (Lacks-join 92 b'/' segments refl (back-join segments fine)) in
    let plain : resolve_text p ≡ ok p =
      subst (λ (q : List ℕ). resolve_text q ≡ ok q) (sym h.joined)
        (resolve_text-join segments fine) in
    rw (n, replace_lacking 92 b'/' p back, plain) refl

-- Normalising what was accepted changes nothing more, but a result that looks like a path on a Windows drive, as that
-- of "./C:/x", is rejected in the second round. The result is one that `nfc` leaves as it is.
pub normalize_repo_path-normalize_repo_path :
    (u : Unicode) (raw p : List ℕ)
    → normalize_repo_path u raw ≡ ok p
    → u.nfc p ≡ p
    → normalize_repo_path u p ≡ (if is_drive u p then err path_escape_error else ok p)
normalize_repo_path-normalize_repo_path u raw p h n =
    normalize-IsNormal u p (normalize_repo_path-IsNormal u raw p h) n
