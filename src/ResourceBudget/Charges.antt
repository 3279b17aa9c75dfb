-- ===== src/ResourceBudget/Charges.antt =====
-- What a run's budget lets through.
use mathlib.Core.Path.{subst}
use partha.Prelude.{ap, ℕ, ◌+◌, ◌≤◌, ◌≡◌, ◌↔◌, refl, Option, none, some, List, [], ◌∷◌, All}
use partha.ResourceBudget.{AnalysisResourceBudget}
use partha.ResourceBudget.Stream.{
  Raised, ManifestPath, follow, stream_path, yielded, continue, stream,
}
use partha.ResourceBudget.Served.{IsServed, size_of, total, present}
use partha.ResourceBudget.Calls.{
  some_is_not, SameLimits, Passes, Needs, seq-Needs, nothing-Needs, stream_path-Needs,
}

module _ (l : AnalysisResourceBudget) where
  continue-follow :
      (m : ManifestPath) (r : Option Raised × AnalysisResourceBudget)
      (rest : AnalysisResourceBudget → List (List ℕ) × (Option Raised × AnalysisResourceBudget))
      → follow r (λ after. (rest after).1) ≡ (continue m r rest).1
  continue-follow m (some e, after) rest = refl
  continue-follow m (none, after) rest = refl

  stream-Needs :
      (paths : List ManifestPath)
      → Needs l (All (IsServed l) paths) (total paths) (λ b. (stream paths b).1)
  unfolding stream
  stream-Needs [] b limits fits = nothing-Needs l b limits fits
  stream-Needs (m ∷ paths) b limits fits =
      subst (λ r. Passes l (All (IsServed l) (m ∷ paths)) (total (m ∷ paths)) r b)
        (continue-follow m (stream_path m b) (stream paths))
        (seq-Needs l (IsServed l m) (All (IsServed l) paths) (size_of m.source) (total paths)
          (stream_path m) (λ after. (stream paths after).1) (stream_path-Needs l m)
          (stream-Needs paths) b limits fits)

continue-yielded :
    (m : ManifestPath) (r : Option Raised × AnalysisResourceBudget)
    (rest : AnalysisResourceBudget → List (List ℕ) × (Option Raised × AnalysisResourceBudget))
    (others : List (List ℕ))
    → ((b : AnalysisResourceBudget) → (rest b).1.0 ≡ none → (rest b).0 ≡ others)
    → (continue m r rest).1.0 ≡ none
    → (continue m r rest).0 ≡ yielded m others
continue-yielded m (some e, after) rest others h e' = absurd (some_is_not e')
continue-yielded m (none, after) rest others h e = ap (yielded m) (h after e)

stream-present :
    (paths : List ManifestPath) (b : AnalysisResourceBudget)
    → (stream paths b).1.0 ≡ none
    → (stream paths b).0 ≡ present paths
unfolding stream
stream-present [] b h = refl
stream-present (m ∷ paths) b h =
    continue-yielded m (stream_path m b) (stream paths) (present paths) (stream-present paths) h

-- On a budget with what was charged before within its limit, the stream ends with nothing raised exactly
-- where all the files that are there fit together what is left of the budget, no callback raises, no path
-- is unsafe, and every reading, of the callbacks, of the checkpoints before and after each file and of its
-- charge, is within the limits. It has then yielded the paths of the files that are there, in the order of the
-- manifest, and charged their sizes.
pub stream_lem :
    (paths : List ManifestPath) (b : AnalysisResourceBudget)
    → b.charged ≤ b.max_source_bytes
    → let (out, (stopped, after)) = stream paths b in
      ((stopped ≡ none) ↔ ((b.charged + total paths ≤ b.max_source_bytes) × All (IsServed b) paths))
      × (stopped ≡ none → (out ≡ present paths) × (after.charged ≡ b.charged + total paths))
stream_lem paths b fits =
    let limits : SameLimits b b = record {
      source_limit = refl;
      rss_limit = refl;
      time_limit = refl;
      start = refl;
    } in
    let (iff, effect) = stream-Needs b paths b limits fits in
    (iff, λ e. (stream-present paths b e, (effect e).1))
