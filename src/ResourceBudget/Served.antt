-- ===== src/ResourceBudget/Served.antt =====
-- What a run's budget lets through, described path by path.
use partha.Prelude.{ℕ, ◌+◌, ◌-◌, ◌≤◌, ◌≡◌, false, Option, none, some, List, [], ◌∷◌}
use partha.ResourceBudget.{AnalysisResourceBudget}
use partha.ResourceBudget.Stream.{
  Reading, Heartbeat, Checkpoint, Source, missing, unsafe, regular, ManifestPath, yielded,
}

-- The readings are within the limits.
abbrev pub Within : AnalysisResourceBudget → Reading → Type 0
Within b r = (r.now - b.started_at ≤ b.max_seconds) × (r.rss ≤ b.max_rss_bytes)

abbrev pub Affords : AnalysisResourceBudget → Option Reading → Type 0
Affords b none = Unit
Affords b (some r) = Within b r

-- The callback raises nothing of its own, and its reading is within the limits.
abbrev pub IsCalm : AnalysisResourceBudget → Option Heartbeat → Type 0
IsCalm b none = Unit
IsCalm b (some h) = (h.interrupted ≡ false) × (Affords b h.reading × (h.commit_failed ≡ false))

abbrev pub Clears : AnalysisResourceBudget → Checkpoint → Type 0
Clears b c = IsCalm b c.check_cancelled × Within b c.reading

abbrev pub IsReadable : AnalysisResourceBudget → Source → Type 0
IsReadable b missing = Unit
IsReadable b unsafe = ⊥
IsReadable b (regular size r after) = Within b r × Clears b after

-- A path of the manifest, but for its size.
abbrev pub IsServed : AnalysisResourceBudget → ManifestPath → Type 0
IsServed b m = Clears b m.before × IsReadable b m.source

abbrev pub size_of : Source → ℕ
size_of missing = 0
size_of unsafe = 0
size_of (regular size r after) = size

abbrev pub total : List ManifestPath → ℕ
total [] = 0
total (m ∷ paths) = size_of m.source + total paths

-- The paths that have a file.
abbrev pub present : List ManifestPath → List (List ℕ)
present [] = []
present (m ∷ paths) = yielded m (present paths)
