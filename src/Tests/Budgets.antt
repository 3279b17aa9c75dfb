-- ===== src/Tests/Budgets.antt =====
-- The stream of a run of three paths, of which one has no file any more.
use partha.Prelude.{ℕ, ◌+◌, ◌≤◌, ◌≡◌, ◌↔◌, refl, false, none, some, List, [], ◌∷◌, arith, All}
use partha.Prelude.Text.{codes}
use partha.Jobs.{seconds}
use partha.ResourceBudget.{AnalysisResourceBudget, check, charge_source, elapsed_seconds}
use partha.ResourceBudget.Stream.{
  Reading, Checkpoint, missing, regular, ManifestPath, exceeded, stream,
}
use partha.ResourceBudget.Served.{total, IsServed, present}
use partha.ResourceBudget.Charges.{stream_lem}

abbrev budget : AnalysisResourceBudget
budget = record {
  max_source_bytes = 1000;
  max_rss_bytes = 5000;
  max_seconds = seconds 30;
  charged = 0;
  peak_rss_bytes = 0;
  started_at = seconds 5;
}

abbrev at : ℕ → Reading
at s = record { now = seconds s; rss = 3000 }

abbrev checked : ℕ → Checkpoint
checked s = record {
  check_cancelled =
      some (record { interrupted = false; reading = some (at s); commit_failed = false });
  reading = at s;
}

abbrev paths : List ManifestPath
paths =
    record { path = codes "a.py"; before = checked 6; source = regular 400 (at 6) (checked 7) }
    ∷ record { path = codes "b.py"; before = checked 8; source = missing }
    ∷ record { path = codes "c.py"; before = checked 9; source = regular 600 (at 9) (checked 35) }
    ∷ []

stream_lem_example :
    let (out, (stopped, after)) = stream paths budget in
    ((stopped ≡ none) ↔ ((0 + total paths ≤ 1000) × All (IsServed budget) paths))
    × (stopped ≡ none → (out ≡ present paths) × (after.charged ≡ 0 + total paths))
stream_lem_example = stream_lem paths budget (ground arith)

all_read : (stream paths budget).0 ≡ codes "a.py" ∷ codes "c.py" ∷ []
unfolding stream check charge_source
all_read = refl

-- One path more, at which the time is over.
too_late :
    (stream (record { path = codes "d.py"; before = checked 36; source = missing } ∷ []) budget).1.0
    ≡ some (exceeded (elapsed_seconds (seconds 30) (seconds 31)))
unfolding stream check
too_late = refl
