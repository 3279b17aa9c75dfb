-- ===== src/ResourceBudget/Stream.antt =====
-- apps/backend/app/analysis/source_stream.py: the loop of `RepositorySourceStream.__iter__` over the
-- paths of the manifest, and analysis_worker.py: the budget's part of `_check_heartbeat`, which the
-- worker passes as `check_cancelled`. What the operating system answers for each path, and the readings
-- of each call of `check`, are arguments; the bytes that are read are not modelled.
use partha.Prelude.{ℕ, Bool, Option, none, some, List, [], ◌∷◌, if◌then◌else◌}
use partha.ResourceBudget.{AnalysisResourceExceeded, AnalysisResourceBudget, check, charge_source}

-- The clock and the resident set at a call of `check`.
pub record Reading : Type 0 where
  pub now : ℕ
  pub rss : ℕ

-- What ends the iteration: the callback's own exception, an unsafe path, or the budget.
pub data Raised : Type 0 where
  cancelled : Raised
  unsafe_source_path : Raised
  exceeded : AnalysisResourceExceeded → Raised

-- What a call finds: the lease is lost, the run is cancelled or the heartbeat has failed; the reading
-- where there is a budget; and whether the commit of the open transaction raises.
pub record Heartbeat : Type 0 where
  pub interrupted : Bool
  pub reading : Option Reading
  pub commit_failed : Bool

pub record Checkpoint : Type 0 where
  pub check_cancelled : Option Heartbeat
  pub reading : Reading

-- No file; a symlink, a path that cannot be opened or no regular file; or a file of a size, with the
-- reading of its charge and the checkpoint after it is read.
pub data Source : Type 0 where
  missing : Source
  unsafe : Source
  regular : ℕ → Reading → Checkpoint → Source

pub record ManifestPath : Type 0 where
  pub path : List ℕ
  pub before : Checkpoint
  pub source : Source

-- A call that may raise, on the budget that it finds.
abbrev pub Call : Type 0
Call = AnalysisResourceBudget → Option Raised × AnalysisResourceBudget

abbrev pub follow :
    Option Raised × AnalysisResourceBudget → Call → Option Raised × AnalysisResourceBudget
follow (some e, b) call = (some e, b)
follow (none, b) call = call b

-- One call after the other, up to the first that raises.
abbrev pub seq : Call → Call → Call
seq first second b = follow (first b) second

abbrev pub nothing : Call
nothing b = (none, b)

abbrev pub raise_if : Bool → Raised → Call
raise_if c e b = if c then (some e, b) else (none, b)

-- The call of a method of the budget.
abbrev pub report :
    Option AnalysisResourceExceeded × AnalysisResourceBudget
    → Option Raised × AnalysisResourceBudget
report (none, after) = (none, after)
report (some e, after) = (some (exceeded e), after)

abbrev pub check_at : Reading → Call
check_at r b = report (check r.now r.rss b)

abbrev pub charge_at : ℕ → Reading → Call
charge_at size r b = report (charge_source size r.now r.rss b)

abbrev pub check_reading : Option Reading → Call
check_reading none = nothing
check_reading (some r) = check_at r

-- `_check_heartbeat`, or no callback.
abbrev pub check_heartbeat : Option Heartbeat → Call
check_heartbeat none = nothing
check_heartbeat (some h) =
    seq (raise_if h.interrupted cancelled)
      (seq (check_reading h.reading) (raise_if h.commit_failed cancelled))

-- `_checkpoint`
abbrev pub checkpoint : Checkpoint → Call
checkpoint c = seq (check_heartbeat c.check_cancelled) (check_at c.reading)

abbrev pub open_source : Source → Call
open_source missing = nothing
open_source unsafe = λ b. (some unsafe_source_path, b)
open_source (regular size r after) = seq (charge_at size r) (checkpoint after)

-- The body of the loop.
abbrev pub stream_path : ManifestPath → Call
stream_path m = seq (checkpoint m.before) (open_source m.source)

abbrev pub yielded : ManifestPath → List (List ℕ) → List (List ℕ)
yielded m rest = elim m.source [ missing ↦ rest | unsafe ↦ rest | regular size r c ↦ m.path ∷ rest ]

-- The paths that are yielded and how the iteration ends, after the body for a path and with the rest of
-- the iteration.
abbrev pub continue :
    ManifestPath
    → Option Raised × AnalysisResourceBudget
    → (AnalysisResourceBudget → List (List ℕ) × (Option Raised × AnalysisResourceBudget))
    → List (List ℕ) × (Option Raised × AnalysisResourceBudget)
continue m (some e, after) rest = ([], (some e, after))
continue m (none, after) rest = let (others, end) = rest after in (yielded m others, end)

unfoldable pub stream :
    List ManifestPath
    → AnalysisResourceBudget
    → List (List ℕ) × (Option Raised × AnalysisResourceBudget)
stream [] b = ([], (none, b))
stream (m ∷ paths) b = continue m (stream_path m b) (stream paths)
