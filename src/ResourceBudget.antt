-- ===== src/ResourceBudget.antt =====
-- apps/backend/app/analysis/resource_budget.py: the budget of one analysis run. Times are microseconds.
-- The readings of the monotonic clock and of the process's resident set, which the operating system
-- gives, are arguments; the size of a source file is not negative.
pub mod Stream
pub mod Served
pub mod Calls
pub mod Charges
use partha.Prelude.{ℕ, ◌+◌, ◌-◌, Option, none, some, ltb, if◌then◌else◌}

-- The resource, the limit and what was observed.
pub data AnalysisResourceExceeded : Type 0 where
  elapsed_seconds rss_bytes source_bytes : ℕ → ℕ → AnalysisResourceExceeded

pub record AnalysisResourceBudget : Type 0 where
  pub max_source_bytes : ℕ
  pub max_rss_bytes : ℕ
  pub max_seconds : ℕ
  pub charged : ℕ
  pub peak_rss_bytes : ℕ
  pub started_at : ℕ

-- `__post_init__`: no budget where a limit is zero.
unfoldable pub new_budget : ℕ → ℕ → ℕ → ℕ → Option AnalysisResourceBudget
new_budget max_source max_rss max_time now =
    if ltb 0 max_source
    then if ltb 0 max_rss
      then if ltb 0 max_time
        then some (record {
          max_source_bytes = max_source;
          max_rss_bytes = max_rss;
          max_seconds = max_time;
          charged = 0;
          peak_rss_bytes = 0;
          started_at = now;
        })
        else none
      else none
    else none

-- What is raised, if anything, and the budget after it.
unfoldable pub check :
    ℕ → ℕ → AnalysisResourceBudget → Option AnalysisResourceExceeded × AnalysisResourceBudget
check now rss b =
    let elapsed = now - b.started_at in
    let peak = if ltb b.peak_rss_bytes rss then rss else b.peak_rss_bytes in
    if ltb b.max_seconds elapsed then (some (elapsed_seconds b.max_seconds elapsed), b) else (
      if ltb b.max_rss_bytes rss then some (rss_bytes b.max_rss_bytes rss) else none,
      record b { peak_rss_bytes = peak },
    )

unfoldable pub charge_source :
    ℕ → ℕ → ℕ → AnalysisResourceBudget → Option AnalysisResourceExceeded × AnalysisResourceBudget
unfolding check
charge_source size now rss b =
    let observed = b.charged + size in
    if ltb b.max_source_bytes observed
    then (some (source_bytes b.max_source_bytes observed), b)
    else check now rss (record b { charged = observed })
