-- ===== src/ResourceBudget/Calls.antt =====
-- What each call of the stream needs of the budget.
use mathlib.Core.Path.{subst}
use partha.Prelude.{
  ℕ, ◌+◌, ◌≤◌, ◌≡◌, ◌↔◌, refl, sym, ◌∙◌, false, Bool, true, Option, none, some, arith,
}
use partha.ResourceBudget.{AnalysisResourceExceeded, AnalysisResourceBudget, check, charge_source}
use partha.ResourceBudget.Stream.{
  cancelled, Reading, Raised, Heartbeat, Checkpoint, Source, missing, unsafe, regular, ManifestPath,
  Call, follow, seq, report, nothing, raise_if, check_at, charge_at, check_reading, check_heartbeat,
  checkpoint, open_source, stream_path,
}
use partha.ResourceBudget.Served.{Within, Affords, IsCalm, Clears, IsReadable, IsServed, size_of}

-- The limits and the start of one budget are those of another.
pub record SameLimits (l b : AnalysisResourceBudget) : Type 0 where
  pub source_limit : b.max_source_bytes ≡ l.max_source_bytes
  pub rss_limit : b.max_rss_bytes ≡ l.max_rss_bytes
  pub time_limit : b.max_seconds ≡ l.max_seconds
  pub start : b.started_at ≡ l.started_at

pub some_is_not : {e : Raised} → some e ≡ none → ⊥
some_is_not h = cc

no_error : {e : AnalysisResourceExceeded} → some e ≡ none → ⊥
no_error h = cc

check_iff :
    (r : Reading) (b : AnalysisResourceBudget)
    → b.charged ≤ b.max_source_bytes
    → ((check r.now r.rss b).0 ≡ none) ↔ ((b.charged + 0 ≤ b.max_source_bytes) × Within b r)
unfolding check
check_iff r b fits = ground arith

check-SameLimits :
    (r : Reading) (b : AnalysisResourceBudget)
    → (check r.now r.rss b).0 ≡ none
    → SameLimits b (check r.now r.rss b).1 × ((check r.now r.rss b).1.charged ≡ b.charged + 0)
unfolding check
check-SameLimits r b h = ground arith

charge_source_iff :
    (size : ℕ) (r : Reading) (b : AnalysisResourceBudget)
    → ((charge_source size r.now r.rss b).0 ≡ none)
      ↔ ((b.charged + size ≤ b.max_source_bytes) × Within b r)
unfolding charge_source check
charge_source_iff size r b = ground arith

charge_source-SameLimits :
    (size : ℕ) (r : Reading) (b : AnalysisResourceBudget)
    → (charge_source size r.now r.rss b).0 ≡ none
    → SameLimits b (charge_source size r.now r.rss b).1
      × ((charge_source size r.now r.rss b).1.charged ≡ b.charged + size)
unfolding charge_source check
charge_source-SameLimits size r b h = ground arith

module _ (l : AnalysisResourceBudget) where
  SameLimits-trans :
      (b after : AnalysisResourceBudget) → SameLimits l b → SameLimits b after → SameLimits l after
  SameLimits-trans b after p q = record {
    source_limit = q.source_limit ∙ p.source_limit;
    rss_limit = q.rss_limit ∙ p.rss_limit;
    time_limit = q.time_limit ∙ p.time_limit;
    start = q.start ∙ p.start;
  }

  -- On a budget of these limits, a call raises nothing exactly where it finds room for so much, and a
  -- condition holds; and then it has charged so much.
  abbrev pub Passes :
      Type 0 → ℕ → (Option Raised × AnalysisResourceBudget) → AnalysisResourceBudget → Type 0
  Passes P n r b =
      ((r.0 ≡ none) ↔ ((b.charged + n ≤ l.max_source_bytes) × P))
      × (r.0 ≡ none → SameLimits l r.1 × (r.1.charged ≡ b.charged + n))

  abbrev pub Needs : Type 0 → ℕ → Call → Type 0
  Needs P n call =
      (b : AnalysisResourceBudget)
      → SameLimits l b
      → b.charged ≤ l.max_source_bytes
      → Passes P n (call b) b

  follow-Passes :
      (P Q : Type 0) (n m : ℕ) (r : Option Raised × AnalysisResourceBudget) (second : Call)
      (b : AnalysisResourceBudget)
      → Passes P n r b
      → Needs Q m second
      → Passes (P × Q) (n + m) (follow r second) b
  follow-Passes P Q n m (some e, after) second b h k =
      (((λ p. cc), λ all. absurd (some_is_not ((h.0).1 (ground (arith, all.0), all.1.0)))), λ p. cc)
  follow-Passes P Q n m (none, after) second b h k =
      let (limits, charged) = h.1 refl in
      let (room, p) = (h.0).0 refl in
      let (iff, effect) = k after limits (ground (arith, charged, room)) in
      (
        (
          (λ e. let (fits, q) = iff.0 e in (ground (arith, charged, fits), (p, q))),
          λ all. iff.1 (ground (arith, charged, all.0), all.1.1),
        ),
        λ e. let (same, amount) = effect e in (same, ground (arith, charged, amount)),
      )

  pub seq-Needs :
      (P Q : Type 0) (n m : ℕ) (first second : Call)
      → Needs P n first
      → Needs Q m second
      → Needs (P × Q) (n + m) (seq first second)
  seq-Needs P Q n m first second h k b limits fits =
      follow-Passes P Q n m (first b) second b (h b limits fits) k

  pub nothing-Needs : Needs Unit 0 nothing
  nothing-Needs b limits fits =
      (((λ e. (ground arith, tt)), λ all. refl), λ e. (limits, ground arith))

  raise_if-Needs : (c : Bool) (e : Raised) → Needs (c ≡ false) 0 (raise_if c e)
  raise_if-Needs true e b limits fits = (((λ h. cc), λ all. cc), λ h. cc)
  raise_if-Needs false e b limits fits =
      (((λ h. (ground arith, refl)), λ all. refl), λ h. (limits, ground arith))

  -- A result of the budget, as the call reports it.
  report-Passes :
      (r : Reading) (n : ℕ) (result : Option AnalysisResourceExceeded × AnalysisResourceBudget)
      (b : AnalysisResourceBudget)
      → SameLimits l b
      → ((result.0 ≡ none) ↔ ((b.charged + n ≤ b.max_source_bytes) × Within b r))
      → (result.0 ≡ none → SameLimits b result.1 × (result.1.charged ≡ b.charged + n))
      → Passes (Within l r) n (report result) b
  report-Passes r n (none, after) b limits h k =
      let (same, amount) = k refl in
      (
        (
          (λ e.
              rw
                (
                  sym limits.source_limit,
                  sym limits.rss_limit,
                  sym limits.time_limit,
                  sym limits.start,
                )
                (h.0 refl)),
          λ all. refl,
        ),
        λ e. (SameLimits-trans b after limits same, amount),
      )
  report-Passes r n (some e, after) b limits h k = (
    (
      (λ p. cc),
      λ all. absurd (
          no_error (
            h.1 (rw (limits.source_limit, limits.rss_limit, limits.time_limit, limits.start) all))),
    ),
    λ p. cc,
  )

  check_at-Needs : (r : Reading) → Needs (Within l r) 0 (check_at r)
  check_at-Needs r b limits fits =
      report-Passes r 0 (check r.now r.rss b) b limits
        (check_iff r b (ground (arith, fits, limits.source_limit))) (check-SameLimits r b)

  charge_at-Needs : (size : ℕ) (r : Reading) → Needs (Within l r) size (charge_at size r)
  charge_at-Needs size r b limits fits =
      report-Passes r size (charge_source size r.now r.rss b) b limits (charge_source_iff size r b)
        (charge_source-SameLimits size r b)

  check_reading-Needs : (o : Option Reading) → Needs (Affords l o) 0 (check_reading o)
  check_reading-Needs none = nothing-Needs
  check_reading-Needs (some r) = check_at-Needs r

  check_heartbeat-Needs : (o : Option Heartbeat) → Needs (IsCalm l o) 0 (check_heartbeat o)
  check_heartbeat-Needs none = nothing-Needs
  check_heartbeat-Needs (some h) =
      seq-Needs (h.interrupted ≡ false) (Affords l h.reading × (h.commit_failed ≡ false)) 0 0
        (raise_if h.interrupted cancelled)
        (seq (check_reading h.reading) (raise_if h.commit_failed cancelled))
        (raise_if-Needs h.interrupted cancelled)
        (seq-Needs (Affords l h.reading) (h.commit_failed ≡ false) 0 0 (check_reading h.reading)
          (raise_if h.commit_failed cancelled) (check_reading-Needs h.reading)
          (raise_if-Needs h.commit_failed cancelled))

  checkpoint-Needs : (c : Checkpoint) → Needs (Clears l c) 0 (checkpoint c)
  checkpoint-Needs c =
      seq-Needs (IsCalm l c.check_cancelled) (Within l c.reading) 0 0
        (check_heartbeat c.check_cancelled) (check_at c.reading)
        (check_heartbeat-Needs c.check_cancelled) (check_at-Needs c.reading)

  open_source-Needs : (s : Source) → Needs (IsReadable l s) (size_of s) (open_source s)
  open_source-Needs missing = nothing-Needs
  open_source-Needs unsafe = λ b limits fits. (((λ e. cc), λ all. absurd all.1), λ e. cc)
  open_source-Needs (regular size r after) =
      subst
        (λ (n : ℕ).
          Needs (Within l r × Clears l after) n (seq (charge_at size r) (checkpoint after)))
        (omega arith)
        (seq-Needs (Within l r) (Clears l after) size 0 (charge_at size r) (checkpoint after)
          (charge_at-Needs size r) (checkpoint-Needs after))

  pub stream_path-Needs :
      (m : ManifestPath) → Needs (IsServed l m) (size_of m.source) (stream_path m)
  stream_path-Needs m =
      subst (λ (n : ℕ). Needs (IsServed l m) n (stream_path m)) (omega arith)
        (seq-Needs (Clears l m.before) (IsReadable l m.source) 0 (size_of m.source)
          (checkpoint m.before) (open_source m.source) (checkpoint-Needs m.before)
          (open_source-Needs m.source))
