-- ===== src/JobService/Final.antt =====
-- `cancel` of the service never overwrites a finished job.
use partha.Prelude.{
  ℕ, ◌≡◌, refl, sym, ◌∙◌, ap, Bool, true, false, some, List, ◌==◌, arith, inl, inr, Bool-cases,
  ==_iff,
}
use partha.Table.{find, update_row}
use partha.Table.Laws.{touch, find-update_row_self, find-update_row_ne}
use partha.Jobs.{JobStatus, AnalysisJob, job_key, is_queued, is_running}
use partha.Jobs.Valid.{is_terminal}
use partha.Session.{Session, statement}
use partha.Session.Rules.{Ensures-modify, Ensures-commit, Ensures-rollback, Ensures-read_clock}
use partha.Session.Keeps.{Keeps, kept}
use partha.JobService.{AnalysisJobService}
use partha.JobService.Cancel.{cancelled_job, flagged_job, cancel_repository, update_job, cancel}
use partha.JobService.Valid.{Admits, Keeps-cancel}

-- The table has the row, both as committed and in the open transaction.
pub record Stays (row : AnalysisJob) (s : Session) : Type 0 where
  pub stored : find job_key row.id s.committed.jobs ≡ some row
  pub open_row : find job_key row.id s.work.jobs ≡ some row

-- A guarded update whose guard the row fails leaves the row as it is.
find-update_row_failed :
    (id : ℕ) (p : AnalysisJob → Bool) (f : AnalysisJob → AnalysisJob)
    → ((j : AnalysisJob) → (f j).id ≡ j.id)
    → (row : AnalysisJob) (jobs : List AnalysisJob) → p row ≡ false
    → find job_key row.id jobs ≡ some row
    → find job_key row.id (update_row job_key id p f jobs).0 ≡ some row
find-update_row_failed id p f same row jobs fails here = elim (Bool-cases (row.id == id)) [
  | inl e ↦
      let at_id = (==_iff row.id id).0 e in
      let kept_row : touch p f (some row) ≡ some row = rw fails refl in
      ap (λ (i : ℕ). find job_key i (update_row job_key id p f jobs).0) at_id
      ∙ find-update_row_self job_key id p f same jobs
      ∙ ap (touch p f) (sym (ap (λ (i : ℕ). find job_key i jobs) at_id) ∙ here)
      ∙ kept_row
  | inr e ↦ find-update_row_ne job_key id p f same row.id (ground arith) jobs ∙ here
]

module _ (service : AnalysisJobService) (row : AnalysisJob)
    (final : is_terminal row.status ≡ true) where
  Stays-update_job :
      (id : ℕ) (in_state : JobStatus → Bool) (values : AnalysisJob → AnalysisJob)
      → ((j : AnalysisJob) → (values j).id ≡ j.id)
      → in_state row.status ≡ false
      → Keeps (Stays row) (update_job service id in_state values)
  unfolding update_job statement
  Stays-update_job id in_state values same out = record {
    at = λ s h. record {
      stored = h.stored;
      open_row =
          find-update_row_failed id _ values same row s.work.jobs (ground (arith, out)) h.open_row;
    };
  }

  Admits-Stays : Admits service (Stays row)
  unfolding cancel_repository
  Admits-Stays = record {
    on_commit =
        Ensures-commit (Stays row) (λ s h. record { stored = h.open_row; open_row = h.open_row });
    on_rollback =
        Ensures-rollback (Stays row) (λ s h. record { stored = h.stored; open_row = h.stored });
    on_clock =
        Ensures-read_clock (λ _. Stays row) service.clock
          (λ s h. record { stored = h.stored; open_row = h.open_row });
    on_flag = λ id now.
        Stays-update_job id is_running (flagged_job now) (λ _. refl) (ground (arith, final));
    on_cancel = λ id now.
        Stays-update_job id is_queued (cancelled_job now) (λ _. refl) (ground (arith, final));
    on_record = λ id.
        Ensures-modify (Stays row) _ (λ s h. record { stored = h.stored; open_row = h.open_row });
  }

  -- A finished job (completed, failed or cancelled) that both the committed table and the session's
  -- own transaction have is there unchanged after a cancellation of any repository, in the committed
  -- table too, however the cancellation ends and whichever of its tries meet a lock.
  pub cancel_keeps_final :
      (busy : ℕ → Bool) (repository_id : ℕ) (s : Session)
      → find job_key row.id s.committed.jobs ≡ some row
      → find job_key row.id s.work.jobs ≡ some row
      → find job_key row.id (cancel service busy repository_id s).1.committed.jobs ≡ some row
  cancel_keeps_final busy repository_id s stored open_row =
      (kept _ (Keeps-cancel service Admits-Stays busy repository_id) s
        (record { stored = stored; open_row = open_row })).stored
