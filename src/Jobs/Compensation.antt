-- ===== src/Jobs/Compensation.antt =====
-- What the compensation of `DurableReportTaskService.submit` leaves.
use deepinsight.Prelude.{Bool, suc, String, ◌≡◌, refl, ◌≢◌, true, false, none, some, arith}
use deepinsight.Temporal.DateTime.{Instant}
use deepinsight.Jobs.Records.{queued, failed, ErrorInfo, ReportJobRecord}
use deepinsight.Jobs.Action.{
  World, Shared, repository_error, job_queue_error, service_unavailable, Outcome, returned, raised,
  ◌>>=◌, except, clock, transaction, tick,
}
use deepinsight.Jobs.Repository.{
  find_job, is_job_in, update, moved_to, transition_rows, fail_queued,
}
use deepinsight.Jobs.Rows.{find_job-select, find_job-update, find_job-update_ne}
use deepinsight.Jobs.Service.{queue_unavailable, on_repository_error, compensate}

-- The job after the compensation, which is one transaction: failed with its error if that commits,
-- and queued as before otherwise.
abbrev pub IsCompensated : (committed : Bool) → ReportJobRecord → Type 0
IsCompensated true job = (job.status ≡ failed) × (job.error ≡ some queue_unavailable)
IsCompensated false job = (job.status ≡ queued) × (job.error ≡ none)

module _ (w : World) where
  fail_queued_fails :
      (id : String) (e : ErrorInfo) (t : Instant) (s : Shared)
      → w.commits s.calls ≡ false
      → fail_queued w id e t s ≡ (raised repository_error, tick s)
  unfolding fail_queued transaction
  fail_queued_fails id e t s rolled_back = rw rolled_back refl

  fail_queued_stores :
      (id : String) (e : ErrorInfo) (t : Instant) (s : Shared) (r : ReportJobRecord)
      → w.commits s.calls ≡ true
      → find_job id s.jobs ≡ some r
      → r.status ≡ queued
      → fail_queued w id e t s ≡ (
        returned tt,
        record s {
          jobs = update (is_job_in id queued) (moved_to failed none (some e) t) s.jobs;
          calls = suc s.calls;
        },
      )
  unfolding fail_queued transition_rows transaction
  fail_queued_stores id e t s r ok found waiting =
      ground (arith, find_job-select id queued s.jobs r found waiting)

  -- What the compensation for a queued job leaves.
  pub record IsCompensation (committed : Bool) (id : String) (r : ReportJobRecord) (s : Shared)
      (outcome : Outcome (Unit {0})) (s' : Shared) : Type 0 where
    pub raises : outcome ≡ raised service_unavailable
    pub queue : s'.queue ≡ s.queue
    pub job : ReportJobRecord
    pub found : find_job id s'.jobs ≡ some job
    pub asked : job.request ≡ r.request
    pub attempts : job.attempt_count ≡ r.attempt_count
    pub compensated : IsCompensated committed job
    pub others : (other : String) → other ≢ id → find_job other s'.jobs ≡ find_job other s.jobs

  pub compensate_lem :
      (id : String) (r : ReportJobRecord) (s : Shared) (committed : Bool)
      → w.commits (suc s.calls) ≡ committed
      → find_job id s.jobs ≡ some r
      → r.status ≡ queued
      → r.error ≡ none
      → let (outcome, s') = compensate w id job_queue_error s in
        IsCompensation committed id r s outcome s'
  unfolding compensate on_repository_error except clock ◌>>=◌
  compensate_lem id r s false e found waiting clean =
      rw (fail_queued_fails id queue_unavailable (w.now s.calls) (tick s) e) (record {
        raises = refl;
        queue = refl;
        job = r;
        found = found;
        asked = refl;
        attempts = refl;
        compensated = (waiting, clean);
        others = λ other ne. refl;
      })
  compensate_lem id r s true e found waiting clean =
      let t = w.now s.calls in
      let change = moved_to failed none (some queue_unavailable) t in
      rw (fail_queued_stores id queue_unavailable t (tick s) r e found waiting) (record {
        raises = refl;
        queue = refl;
        job = change r;
        found = find_job-update id queued change (λ _. refl) s.jobs r found waiting;
        asked = refl;
        attempts = refl;
        compensated = (refl, refl);
        others = λ other ne. find_job-update_ne id queued change (λ _. refl) other s.jobs ne;
      })
