-- ===== src/Jobs/Refinement.antt =====
-- Every call of the API and of the Worker changes the job table only as the lifecycle allows.
use deepinsight.Prelude.{
  ℤ, String, refl, Option, none, some, List, [], ◌∷◌, is_blank, is_negative, Bool-cases, inl, inr,
}
use deepinsight.Temporal.DateTime.{Instant}
use deepinsight.Jobs.Records.{
  queued, running, completed, failed, is_status, ErrorInfo, ReportJobRecord, GenerateReportRequest,
  GeneratedReport,
}
use deepinsight.Jobs.Action.{
  RedisReply, answered, failed_before, failed_after, World, Shared, JobError, repository_error,
  job_queue_error,
}
use deepinsight.Jobs.Repository.{
  insert_row, create, stamped, get, claim, complete, fail, fail_queued, is_in, requeued,
  requeue_interrupted, list_queued,
}
use deepinsight.Jobs.Queue.{pushed, enqueue, popped, dequeue}
use deepinsight.Jobs.Worker.{
  generated, finish, execute, run_job, run_once, enqueue_all, recover_interrupted,
}
use deepinsight.Jobs.Service.{
  new_job, on_repository_error, compensate, submit_job, submit, get_status,
}
use deepinsight.Jobs.Events.{Event, submitted, asked, worked, recovered, handle, handle_all}
use deepinsight.Jobs.Lifecycle.{
  done, broken, unpublished, interrupted, IsNew, Evolves, HasUniqueIds, Sound, Sound-refl,
  Sound-trans,
}
use deepinsight.Jobs.Does.{Does, Does-transaction, Does-bind, does_rules}
use deepinsight.Jobs.Updates.{
  is_status→eq, update-Sound, transition-Sound, claim-Sound, insert-Sound,
}

module _ (w : World) where
  create-Does : (r : ReportJobRecord) → IsNew r → Does (create w r)
  unfolding create
  create-Does r new = record {
    at = λ s. elim (Bool-cases (is_status r.status queued)) [
      | inl ok ↦ rw ok (
          (Does-transaction w (insert_row (stamped r (w.now s.calls)))
              (λ rows. insert-Sound (stamped r (w.now s.calls)) rows new)).at
            s)
      | inr other ↦ rw other (Sound-refl s.jobs)
    ];
  }

  get-Does : (job_id : String) → Does (get w job_id)
  unfolding get
  get-Does job_id = search (does_rules, Sound-refl)

  claim-Does : (job_id : String) (t : Instant) → Does (claim w job_id t)
  unfolding claim
  claim-Does job_id t = search (does_rules, claim-Sound job_id t)

  complete-Does : (job_id report_id : String) (t : Instant) → Does (complete w job_id report_id t)
  unfolding complete
  complete-Does job_id report_id t = search (
    does_rules,
    λ (rows : List ReportJobRecord).
        transition-Sound job_id running completed (some report_id) none t rows
          (λ r e. done report_id t e refl),
  )

  fail-Does : (job_id : String) (e : ErrorInfo) (t : Instant) → Does (fail w job_id e t)
  unfolding fail
  fail-Does job_id e t = search (
    does_rules,
    λ (rows : List ReportJobRecord).
        transition-Sound job_id running failed none (some e) t rows (λ r h. broken e t h refl),
  )

  fail_queued-Does :
      (job_id : String) (e : ErrorInfo) (t : Instant) → Does (fail_queued w job_id e t)
  unfolding fail_queued
  fail_queued-Does job_id e t = search (
    does_rules,
    λ (rows : List ReportJobRecord).
        transition-Sound job_id queued failed none (some e) t rows (λ r h. unpublished e t h refl),
  )

  requeue_interrupted-Does : Does (requeue_interrupted w)
  unfolding requeue_interrupted
  requeue_interrupted-Does = search (
    does_rules,
    λ (rows : List ReportJobRecord).
        update-Sound (is_in running) requeued
          (λ r h. interrupted (is_status→eq r.status running h) refl) rows,
  )

  list_queued-Does : Does (list_queued w)
  unfolding list_queued
  list_queued-Does = search (does_rules, Sound-refl)

  pushed-Sound :
      (reply : RedisReply) (job_id : String) (s : Shared)
      → Sound s.jobs (pushed reply job_id s).1.jobs
  pushed-Sound answered job_id s = Sound-refl s.jobs
  pushed-Sound failed_before job_id s = Sound-refl s.jobs
  pushed-Sound failed_after job_id s = Sound-refl s.jobs

  enqueue-Does : (job_id : String) → Does (enqueue w job_id)
  unfolding enqueue
  enqueue-Does job_id = record {
    at = λ s. elim (Bool-cases (is_blank job_id)) [
      | inl e ↦ rw e (Sound-refl s.jobs)
      | inr e ↦ rw e (pushed-Sound (w.redis s.calls) job_id s)
    ];
  }

  popped-Sound : (reply : RedisReply) (s : Shared) → Sound s.jobs (popped reply s).1.jobs
  unfolding popped
  popped-Sound answered s = Sound-refl s.jobs
  popped-Sound failed_before s = Sound-refl s.jobs
  popped-Sound failed_after s = Sound-refl s.jobs

  dequeue-Does : (t : ℤ) → Does (dequeue w t)
  unfolding dequeue
  dequeue-Does t = record {
    at = λ s. elim (Bool-cases (is_negative t)) [
      | inl e ↦ rw e (Sound-refl s.jobs)
      | inr e ↦ rw e (popped-Sound (w.redis s.calls) s)
    ];
  }

  generated-Does : (request : GenerateReportRequest) → Does (generated w request)
  unfolding generated
  generated-Does request = record { at = λ s. Sound-refl s.jobs }

  finish-Does : (job : ReportJobRecord) (r : Option GeneratedReport) → Does (finish w job r)
  unfolding finish
  finish-Does job none = search (does_rules, fail-Does)
  finish-Does job (some r) = search (does_rules, complete-Does)

  execute-Does : (job : Option ReportJobRecord) → Does (execute w job)
  unfolding execute
  execute-Does none = search does_rules
  execute-Does (some job) = search (does_rules, generated-Does, finish-Does)

  run_job-Does : (job_id : Option String) → Does (run_job w job_id)
  unfolding run_job
  run_job-Does none = search does_rules
  run_job-Does (some job_id) = search (does_rules, claim-Does, execute-Does)

  run_once-Does : (t : ℤ) → Does (run_once w t)
  unfolding run_once
  run_once-Does t = search (does_rules, dequeue-Does, run_job-Does)

  enqueue_all-Does : (jobs : List ReportJobRecord) → Does (enqueue_all w jobs)
  unfolding enqueue_all
  enqueue_all-Does [] = search does_rules
  enqueue_all-Does (job ∷ jobs) =
      Does-bind (enqueue w job.job_id) (λ _. enqueue_all w jobs) (enqueue-Does job.job_id)
        (λ _. enqueue_all-Does jobs)

  recover_interrupted-Does : Does (recover_interrupted w)
  unfolding recover_interrupted
  recover_interrupted-Does =
      search (does_rules, requeue_interrupted-Does, list_queued-Does, enqueue_all-Does)

  on_repository_error-Does : (e : JobError) → Does (on_repository_error e)
  unfolding on_repository_error
  on_repository_error-Does repository_error = search does_rules
  on_repository_error-Does e = search does_rules

  compensate-Does : (job_id : String) (e : JobError) → Does {A = Unit {0}} (compensate w job_id e)
  unfolding compensate
  compensate-Does job_id job_queue_error =
      search (does_rules, fail_queued-Does, on_repository_error-Does)
  compensate-Does job_id e = search does_rules

  submit_job-Does :
      (request : GenerateReportRequest) (job_id : String) → Does (submit_job w request job_id)
  unfolding submit_job
  submit_job-Does request job_id = search (
    does_rules,
    on_repository_error-Does,
    compensate-Does,
    enqueue-Does,
    λ (t : Instant). create-Does (new_job job_id request t) (refl, refl, refl, refl, refl, refl),
  )

  submit-Does : (request : GenerateReportRequest) → Does (submit w request)
  unfolding submit
  submit-Does request = search (does_rules, submit_job-Does)

  handle-Sound : (s : Shared) (e : Event) → Sound s.jobs (handle w s e).jobs
  unfolding handle get_status
  handle-Sound s (submitted request) = (submit-Does request).at s
  handle-Sound s (asked job_id) = (get-Does job_id).at s
  handle-Sound s (worked t) = (run_once-Does t).at s
  handle-Sound s recovered = (recover_interrupted-Does).at s

  handle_all-Sound : (s : Shared) (events : List Event) → Sound s.jobs (handle_all w s events).jobs
  unfolding handle_all
  handle_all-Sound s [] = Sound-refl s.jobs
  handle_all-Sound s (e ∷ events) =
      Sound-trans s.jobs (handle w s e).jobs _ (handle-Sound s e)
        (handle_all-Sound (handle w s e) events)

  -- Whatever the calls of the API and the Worker and whatever DuckDB, Redis, the clock and the
  -- generator answer, every job stays in its place and changes only by steps of the lifecycle, and
  -- every further job has come by such steps from a new queued one.
  pub handle_all-Evolves :
      (s : Shared) (events : List Event) → Evolves s.jobs (handle_all w s events).jobs
  handle_all-Evolves s events = (handle_all-Sound s events).0

  -- No calls give two rows of the job table one identifier.
  pub handle_all-HasUniqueIds :
      (s : Shared) (events : List Event)
      → HasUniqueIds s.jobs
      → HasUniqueIds (handle_all w s events).jobs
  handle_all-HasUniqueIds s events = (handle_all-Sound s events).1
