-- ===== src/Jobs/Execution.antt =====
-- One round of `ReportWorker.run_once`, where DuckDB and Redis answer.
use deepinsight.Prelude.{
  ℕ, ◌+◌, ℤ, zero, is_negative, suc, String, ◌≡◌, refl, sym, ◌∙◌, ◌≢◌, ap, Bool, true, false,
  Option, none, some, List, ◌∷◌, arith, is_blank,
}
use deepinsight.Temporal.DateTime.{Instant}
use deepinsight.Jobs.Records.{
  TaskStatus, queued, running, completed, failed, ErrorInfo, ReportJobRecord, GeneratedReport,
}
use deepinsight.Jobs.Action.{
  answered, World, Shared, Message, utf8, Outcome, returned, ◌>>=◌, clock, transaction, tick,
}
use deepinsight.Jobs.Repository.{
  is_job_in, update, find_job, claimed_at, claim_rows, claim, moved_to, transition_rows, complete,
  fail,
}
use deepinsight.Jobs.Queue.{decode_message, take_message, popped, dequeue}
use deepinsight.Jobs.Worker.{
  completed_only, generation_failed, generated, finish, execute, run_job, run_once,
}
use deepinsight.Jobs.Rows.{find_job→id, find_job-select, find_job-update, find_job-update_ne}

-- Every transaction commits, and Redis answers every call.
pub record Answers (w : World) : Type 0 where
  pub commits : (n : ℕ) → w.commits n ≡ true
  pub redis : (n : ℕ) → w.redis n ≡ answered

-- The report that an answer of the generator delivers: one whose status is completed.
abbrev pub Delivers : Option GeneratedReport → Option GeneratedReport → Type 0
Delivers none r = r ≡ none
Delivers (some report) none = report.status ≢ completed
Delivers (some report) (some r) = (r ≡ report) × (report.status ≡ completed)

abbrev pub ended : Option GeneratedReport → Instant → ReportJobRecord → ReportJobRecord
ended none t = moved_to failed none (some generation_failed) t
ended (some report) t = moved_to completed (some report.report_id) none t

-- The job after a round that took it up at one time and ended at another.
abbrev pub executed :
    Option GeneratedReport → (started finished : Instant) → ReportJobRecord → ReportJobRecord
executed none started finished r = record r {
  status = failed;
  report_id = none;
  error = some generation_failed;
  attempt_count = r.attempt_count + 1;
  started_at = some started;
  finished_at = some finished;
}
executed (some report) started finished r = record r {
  status = completed;
  report_id = some report.report_id;
  error = none;
  attempt_count = r.attempt_count + 1;
  started_at = some started;
  finished_at = some finished;
}

ended-claimed_at :
    (report : Option GeneratedReport) (t u : Instant) (r : ReportJobRecord)
    → ended report u (claimed_at t r) ≡ executed report t u r
ended-claimed_at none t u r = refl
ended-claimed_at (some report) t u r = refl

completed_only-Delivers :
    (answer report : Option GeneratedReport)
    → Delivers answer report
    → completed_only answer ≡ report
completed_only-Delivers none report h = sym h
completed_only-Delivers (some x) none h = ground arith
completed_only-Delivers (some x) (some y) h = ground arith

ended_keeps :
    (report : Option GeneratedReport) (t : Instant) (r : ReportJobRecord)
    → (ended report t r).job_id ≡ r.job_id
ended_keeps none t r = refl
ended_keeps (some report) t r = refl

-- The number of calls made after `n` more.
abbrev pub after : ℕ → ℕ → ℕ
after zero calls = calls
after (suc n) calls = suc (after n calls)

module _ (w : World) (answers : Answers w) where
  pub dequeue_lem :
      (t : ℤ) (s : Shared) (id : String) (rest : List Message)
      → is_negative t ≡ false
      → is_blank id ≡ false
      → s.queue ≡ utf8 id ∷ rest
      → dequeue w t s ≡ (returned (some id), record s { queue = rest; calls = suc s.calls })
  unfolding dequeue popped decode_message take_message
  dequeue_lem t s id rest pos named head = rw (pos, answers.redis s.calls, head, named) refl

  pub claim_lem :
      (id : String) (t : Instant) (s : Shared) (r : ReportJobRecord)
      → find_job id s.jobs ≡ some r
      → r.status ≡ queued
      → claim w id t s ≡ (
        returned (some (claimed_at t r)),
        record s { jobs = update (is_job_in id queued) (claimed_at t) s.jobs; calls = suc s.calls },
      )
  unfolding claim claim_rows transaction
  claim_lem id t s r found waiting = ground (
    arith,
    answers.commits s.calls,
    find_job-select id queued s.jobs r,
    find_job-update id queued (claimed_at t) (λ _. refl) s.jobs r,
  )

  pub transition_lem :
      (id : String) (from to : TaskStatus) (report : Option String) (e : Option ErrorInfo)
      (t : Instant) (s : Shared) (r : ReportJobRecord)
      → find_job id s.jobs ≡ some r
      → r.status ≡ from
      → transaction w (transition_rows id from to report e t) s ≡ (
        returned tt,
        record s {
          jobs = update (is_job_in id from) (moved_to to report e t) s.jobs;
          calls = suc s.calls;
        },
      )
  unfolding transition_rows transaction
  transition_lem id from to report e t s r found at =
      ground (arith, answers.commits s.calls, find_job-select id from s.jobs r)

  finish_lem :
      (job : ReportJobRecord) (report : Option GeneratedReport) (s : Shared)
      → find_job job.job_id s.jobs ≡ some job
      → job.status ≡ running
      → finish w job report s ≡ (
        returned tt,
        record s {
          jobs = update (is_job_in job.job_id running) (ended report (w.now s.calls)) s.jobs;
          calls = suc (suc s.calls);
        },
      )
  unfolding finish complete fail clock ◌>>=◌
  finish_lem job none s found at =
      transition_lem job.job_id running failed none (some generation_failed) (w.now s.calls)
        (tick s) job found at
  finish_lem job (some report) s found at =
      transition_lem job.job_id running completed (some report.report_id) none (w.now s.calls)
        (tick s) job found at

  generated_lem :
      (r : ReportJobRecord) (report : Option GeneratedReport) (s : Shared)
      → Delivers (w.generate r.request s.calls) report
      → generated w r.request s ≡ (returned report, record s { calls = suc s.calls })
  unfolding generated
  generated_lem r report s h = rw (completed_only-Delivers (w.generate r.request s.calls) report h)

  module _ (t : ℤ) (s : Shared) (id : String) (rest : List Message) (r : ReportJobRecord)
      (report : Option GeneratedReport) (waits : is_negative t ≡ false)
      (named : is_blank id ≡ false) (head : s.queue ≡ utf8 id ∷ rest)
      (found : find_job id s.jobs ≡ some r) (waiting : r.status ≡ queued)
      (delivers : Delivers (w.generate r.request (after 3 s.calls)) report) where
    abbrev started : List ReportJobRecord
    started = update (is_job_in id queued) (claimed_at (w.now (after 1 s.calls))) s.jobs

    -- The state after the round.
    abbrev after_round : Shared
    after_round = record {
      jobs = update (is_job_in id running) (ended report (w.now (after 4 s.calls))) started;
      queue = rest;
      calls = after 6 s.calls;
    }

    abbrev ended_at : String → Outcome Bool × Shared
    ended_at j = (
      returned true,
      record after_round {
        jobs = update (is_job_in j running) (ended report (w.now (after 4 s.calls))) started;
      },
    )

    run_once_lem : run_once w t s ≡ (returned true, after_round)
    unfolding run_once run_job execute clock ◌>>=◌
    run_once_lem =
        let s1 = record s { queue = rest; calls = after 1 s.calls } in
        let job = claimed_at (w.now (after 1 s.calls)) r in
        let same : r.job_id ≡ id = find_job→id id s.jobs r found in
        let ran =
          find_job-update id queued (claimed_at (w.now (after 1 s.calls))) (λ _. refl) s.jobs r
            found waiting in
        let s3 = record s { jobs = started; queue = rest; calls = after 3 s.calls } in
        rw
          (
            dequeue_lem t s id rest waits named head,
            claim_lem id (w.now (after 1 s.calls)) (tick s1) r found waiting,
            generated_lem job report s3 delivers,
            finish_lem job report (tick s3) (ap (λ j. find_job j started) same ∙ ran) refl,
          )
          (ap (λ j. ended_at j) same)

    -- With a queued job's identifier at the head of the queue and DuckDB and Redis answering, a
    -- round of the Worker returns true, takes the identifier off the queue, and leaves the job
    -- completed with its report if the generator delivers a completed one and failed otherwise,
    -- with one more attempt; no other job changes.
    pub run_once_executes :
        ((run_once w t s).0 ≡ returned true)
        × ((run_once w t s).1.queue ≡ rest)
        × (find_job id (run_once w t s).1.jobs
            ≡ some (executed report (w.now (after 1 s.calls)) (w.now (after 4 s.calls)) r))
        × ((other : String)
            → other ≢ id
            → find_job other (run_once w t s).1.jobs ≡ find_job other s.jobs)
    run_once_executes = rw run_once_lem (
      refl,
      refl,
      find_job-update id running (ended report (w.now (after 4 s.calls))) (ended_keeps report _)
            started _
            (find_job-update id queued (claimed_at (w.now (after 1 s.calls))) (λ _. refl) s.jobs r
              found waiting)
            refl
          ∙ ap some (ended-claimed_at report (w.now (after 1 s.calls)) (w.now (after 4 s.calls)) r),
      λ other ne.
          find_job-update_ne id running (ended report (w.now (after 4 s.calls)))
            (ended_keeps report _) other started ne
          ∙ find_job-update_ne id queued (claimed_at (w.now (after 1 s.calls))) (λ _. refl) other
              s.jobs ne,
    )
