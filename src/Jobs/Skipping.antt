-- ===== src/Jobs/Skipping.antt =====
-- What the Worker does with a message that names no queued job, and who may run a job twice.
use deepinsight.Prelude.{
  ℤ, is_negative, String, ◌≡◌, refl, sym, ◌∙◌, ◌≢◌, ap, false, Option, none, some, List, [], ◌∷◌,
  arith, is_blank, Bool-cases, inl, inr, eq_iff, same_text,
}
use deepinsight.Temporal.DateTime.{Instant}
use deepinsight.Jobs.Records.{queued, ReportJobRecord}
use deepinsight.Jobs.Action.{
  World, Shared, Message, utf8, returned, ◌>>=◌, clock, transaction, tick,
}
use deepinsight.Jobs.Repository.{is_job_in, select, find_job, claim_rows, claim}
use deepinsight.Jobs.Worker.{execute, run_job, run_once}
use deepinsight.Jobs.Lifecycle.{HasUniqueIds}
use deepinsight.Jobs.Updates.{is_status→eq}
use deepinsight.Jobs.Execution.{Answers, after, dequeue_lem}

-- The job of that identifier is not queued, or there is none.
abbrev pub IsNotQueued : Option ReportJobRecord → Type 0
IsNotQueued none = Unit
IsNotQueued (some r) = r.status ≢ queued

select-none :
    (id : String) (rows : List ReportJobRecord)
    → find_job id rows ≡ none
    → select (is_job_in id queued) rows ≡ []
unfolding find_job select is_job_in
select-none id [] h = refl
select-none id (x ∷ rows) h = ground (arith, select-none id rows)

select-IsNotQueued :
    (id : String) (rows : List ReportJobRecord)
    → HasUniqueIds rows
    → IsNotQueued (find_job id rows)
    → select (is_job_in id queued) rows ≡ []
unfolding find_job select is_job_in
select-IsNotQueued id [] u h = refl
select-IsNotQueued id (x ∷ rows) u h = elim (Bool-cases (same_text x.job_id id)) [
  | inl e ↦
      let this : x.job_id ≡ id = (eq_iff x.job_id id).0 e in
      let behind = select-none id rows (ap (λ j. find_job j rows) (sym this) ∙ u.0) in
      ground (arith, is_status→eq x.status queued)
  | inr e ↦ ground (arith, select-IsNotQueued id rows u.1)
]

module _ (w : World) (answers : Answers w) where
  claim-none :
      (id : String) (t : Instant) (s : Shared)
      → HasUniqueIds s.jobs
      → IsNotQueued (find_job id s.jobs)
      → claim w id t s ≡ (returned none, tick s)
  unfolding claim claim_rows transaction
  claim-none id t s unique idle =
      let idle' = select-IsNotQueued id s.jobs unique idle in
      ground (arith, answers.commits s.calls)

  -- If DuckDB and Redis answer and identifiers are unique, a round whose message names a job that
  -- is not queued returns false, takes the message and leaves every job as it is.
  pub run_once_skips :
      (t : ℤ) (s : Shared) (id : String) (rest : List Message)
      → is_negative t ≡ false
      → is_blank id ≡ false
      → s.queue ≡ utf8 id ∷ rest
      → HasUniqueIds s.jobs
      → IsNotQueued (find_job id s.jobs)
      → run_once w t s
        ≡ (returned false, record { jobs = s.jobs; queue = rest; calls = after 3 s.calls })
  unfolding run_once run_job execute clock ◌>>=◌
  run_once_skips t s id rest waits named head unique idle =
      let s1 = record s { queue = rest; calls = after 1 s.calls } in
      rw (
        dequeue_lem w answers t s id rest waits named head,
        claim-none id (w.now (after 1 s.calls)) (tick s1) unique idle,
      )
