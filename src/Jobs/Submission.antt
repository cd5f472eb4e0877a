-- ===== src/Jobs/Submission.antt =====
-- What `DurableReportTaskService.submit` returns and leaves, whatever DuckDB and Redis answer.
use deepinsight.Prelude.{
  suc, String, ◌≡◌, refl, ◌≢◌, true, false, none, some, List, [], ◌∷◌, ◌++◌, arith, is_blank,
  eq_iff, ◌⊎◌, inl, inr, ◌∙◌, Bool-cases, Option-cases,
}
use deepinsight.Jobs.Records.{queued, ReportJobRecord, GenerateReportRequest, TaskStatusResponse}
use deepinsight.Jobs.Action.{
  RedisReply, answered, failed_before, failed_after, World, Message, Shared, utf8, repository_error,
  job_queue_error, service_unavailable, Outcome, returned, raised, ◌>>=◌, except, clock,
  job_id_factory, transaction, tick,
}
use deepinsight.Jobs.Repository.{find_job, insert_row, stamped, create}
use deepinsight.Jobs.Queue.{enqueue}
use deepinsight.Jobs.Execution.{after}
use deepinsight.Jobs.Service.{new_job, on_repository_error, compensate, submit_job, submit}
use deepinsight.Jobs.Compensation.{IsCompensated, IsCompensation, compensate_lem}

find_job-snoc_self :
    (rows : List ReportJobRecord) (r : ReportJobRecord)
    → find_job r.job_id rows ≡ none
    → find_job r.job_id (rows ++ r ∷ []) ≡ some r
unfolding find_job
find_job-snoc_self [] r h = ground (arith, eq_iff r.job_id r.job_id)
find_job-snoc_self (x ∷ rows) r h = ground (arith, find_job-snoc_self rows r)

find_job-snoc_ne :
    (other : String) (rows : List ReportJobRecord) (r : ReportJobRecord)
    → other ≢ r.job_id
    → find_job other (rows ++ r ∷ []) ≡ find_job other rows
unfolding find_job
find_job-snoc_ne other [] r h = ground (arith, eq_iff r.job_id other)
find_job-snoc_ne other (x ∷ rows) r h = ground (arith, find_job-snoc_ne other rows r h)

-- The submitted job is stored, under an identifier that was free, and no other job changes.
pub record IsStored (request : GenerateReportRequest) (id : String) (s s' : Shared) : Type 0 where
  pub free : find_job id s.jobs ≡ none
  pub job : ReportJobRecord
  pub found : find_job id s'.jobs ≡ some job
  pub asked : job.request ≡ request
  pub never_ran : job.attempt_count ≡ 0
  pub others : (other : String) → other ≢ id → find_job other s'.jobs ≡ find_job other s.jobs

-- What a failed publication has done to the queue.
abbrev pub IsUnpublished : RedisReply → String → Shared → Shared → Type 0
IsUnpublished answered id s s' = ⊥
IsUnpublished failed_before id s s' = s'.queue ≡ s.queue
IsUnpublished failed_after id s s' = s'.queue ≡ s.queue ++ utf8 id ∷ []

-- The job is stored as a new one, and published behind all earlier messages.
pub record IsPublished (request : GenerateReportRequest) (id : String) (s : Shared)
    (response : TaskStatusResponse) (s' : Shared) : Type 0 where
  pub named : response.job_id ≡ id
  pub accepted : response.status ≡ queued
  pub stored : IsStored request id s s'
  pub waiting : stored.job.status ≡ queued
  pub queue : s'.queue ≡ s.queue ++ utf8 id ∷ []

-- The identifier is blank, or the job cannot be stored; then nothing happens.
pub record IsRefused (w : World) (id : String) (s s' : Shared) : Type 0 where
  pub cause :
      (is_blank id ≡ true) ⊎ ((w.commits (after 2 s.calls) ≡ false) ⊎ (find_job id s.jobs ≢ none))
  pub jobs : s'.jobs ≡ s.jobs
  pub queue : s'.queue ≡ s.queue

-- The job is stored, but Redis has raised an error for its publication.
pub record IsWithdrawn (w : World) (request : GenerateReportRequest) (id : String) (s s' : Shared)
    : Type 0 where
  pub stored : IsStored request id s s'
  pub compensated : IsCompensated (w.commits (after 5 s.calls)) stored.job
  pub queue : IsUnpublished (w.redis (after 3 s.calls)) id s s'

abbrev pub SubmitResult :
    World
    → GenerateReportRequest
    → (id : String) → Shared
    → Outcome TaskStatusResponse
    → Shared
    → Type 0
SubmitResult w request id s (returned response) s' = IsPublished request id s response s'
SubmitResult w request id s (raised e) s' =
    (e ≡ service_unavailable) × (IsRefused w id s s' ⊎ IsWithdrawn w request id s s')

module _ (w : World) where
  create_stores :
      (r : ReportJobRecord) (s : Shared)
      → r.status ≡ queued
      → w.commits s.calls ≡ true
      → find_job r.job_id s.jobs ≡ none
      → create w r s ≡ (
        returned tt,
        record s { jobs = s.jobs ++ stamped r (w.now s.calls) ∷ []; calls = suc s.calls },
      )
  unfolding create insert_row transaction
  create_stores r s new ok free = ground arith

  create_fails :
      (r : ReportJobRecord) (s : Shared)
      → r.status ≡ queued
      → (w.commits s.calls ≡ false) ⊎ (find_job r.job_id s.jobs ≢ none)
      → create w r s ≡ (raised repository_error, tick s)
  unfolding create insert_row transaction
  create_fails r s new bad = ground arith

module _ (w : World) (request : GenerateReportRequest) (id : String) (s : Shared)
    (named : is_blank id ≡ false) (ok : w.commits (after 2 s.calls) ≡ true)
    (free : find_job id s.jobs ≡ none) where
  abbrev job_of : ReportJobRecord
  job_of = new_job id request (w.now (after 1 s.calls))

  abbrev stored_jobs : List ReportJobRecord
  stored_jobs = s.jobs ++ job_of ∷ []

  -- The state when the compensation begins.
  abbrev unpublished : List Message → Shared
  unpublished queue = record { jobs = stored_jobs; queue = queue; calls = after 4 s.calls }

  IsUnpublished-kept :
      (reply : RedisReply) (s1 s2 : Shared)
      → s2.queue ≡ s1.queue
      → IsUnpublished reply id s s1
      → IsUnpublished reply id s s2
  IsUnpublished-kept answered s1 s2 e h = h
  IsUnpublished-kept failed_before s1 s2 e h = e ∙ h
  IsUnpublished-kept failed_after s1 s2 e h = e ∙ h

  withdrawn :
      (queue : List Message) (outcome : Outcome (Unit {0})) (s' : Shared)
      → IsUnpublished (w.redis (after 3 s.calls)) id s (unpublished queue)
      → IsCompensation w (w.commits (after 5 s.calls)) id job_of (unpublished queue) outcome s'
      → IsWithdrawn w request id s s'
  withdrawn queue outcome s' lost k = record {
    stored = record {
      free = free;
      job = k.job;
      found = k.found;
      asked = k.asked;
      never_ran = k.attempts;
      others = λ other ne. k.others other ne ∙ find_job-snoc_ne other s.jobs job_of ne;
    };
    compensated = k.compensated;
    queue = IsUnpublished-kept (w.redis (after 3 s.calls)) (unpublished queue) s' k.queue lost;
  }

  compensation :
      (queue : List Message)
      → let (outcome, s') = compensate w id job_queue_error (unpublished queue) in
        IsCompensation w (w.commits (after 5 s.calls)) id job_of (unpublished queue) outcome s'
  compensation queue =
      compensate_lem w id job_of (unpublished queue) _ refl (find_job-snoc_self s.jobs job_of free)
        refl refl

  submit_job-replied :
      (reply : RedisReply)
      → w.redis (after 3 s.calls) ≡ reply
      → let (outcome, s') = submit_job w request id (tick s) in
        SubmitResult w request id s outcome s'
  unfolding submit_job except clock on_repository_error enqueue ◌>>=◌
  submit_job-replied answered e =
      rw (create_stores w job_of (tick (tick s)) refl ok free, named, e)
        (record {
          named = refl;
          accepted = refl;
          stored = record {
            free = free;
            job = job_of;
            found = find_job-snoc_self s.jobs job_of free;
            asked = refl;
            never_ran = refl;
            others = λ other ne. find_job-snoc_ne other s.jobs job_of ne;
          };
          waiting = refl;
          queue = refl;
        })
  submit_job-replied failed_before e =
      let k = compensation s.queue in
      rw (create_stores w job_of (tick (tick s)) refl ok free, named, e, k.raises)
        (refl, inr (withdrawn s.queue _ _ (rw e refl) k))
  submit_job-replied failed_after e =
      let k = compensation (s.queue ++ utf8 id ∷ []) in
      rw (create_stores w job_of (tick (tick s)) refl ok free, named, e, k.raises)
        (refl, inr (withdrawn (s.queue ++ utf8 id ∷ []) _ _ (rw e refl) k))

module _ (w : World) (request : GenerateReportRequest) where
  submit_job-SubmitResult :
      (id : String) (s : Shared)
      → is_blank id ≡ false
      → let (outcome, s') = submit_job w request id (tick s) in
        SubmitResult w request id s outcome s'
  unfolding submit_job except clock on_repository_error ◌>>=◌
  submit_job-SubmitResult id s named =
      let r = new_job id request (w.now (after 1 s.calls)) in
      elim (Bool-cases (w.commits (after 2 s.calls))) [
        | inl ok ↦ elim (Option-cases (find_job id s.jobs)) [
          | inl free ↦ submit_job-replied w request id s named ok free _ refl
          | inr (x, taken) ↦
              let known : find_job id s.jobs ≢ none = λ e. cc in
              rw (create_fails w r (tick (tick s)) refl (inr known))
                (refl, inl (record { cause = inr (inr known); jobs = refl; queue = refl }))
        ]
        | inr bad ↦
            rw (create_fails w r (tick (tick s)) refl (inl bad))
              (refl, inl (record { cause = inr (inl bad); jobs = refl; queue = refl }))
      ]

  -- Whatever DuckDB and Redis answer, and whether a Redis error comes before or after the server
  -- has run the command: a submission that returns has stored its job as a new queued one under an
  -- identifier that was free, and published it behind all earlier messages. One that raises raises
  -- service_unavailable: either the identifier is blank or taken or the row is not committed, and
  -- jobs and queue are as before; or the publication has met a Redis error, its message is in the
  -- queue exactly if the server had run the command, and the job is stored, failed with the error
  -- report_queue_unavailable if the compensation commits and queued otherwise. No other job
  -- changes.
  pub submit-SubmitResult :
      (s : Shared)
      → let (outcome, s') = submit w request s in
        SubmitResult w request (w.fresh_id s.calls) s outcome s'
  unfolding submit job_id_factory ◌>>=◌
  submit-SubmitResult s = elim (Bool-cases (is_blank (w.fresh_id s.calls))) [
    | inl e ↦ rw e (refl, inl (record { cause = inl e; jobs = refl; queue = refl }))
    | inr e ↦ rw e (submit_job-SubmitResult (w.fresh_id s.calls) s e)
  ]
