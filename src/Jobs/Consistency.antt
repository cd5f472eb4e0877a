-- ===== src/Jobs/Consistency.antt =====
-- What holds of the job table after any calls.
use deepinsight.Prelude.{
  ◌<◌, ◌≤◌, String, ◌≡◌, subst, ◌≢◌, ◌⊎◌, inl, inr, none, some, List, [], ◌∷◌, All, arith,
  same_text, Bool-cases,
}
use deepinsight.Jobs.Records.{TaskStatus, queued, running, completed, failed, ReportJobRecord}
use deepinsight.Jobs.Action.{World, Shared}
use deepinsight.Jobs.Repository.{find_job}
use deepinsight.Jobs.Events.{Event, handle_all}
use deepinsight.Jobs.Lifecycle.{
  Step, claimed, done, broken, unpublished, interrupted, Reach, here, next, IsNew, Evolves,
}
use deepinsight.Jobs.Refinement.{handle_all-Evolves}

-- The columns that a row of each status has, and those that it lacks.
abbrev pub Fits : TaskStatus → ReportJobRecord → Type 0
Fits queued r =
    (r.report_id ≡ none) × (r.error ≡ none) × (r.started_at ≡ none) × (r.finished_at ≡ none)
Fits running r =
    (r.report_id ≡ none)
    × (r.error ≡ none)
    × (r.started_at ≢ none)
    × (r.finished_at ≡ none)
    × (0 < r.attempt_count)
Fits completed r =
    (r.report_id ≢ none)
    × (r.error ≡ none)
    × (r.started_at ≢ none)
    × (r.finished_at ≢ none)
    × (0 < r.attempt_count)
Fits failed r = (r.report_id ≡ none) × (r.error ≢ none) × (r.finished_at ≢ none)

abbrev pub IsConsistent : ReportJobRecord → Type 0
IsConsistent r = Fits r.status r

Step-IsConsistent : {r r' : ReportJobRecord} → Step r r' → IsConsistent r → IsConsistent r'
Step-IsConsistent (claimed t e h) c = ground arith
Step-IsConsistent (done id t e h) c = ground arith
Step-IsConsistent (broken x t e h) c = ground arith
Step-IsConsistent (unpublished x t e h) c = ground arith
Step-IsConsistent (interrupted e h) c = ground arith

Reach-IsConsistent : {r r' : ReportJobRecord} → Reach r r' → IsConsistent r → IsConsistent r'
Reach-IsConsistent here c = c
Reach-IsConsistent (next p s) c = Step-IsConsistent s (Reach-IsConsistent p c)

IsNew-IsConsistent : (r : ReportJobRecord) → IsNew r → IsConsistent r
IsNew-IsConsistent r new = ground arith

Evolves-IsConsistent :
    (rows rows' : List ReportJobRecord)
    → Evolves rows rows'
    → All IsConsistent rows
    → All IsConsistent rows'
Evolves-IsConsistent [] [] e c = tt
Evolves-IsConsistent [] (r ∷ rows) e c =
    let (r₀, new, path) = e.0 in
    (Reach-IsConsistent path (IsNew-IsConsistent r₀ new), Evolves-IsConsistent [] rows e.1 tt)
Evolves-IsConsistent (x ∷ rows) [] e c = absurd e
Evolves-IsConsistent (x ∷ rows) (y ∷ rows') e c =
    (Reach-IsConsistent e.0 c.0, Evolves-IsConsistent rows rows' e.1 c.1)

-- From a table whose rows have the columns of their status and lack those of the others, any calls
-- leave such a table.
pub handle_all-IsConsistent :
    (w : World) (s : Shared) (events : List Event)
    → All IsConsistent s.jobs
    → All IsConsistent (handle_all w s events).jobs
handle_all-IsConsistent w s events = Evolves-IsConsistent _ _ (handle_all-Evolves w s events)

-- What no call changes in a row, and what a call may only raise.
pub record Keeps (r r' : ReportJobRecord) : Type 0 where
  pub job_id : r'.job_id ≡ r.job_id
  pub request : r'.request ≡ r.request
  pub created_at : r'.created_at ≡ r.created_at
  pub attempts : r.attempt_count ≤ r'.attempt_count
  pub final : (r.status ≡ completed) ⊎ (r.status ≡ failed) → r' ≡ r

Step-Keeps : {a b c : ReportJobRecord} → Keeps a b → Step b c → Keeps a c
Step-Keeps k (claimed t e h) = ground arith
Step-Keeps k (done id t e h) = ground arith
Step-Keeps k (broken x t e h) = ground arith
Step-Keeps k (unpublished x t e h) = ground arith
Step-Keeps k (interrupted e h) = ground arith

Reach-Keeps : {r r' : ReportJobRecord} → Reach r r' → Keeps r r'
Reach-Keeps {r} here = ground arith
Reach-Keeps (next p s) = Step-Keeps (Reach-Keeps p) s

find_job-Evolves :
    (id : String) (rows rows' : List ReportJobRecord) (r : ReportJobRecord)
    → Evolves rows rows'
    → find_job id rows ≡ some r
    → (r' : ReportJobRecord) × (find_job id rows' ≡ some r') × Keeps r r'
unfolding find_job
find_job-Evolves id [] rows' r e h = cc
find_job-Evolves id (x ∷ rows) [] r e h = absurd e
find_job-Evolves id (x ∷ rows) (y ∷ rows') r e h =
    let kept = Reach-Keeps e.0 in
    let same : y.job_id ≡ x.job_id = kept.job_id in
    elim (Bool-cases (same_text x.job_id id)) [
      | inl found ↦
          let this : x ≡ r = ground arith in (y, rw (same, found), subst (λ z. Keeps z y) this kept)
      | inr other ↦
          let (r', at, keeps) = find_job-Evolves id rows rows' r e.1 (ground arith) in
          (r', rw (same, other) at, keeps)
    ]

-- A job that is in the table stays there, whatever the calls, with its identifier, its request and
-- its creation time; its attempts never fall; and once it is completed or failed nothing changes
-- it.
pub handle_all-Keeps :
    (w : World) (s : Shared) (events : List Event) (id : String) (r : ReportJobRecord)
    → find_job id s.jobs ≡ some r
    → (r' : ReportJobRecord) × (find_job id (handle_all w s events).jobs ≡ some r') × Keeps r r'
handle_all-Keeps w s events id r = find_job-Evolves id _ _ r (handle_all-Evolves w s events)
