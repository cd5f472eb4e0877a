-- ===== src/Jobs/Updates.antt =====
-- The statements that src/repositories/report_jobs.py sends are steps of the lifecycle, row by row.
use deepinsight.Prelude.{
  String, ◌≡◌, refl, Bool, true, Option, none, List, [], ◌∷◌, ◌++◌, arith, if◌then◌else◌,
  Bool-cases, Option-cases, inl, inr, ◌≢◌, eq_iff,
}
use deepinsight.Temporal.DateTime.{Instant}
use deepinsight.Jobs.Records.{TaskStatus, queued, is_status, ErrorInfo, ReportJobRecord}
use deepinsight.Jobs.Repository.{
  is_job_in, update, find_job, insert_row, claimed_at, claim_rows, moved_to, transition_rows,
}
use deepinsight.Jobs.Lifecycle.{
  Step, claimed, done, broken, unpublished, interrupted, here, Reach-Step, IsNew, Evolves,
  Evolves-append, HasUniqueIds, Sound, Sound-refl,
}
use deepinsight.Jobs.Does.{BodySound}

pub is_status→eq : (a b : TaskStatus) → is_status a b ≡ true → a ≡ b
is_status→eq a b h = ground arith

pub is_job_in→status :
    (job_id : String) (status : TaskStatus) (r : ReportJobRecord)
    → is_job_in job_id status r ≡ true
    → r.status ≡ status
unfolding is_job_in
is_job_in→status job_id status r h = is_status→eq r.status status (ground arith)

Step→job_id : {r r' : ReportJobRecord} → Step r r' → r'.job_id ≡ r.job_id
Step→job_id (claimed t e h) = ground arith
Step→job_id (done id t e h) = ground arith
Step→job_id (broken x t e h) = ground arith
Step→job_id (unpublished x t e h) = ground arith
Step→job_id (interrupted e h) = ground arith

-- An update whose change is a step for every row that it selects.
module _ (test : ReportJobRecord → Bool) (change : ReportJobRecord → ReportJobRecord)
    (h : (r : ReportJobRecord) → test r ≡ true → Step r (change r)) where
  update-Evolves : (rows : List ReportJobRecord) → Evolves rows (update test change rows)
  unfolding update
  update-Evolves [] = tt
  update-Evolves (r ∷ rows) = elim (Bool-cases (test r)) [
    | inl e ↦ (rw e (Reach-Step (h r e)), update-Evolves rows)
    | inr e ↦ (rw e here, update-Evolves rows)
  ]

  changed_id : (r : ReportJobRecord) → (if test r then change r else r).job_id ≡ r.job_id
  changed_id r = elim (Bool-cases (test r)) [ inl e ↦ rw e (Step→job_id (h r e)) | inr e ↦ rw e ]

  find_job-update-none :
      (id : String) (rows : List ReportJobRecord)
      → find_job id rows ≡ none
      → find_job id (update test change rows) ≡ none
  unfolding find_job update
  find_job-update-none id [] e = refl
  find_job-update-none id (r ∷ rows) e =
      rw (changed_id r) (ground (arith, find_job-update-none id rows))

  update-HasUniqueIds :
      (rows : List ReportJobRecord) → HasUniqueIds rows → HasUniqueIds (update test change rows)
  unfolding update
  update-HasUniqueIds [] u = tt
  update-HasUniqueIds (r ∷ rows) u =
      (rw (changed_id r) (find_job-update-none r.job_id rows u.0), update-HasUniqueIds rows u.1)

  pub update-Sound : (rows : List ReportJobRecord) → Sound rows (update test change rows)
  update-Sound rows = (update-Evolves rows, update-HasUniqueIds rows)

find_job-snoc :
    (id : String) (rows : List ReportJobRecord) (r : ReportJobRecord)
    → find_job id rows ≡ none
    → id ≢ r.job_id
    → find_job id (rows ++ r ∷ []) ≡ none
unfolding find_job
find_job-snoc id [] r e ne = ground (arith, eq_iff r.job_id id)
find_job-snoc id (x ∷ rows) r e ne = ground (arith, find_job-snoc id rows r)

find_job→head_ne :
    (x : ReportJobRecord) (rows : List ReportJobRecord) (id : String)
    → find_job id (x ∷ rows) ≡ none
    → (x.job_id ≢ id) × (find_job id rows ≡ none)
unfolding find_job
find_job→head_ne x rows id e = ground (arith, eq_iff x.job_id id)

append-HasUniqueIds :
    (rows : List ReportJobRecord) (r : ReportJobRecord)
    → find_job r.job_id rows ≡ none
    → HasUniqueIds rows
    → HasUniqueIds (rows ++ r ∷ [])
append-HasUniqueIds [] r e u = (unfold find_job in refl, tt)
append-HasUniqueIds (x ∷ rows) r e u =
    let (ne, e') = find_job→head_ne x rows r.job_id e in
    (find_job-snoc x.job_id rows r u.0 ne, append-HasUniqueIds rows r e' u.1)

pub transition-Sound :
    (job_id : String) (from to : TaskStatus) (report_id : Option String) (error : Option ErrorInfo)
    (t : Instant) (rows : List ReportJobRecord)
    → ((r : ReportJobRecord) → r.status ≡ from → Step r (moved_to to report_id error t r))
    → BodySound rows (transition_rows job_id from to report_id error t rows)
unfolding transition_rows
transition-Sound job_id from to report_id error t rows h =
    let evolved =
      update-Sound (is_job_in job_id from) (moved_to to report_id error t)
        (λ r e. h r (is_job_in→status job_id from r e)) rows in
    ground arith

pub claim-Sound :
    (job_id : String) (t : Instant) (rows : List ReportJobRecord)
    → BodySound rows (claim_rows job_id t rows)
unfolding claim_rows
claim-Sound job_id t rows =
    let evolved =
      update-Sound (is_job_in job_id queued) (claimed_at t)
        (λ r e. claimed t (is_job_in→status job_id queued r e) refl) rows in
    let same = Sound-refl rows in ground arith

pub insert-Sound :
    (r : ReportJobRecord) (rows : List ReportJobRecord)
    → IsNew r
    → BodySound rows (insert_row r rows)
unfolding insert_row
insert-Sound r rows new =
    let longer = Evolves-append rows r new in
    elim (Option-cases (find_job r.job_id rows)) [
      | inl e ↦ rw (e, BodySound) (longer, append-HasUniqueIds rows r e)
      | inr (x, e) ↦ rw (e, BodySound) tt
    ]
