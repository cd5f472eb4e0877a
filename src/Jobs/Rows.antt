-- ===== src/Jobs/Rows.antt =====
-- How the SQL statements of repositories/report_jobs.py act on the row of one job.
use deepinsight.Prelude.{String, ◌≡◌, refl, ◌≢◌, true, some, List, [], ◌∷◌, arith, eq_iff}
use deepinsight.Jobs.Records.{TaskStatus, is_status, ReportJobRecord}
use deepinsight.Jobs.Repository.{is_job_in, select, update, find_job}

pub is_status_refl : (a b : TaskStatus) → a ≡ b → is_status a b ≡ true
is_status_refl a b e = ground arith

pub find_job→id :
    (id : String) (rows : List ReportJobRecord) (r : ReportJobRecord)
    → find_job id rows ≡ some r
    → r.job_id ≡ id
unfolding find_job
find_job→id id [] r h = cc
find_job→id id (x ∷ rows) r h = ground (arith, find_job→id id rows r, eq_iff x.job_id id)

pub find_job-select :
    (id : String) (st : TaskStatus) (rows : List ReportJobRecord) (r : ReportJobRecord)
    → find_job id rows ≡ some r
    → r.status ≡ st
    → select (is_job_in id st) rows ≢ []
unfolding find_job select is_job_in
find_job-select id st [] r h e = cc
find_job-select id st (x ∷ rows) r h e =
    ground (arith, find_job-select id st rows r, is_status_refl x.status st)

module _ (id : String) (st : TaskStatus) (change : ReportJobRecord → ReportJobRecord)
    (keeps : (r : ReportJobRecord) → (change r).job_id ≡ r.job_id) where
  pub find_job-update :
      (rows : List ReportJobRecord) (r : ReportJobRecord)
      → find_job id rows ≡ some r
      → r.status ≡ st
      → find_job id (update (is_job_in id st) change rows) ≡ some (change r)
  unfolding find_job update is_job_in
  find_job-update [] r h e = cc
  find_job-update (x ∷ rows) r h e =
      ground
        (arith, find_job-update rows r, is_status_refl x.status st, keeps x, eq_iff x.job_id id)

  pub find_job-update_ne :
      (other : String) (rows : List ReportJobRecord)
      → other ≢ id
      → find_job other (update (is_job_in id st) change rows) ≡ find_job other rows
  unfolding find_job update is_job_in
  find_job-update_ne other [] h = refl
  find_job-update_ne other (x ∷ rows) h =
      ground
        (arith, find_job-update_ne other rows, keeps x, eq_iff x.job_id other, eq_iff x.job_id id)
