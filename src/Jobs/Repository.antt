-- ===== src/Jobs/Repository.antt =====
-- repositories/report_jobs.py. The table is the list of its rows; SQL statements are functions of it.
use deepinsight.Prelude.{
  ℕ, ◌+◌, String, Bool, true, false, ◌&&◌, ◌||◌, Option, none, some, List, [], ◌∷◌, ◌++◌, same_text,
  text_lt, ltb, ◌==◌, if◌then◌else◌, length,
}
use deepinsight.Temporal.DateTime.{Instant}
use deepinsight.Jobs.Records.{
  TaskStatus, queued, running, completed, failed, is_status, ErrorInfo, ReportJobRecord,
}
use deepinsight.Jobs.Action.{
  World, repository_error, Outcome, returned, raised, Action, transaction,
}

-- WHERE job_id = ? AND status = ?
unfoldable pub is_job_in : String → TaskStatus → ReportJobRecord → Bool
is_job_in job_id status row = same_text row.job_id job_id && is_status row.status status

module _ (test : ReportJobRecord → Bool) where
  -- The rows that a WHERE clause selects, in order.
  unfoldable pub select : List ReportJobRecord → List ReportJobRecord
  select [] = []
  select (r ∷ rows) = let rest = select rows in if test r then r ∷ rest else rest

  -- UPDATE report_jobs SET ... WHERE ...
  unfoldable pub update :
      (ReportJobRecord → ReportJobRecord) → List ReportJobRecord → List ReportJobRecord
  update change [] = []
  update change (r ∷ rows) = (if test r then change r else r) ∷ update change rows

-- fetchone()
abbrev pub first {ℓ} : {A : Type ℓ} → List A → Option A
first [] = none
first (x ∷ xs) = some x

unfoldable pub find_job : String → List ReportJobRecord → Option ReportJobRecord
find_job job_id [] = none
find_job job_id (r ∷ rows) = if same_text r.job_id job_id then some r else find_job job_id rows

-- INSERT. DuckDB refuses a second row of an identifier, since repositories/schema.py declares
-- `job_id VARCHAR PRIMARY KEY` for the table.
unfoldable pub insert_row :
    ReportJobRecord → List ReportJobRecord → Outcome (Unit {0} × List ReportJobRecord)
insert_row row rows = elim (find_job row.job_id rows) [
  | some r ↦ raised repository_error
  | none ↦ returned (tt, rows ++ row ∷ [])
]

-- COALESCE(?, CURRENT_TIMESTAMP)
abbrev pub coalesce : Option Instant → Instant → Option Instant
coalesce none now = some now
coalesce (some t) now = some t

abbrev pub stamped : ReportJobRecord → Instant → ReportJobRecord
stamped row now = record row { created_at = coalesce row.created_at now }

unfoldable pub create : World → ReportJobRecord → Action (Unit {0})
create w row s =
    if is_status row.status queued
    then transaction w (insert_row (stamped row (w.now s.calls))) s
    else (raised repository_error, s)

unfoldable pub get : World → String → Action (Option ReportJobRecord)
get w job_id = transaction w (λ rows. returned (find_job job_id rows, rows))

abbrev pub claimed_at : Instant → ReportJobRecord → ReportJobRecord
claimed_at started_at row = record row {
  status = running;
  error = none;
  attempt_count = row.attempt_count + 1;
  started_at = some started_at;
  finished_at = none;
}

-- The update returns no row, or the row is read again within the transaction.
unfoldable pub claim_rows :
    String
    → Instant
    → List ReportJobRecord
    → Outcome (Option ReportJobRecord × List ReportJobRecord)
claim_rows job_id started_at rows =
    let after = update (is_job_in job_id queued) (claimed_at started_at) rows in
    elim (select (is_job_in job_id queued) rows) [
      | [] ↦ returned (none, rows)
      | r ∷ rest ↦ elim (find_job job_id after) [
        | none ↦ raised repository_error
        | some row ↦ returned (some row, after)
      ]
    ]

unfoldable pub claim : World → String → Instant → Action (Option ReportJobRecord)
claim w job_id started_at = transaction w (claim_rows job_id started_at)

abbrev pub moved_to :
    TaskStatus → Option String → Option ErrorInfo → Instant → ReportJobRecord → ReportJobRecord
moved_to status report_id error finished_at row = record row {
  status = status;
  report_id = report_id;
  error = error;
  finished_at = some finished_at;
}

unfoldable pub transition_rows :
    String
    → (expected_status status : TaskStatus) → Option String
    → Option ErrorInfo
    → Instant
    → List ReportJobRecord
    → Outcome (Unit {0} × List ReportJobRecord)
transition_rows job_id expected_status status report_id error finished_at rows =
    elim (select (is_job_in job_id expected_status) rows) [
      | [] ↦ raised repository_error
      | r ∷ rest ↦ returned (
        tt,
        update (is_job_in job_id expected_status) (moved_to status report_id error finished_at)
            rows,
      )
    ]

unfoldable pub complete : World → String → (report_id : String) → Instant → Action (Unit {0})
complete w job_id report_id finished_at =
    transaction w (transition_rows job_id running completed (some report_id) none finished_at)

unfoldable pub fail : World → String → ErrorInfo → Instant → Action (Unit {0})
fail w job_id error finished_at =
    transaction w (transition_rows job_id running failed none (some error) finished_at)

unfoldable pub fail_queued : World → String → ErrorInfo → Instant → Action (Unit {0})
fail_queued w job_id error finished_at =
    transaction w (transition_rows job_id queued failed none (some error) finished_at)

abbrev pub is_in : TaskStatus → ReportJobRecord → Bool
is_in status row = is_status row.status status

abbrev pub requeued : ReportJobRecord → ReportJobRecord
requeued row = record row { status = queued; error = none; started_at = none; finished_at = none }

unfoldable pub requeue_interrupted : World → Action ℕ
requeue_interrupted w =
    transaction w
      λ rows. returned (length (select (is_in running) rows), update (is_in running) requeued rows)

-- ORDER BY created_at, job_id; a NULL comes last.
unfoldable pub created_before : ReportJobRecord → ReportJobRecord → Bool
created_before a b = elim a.created_at [
  | none ↦ elim b.created_at [ none ↦ text_lt a.job_id b.job_id | some u ↦ false ]
  | some t ↦ elim b.created_at [
    | none ↦ true
    | some u ↦ ltb t u || (t == u && text_lt a.job_id b.job_id)
  ]
]

unfoldable pub insert_ordered : ReportJobRecord → List ReportJobRecord → List ReportJobRecord
insert_ordered row [] = row ∷ []
insert_ordered row (r ∷ rows) =
    if created_before r row then r ∷ insert_ordered row rows else row ∷ r ∷ rows

unfoldable pub order_rows : List ReportJobRecord → List ReportJobRecord
order_rows [] = []
order_rows (r ∷ rows) = insert_ordered r (order_rows rows)

unfoldable pub list_queued : World → Action (List ReportJobRecord)
list_queued w = transaction w (λ rows. returned (order_rows (select (is_in queued) rows), rows))
