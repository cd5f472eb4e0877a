-- ===== src/Jobs/Worker.antt =====
-- `ReportWorker` of orchestration/report_worker.py.
use deepinsight.Prelude.{
  ℕ, ℤ, suc, String, Bool, true, false, Option, none, some, List, [], ◌∷◌, if◌then◌else◌,
}
use deepinsight.Jobs.Records.{
  completed, is_status, ErrorInfo, ReportJobRecord, GenerateReportRequest, GeneratedReport,
}
use deepinsight.Jobs.Action.{World, returned, Action, pure, clock, ◌>>=◌, ◌>>◌}
use deepinsight.Jobs.Repository.{claim, complete, fail, requeue_interrupted, list_queued}
use deepinsight.Jobs.Queue.{enqueue, dequeue}

abbrev pub generation_failed : ErrorInfo
generation_failed = record {
  code = "report_generation_failed";
  message = "Report generation failed.";
  retryable = true;
}

-- The body of `try`: a report that is not completed is an exception too.
abbrev pub completed_only : Option GeneratedReport → Option GeneratedReport
completed_only none = none
completed_only (some report) = if is_status report.status completed then some report else none

unfoldable pub generated : World → GenerateReportRequest → Action (Option GeneratedReport)
generated w request s =
    (returned (completed_only (w.generate request s.calls)), record s { calls = suc s.calls })

-- The `except` and the `else` of `run_once`.
unfoldable pub finish : World → ReportJobRecord → Option GeneratedReport → Action (Unit {0})
finish w job none = do finished_at ← clock w; fail w job.job_id generation_failed finished_at
finish w job (some report) = do
  finished_at ← clock w
  complete w job.job_id report.report_id finished_at

unfoldable pub execute : World → Option ReportJobRecord → Action Bool
execute w none = pure false
execute w (some job) = do report ← generated w job.request; finish w job report; pure true

unfoldable pub run_job : World → Option String → Action Bool
run_job w none = pure false
run_job w (some job_id) = do started_at ← clock w; job ← claim w job_id started_at; execute w job

unfoldable pub run_once : World → (timeout_seconds : ℤ) → Action Bool
run_once w timeout_seconds = do job_id ← dequeue w timeout_seconds; run_job w job_id

unfoldable pub enqueue_all : World → List ReportJobRecord → Action (Unit {0})
enqueue_all w [] = pure tt
enqueue_all w (job ∷ jobs) = do enqueue w job.job_id; enqueue_all w jobs

unfoldable pub recover_interrupted : World → Action ℕ
recover_interrupted w = do
  recovered ← requeue_interrupted w
  jobs ← list_queued w
  enqueue_all w jobs
  pure recovered
