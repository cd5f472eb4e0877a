-- ===== src/Jobs/Service.antt =====
-- `DurableReportTaskService` of api/services.py.
use deepinsight.Prelude.{String, true, Option, none, some, is_blank, if◌then◌else◌}
use deepinsight.Jobs.Records.{
  queued, ErrorInfo, ReportJobRecord, GenerateReportRequest, TaskStatusResponse,
}
use deepinsight.Temporal.DateTime.{Instant}
use deepinsight.Jobs.Action.{
  World, JobError, repository_error, job_queue_error, service_unavailable, Outcome, returned,
  raised, Action, pure, throw, except, clock, job_id_factory, ◌>>=◌, ◌>>◌,
}
use deepinsight.Jobs.Repository.{create, get, fail_queued}
use deepinsight.Jobs.Queue.{enqueue}

abbrev pub queue_unavailable : ErrorInfo
queue_unavailable = record {
  code = "report_queue_unavailable";
  message = "Report task queue is unavailable.";
  retryable = true;
}

abbrev pub new_job : String → GenerateReportRequest → Instant → ReportJobRecord
new_job job_id request created_at = record {
  job_id = job_id;
  request = request;
  status = queued;
  report_id = none;
  error = none;
  attempt_count = 0;
  created_at = some created_at;
  started_at = none;
  finished_at = none;
}

-- `except RepositoryError`, `except JobQueueError`; another exception passes.
unfoldable pub on_repository_error : JobError → Action (Unit {0})
on_repository_error repository_error = throw service_unavailable
on_repository_error e = throw e

-- The compensation for a job whose identifier could not be published.
unfoldable pub compensate : World → String → JobError → Action (Unit {0})
compensate w job_id job_queue_error = do
  finished_at ← clock w
  except (fail_queued w job_id queue_unavailable finished_at) on_repository_error
  throw service_unavailable
compensate w job_id e = throw e

unfoldable pub submit_job : World → GenerateReportRequest → String → Action TaskStatusResponse
submit_job w request job_id = do
  created_at ← clock w
  except (create w (new_job job_id request created_at)) on_repository_error
  except (enqueue w job_id) (compensate w job_id)
  pure (record { job_id = job_id; status = queued; report_id = none; error = none })

unfoldable pub submit : World → GenerateReportRequest → Action TaskStatusResponse
submit w request = do
  job_id ← job_id_factory w
  if is_blank job_id then throw service_unavailable else submit_job w request job_id

abbrev response_of : Option ReportJobRecord → Option TaskStatusResponse
response_of none = none
response_of (some row) = some (record {
  job_id = row.job_id;
  status = row.status;
  report_id = row.report_id;
  error = row.error;
})

unfoldable pub status_of : Outcome (Option ReportJobRecord) → Outcome (Option TaskStatusResponse)
status_of (returned row) = returned (response_of row)
status_of (raised repository_error) = raised service_unavailable
status_of (raised e) = raised e

unfoldable pub get_status : World → String → Action (Option TaskStatusResponse)
get_status w job_id s = let (r, s') = get w job_id s in (status_of r, s')
