-- ===== src/Jobs/Tasks.antt =====
-- `InProcessReportTaskService` of api/services.py: a dictionary of task states behind a lock. Each
-- locked block is one function.
use deepinsight.Prelude.{
  String, Option, none, some, List, [], ◌∷◌, ◌++◌, ◌≡◌, same_text, is_blank, if◌then◌else◌,
}
use deepinsight.Jobs.Records.{
  TaskStatus, queued, running, completed, failed, is_status, ErrorInfo, GeneratedReport,
  TaskStatusResponse,
}
use deepinsight.Jobs.Worker.{generation_failed}

abbrev pub Tasks : Type 0
Tasks = List (String × TaskStatusResponse)

-- `self._jobs.get(job_id)`
unfoldable pub get_task : String → Tasks → Option TaskStatusResponse
get_task job_id [] = none
get_task job_id ((k, v) ∷ tasks) = if same_text k job_id then some v else get_task job_id tasks

-- `self._jobs[job_id] = status`
unfoldable pub put_task : String → TaskStatusResponse → Tasks → Tasks
put_task job_id status [] = (job_id, status) ∷ []
put_task job_id status ((k, v) ∷ tasks) =
    let rest = put_task job_id status tasks in
    if same_text k job_id then (k, status) ∷ tasks else (k, v) ∷ rest

abbrev pub status_only : String → TaskStatus → TaskStatusResponse
status_only job_id status = record {
  job_id = job_id;
  status = status;
  report_id = none;
  error = none;
}

-- A submission returns the new state and the table, or raises service_unavailable.
pub data Submitted : Type 0 where
  accepted : TaskStatusResponse → Tasks → Submitted
  unavailable : Submitted

unfoldable pub submit_task : (job_id : String) → Tasks → Submitted
submit_task job_id tasks = if is_blank job_id then unavailable else elim (get_task job_id tasks) [
  | some status ↦ unavailable
  | none ↦ accepted (status_only job_id queued) (put_task job_id (status_only job_id queued) tasks)
]

-- The first locked block of `run`; none if it returns at once.
unfoldable pub start_task : String → Tasks → Option Tasks
start_task job_id tasks = elim (get_task job_id tasks) [
  | none ↦ none
  | some status ↦ some (put_task job_id (status_only job_id running) tasks)
]

-- What the generator does: it returns, raises an ApiError, or raises another exception.
pub data Generation : Type 0 where
  delivered : GeneratedReport → Generation
  api_error : ErrorInfo → Generation
  other_error : Generation

abbrev pub failed_with : String → ErrorInfo → TaskStatusResponse
failed_with job_id error = record {
  job_id = job_id;
  status = failed;
  report_id = none;
  error = some error;
}

unfoldable pub terminal : String → Generation → TaskStatusResponse
terminal job_id (delivered report) =
    if is_status report.status completed
    then record {
      job_id = job_id;
      status = completed;
      report_id = some report.report_id;
      error = none;
    }
    else failed_with job_id generation_failed
terminal job_id (api_error error) = failed_with job_id error
terminal job_id other_error = failed_with job_id generation_failed

-- The last locked block of `run`.
unfoldable pub finish_task : String → Generation → Tasks → Tasks
finish_task job_id generation tasks = put_task job_id (terminal job_id generation) tasks

-- `run`, where nothing else happens meanwhile.
unfoldable pub run_task : String → Generation → Tasks → Tasks
run_task job_id generation tasks = elim (start_task job_id tasks) [
  | none ↦ tasks
  | some started ↦ finish_task job_id generation started
]

-- The service with its unfinished runs: calls of several threads, interleaved at the lock.
pub record Service : Type 0 where
  pub tasks : Tasks
  pub active : List String

pub data ServiceStep : Service → Service → Type 0 where
  submits :
      {s : Service} {status : TaskStatusResponse} {tasks : Tasks}
      → (job_id : String) → submit_task job_id s.tasks ≡ accepted status tasks
      → ServiceStep s (record s { tasks = tasks })
  starts :
      {s : Service} {tasks : Tasks}
      → (job_id : String) → start_task job_id s.tasks ≡ some tasks
      → ServiceStep s (record { tasks = tasks; active = job_id ∷ s.active })
  ends :
      {tasks : Tasks}
      → (job_id : String) (generation : Generation) (before after : List String)
      → ServiceStep
          (record { tasks = tasks; active = before ++ job_id ∷ after })
          (record { tasks = finish_task job_id generation tasks; active = before ++ after })

pub data Reaches : Service → Service → Type 0 where
  nothing : {s : Service} → Reaches s s
  then_step : {s t u : Service} → Reaches s t → ServiceStep t u → Reaches s u
