-- ===== src/Jobs/TaskRuns.antt =====
-- A run of `InProcessReportTaskService`, and what the other threads may do to its task afterwards.
use deepinsight.Prelude.{
  String, ◌≡◌, ◌≢◌, refl, sym, ap, ◌∙◌, none, some, List, inl, inr, ◌⊎◌, arith, Bool-cases,
  Option-cases,
}
use deepinsight.Jobs.Records.{
  queued, completed, failed, running, is_status, ErrorInfo, TaskStatusResponse,
}
use deepinsight.Jobs.Updates.{is_status→eq}
use deepinsight.Jobs.Rows.{is_status_refl}
use deepinsight.Jobs.Worker.{generation_failed}
use deepinsight.Jobs.Tasks.{
  Tasks, get_task, put_task, status_only, start_task, Generation, delivered, api_error, other_error,
  terminal, finish_task, run_task, Service, ServiceStep, submits, starts, ends,
}
use deepinsight.Jobs.TaskStates.{get_task-put_task, get_task-put_task_ne, submit_lem, start_lem}

-- The state of a task that has failed with an error.
abbrev pub HasFailed : ErrorInfo → TaskStatusResponse → Type 0
HasFailed e v = (v.status ≡ failed) × (v.report_id ≡ none) × (v.error ≡ some e)

-- What a generation makes of its task: a completed report completes it, and a report that is not
-- completed and every exception fail it, an ApiError with its own information.
abbrev pub IsEnded : String → Generation → TaskStatusResponse → Type 0
IsEnded id (delivered report) v =
    (v.job_id ≡ id)
    × (((report.status ≡ completed)
          × (v.status ≡ completed)
          × (v.report_id ≡ some report.report_id)
          × (v.error ≡ none))
        ⊎ ((report.status ≢ completed) × HasFailed generation_failed v))
IsEnded id (api_error e) v = (v.job_id ≡ id) × HasFailed e v
IsEnded id other_error v = (v.job_id ≡ id) × HasFailed generation_failed v

terminal-IsEnded : (id : String) (g : Generation) → IsEnded id g (terminal id g)
unfolding terminal
terminal-IsEnded id (delivered report) = elim (Bool-cases (is_status report.status completed)) [
  | inl e ↦ rw e (refl, inl (is_status→eq report.status completed e, refl, refl, refl))
  | inr e ↦
      rw e (
        refl,
        inr (λ same. cc (is_status_refl report.status completed same, e), (refl, refl, refl)),
      )
]
terminal-IsEnded id (api_error e) = (refl, (refl, refl, refl))
terminal-IsEnded id other_error = (refl, (refl, refl, refl))

-- Steps of any threads in which no run of that task starts or ends.
abbrev pub IsBeside : {s t : Service} → String → ServiceStep s t → Type 0
IsBeside id (submits job_id h) = Unit
IsBeside id (starts job_id h) = id ≢ job_id
IsBeside id (ends job_id generation before after) = id ≢ job_id

pub data ReachesBeside (id : String) : Service → Service → Type 0 where
  at_rest : {s : Service} → ReachesBeside id s s
  then_beside :
      {s t u : Service}
      → ReachesBeside id s t
      → (step : ServiceStep t u) → IsBeside id step
      → ReachesBeside id s u

-- Such a step keeps the state of a task that is in the table.
step-keeps :
    (id : String) (v : TaskStatusResponse) (s t : Service) (step : ServiceStep s t)
    → IsBeside id step
    → get_task id s.tasks ≡ some v
    → get_task id t.tasks ≡ some v
unfolding finish_task
step-keeps id v s t (submits {status = status} {tasks = tasks} job_id h) beside e =
    let (free, made) = submit_lem job_id s.tasks tasks status h in
    ap (get_task id) (sym made)
    ∙ (get_task-put_task_ne job_id (status_only job_id queued) id (λ same. cc (same, free, e))
          s.tasks
        ∙ e)
step-keeps id v s t (starts {tasks = tasks} job_id h) beside e =
    ap (get_task id) (sym (start_lem job_id s.tasks tasks h))
    ∙ (get_task-put_task_ne job_id (status_only job_id running) id beside s.tasks ∙ e)
step-keeps id v s t (ends {tasks = tasks} job_id g before after) beside e =
    get_task-put_task_ne job_id (terminal job_id g) id beside tasks ∙ e

steps_keep :
    (id : String) (v : TaskStatusResponse) (s t : Service)
    → ReachesBeside id s t
    → get_task id s.tasks ≡ some v
    → get_task id t.tasks ≡ some v
steps_keep id v s t at_rest e = e
steps_keep id v s t (then_beside {t = m} path step beside) e =
    step-keeps id v m t step beside (steps_keep id v s m path e)

run_task-none :
    (id : String) (g : Generation) (tasks : Tasks)
    → get_task id tasks ≡ none
    → run_task id g tasks ≡ tasks
unfolding run_task start_task
run_task-none id g tasks h = ground arith

run_task-some :
    (id : String) (g : Generation) (tasks : Tasks) (v : TaskStatusResponse)
    → get_task id tasks ≡ some v
    → run_task id g tasks ≡ put_task id (terminal id g) (put_task id (status_only id running) tasks)
unfolding run_task start_task finish_task
run_task-some id g tasks v h = ground arith

-- The two ways of a run, and what holds later.
pub record IsRun (id : String) (g : Generation) (tasks : Tasks) (t : Service) : Type 0 where
  pub outcome :
      ((get_task id tasks ≡ none) × (run_task id g tasks ≡ tasks))
      ⊎ ((get_task id tasks ≢ none)
          × ((v : TaskStatusResponse) × (get_task id t.tasks ≡ some v) × IsEnded id g v))
  pub others :
      (other : String) → other ≢ id → get_task other (run_task id g tasks) ≡ get_task other tasks

-- A run of an unknown task in the in-process service leaves the table as it is. A run of a known
-- task, by itself, leaves it completed with the report if the generator delivers a completed one,
-- and otherwise failed: with the information of an ApiError, or with the error
-- report_generation_failed for any other exception and for a report that is not completed. It
-- changes no other task, and the task then stays so through the accepted submissions and the runs
-- of other threads, until a run of it starts or ends.
pub run_task_ends :
    (id : String) (g : Generation) (tasks : Tasks) (active : List String) (t : Service)
    → ReachesBeside id (record { tasks = run_task id g tasks; active = active }) t
    → IsRun id g tasks t
run_task_ends id g tasks active t path = elim (Option-cases (get_task id tasks)) [
  | inl e ↦
      let same = run_task-none id g tasks e in
      record { outcome = inl (e, same); others = λ other ne. ap (get_task other) same }
  | inr (v, e) ↦
      let started = put_task id (status_only id running) tasks in
      let ran = run_task-some id g tasks v e in
      let ended = ap (get_task id) ran ∙ get_task-put_task id (terminal id g) started in
      record {
        outcome = inr (
          λ n. cc,
          (terminal id g, steps_keep id (terminal id g) _ t path ended, terminal-IsEnded id g),
        );
        others = λ other ne.
            ap (get_task other) ran
            ∙ (get_task-put_task_ne id (terminal id g) other ne started
                ∙ get_task-put_task_ne id (status_only id running) other ne tasks);
      }
]
