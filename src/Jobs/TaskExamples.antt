-- ===== src/Jobs/TaskExamples.antt =====
-- Tests and instances for `InProcessReportTaskService` of api/services.py.
use deepinsight.Prelude.{String, ◌≡◌, refl, Option, none, some, [], ◌∷◌, ◌++◌, is_blank}
use deepinsight.Jobs.Records.{queued, running, TaskStatusResponse}
use deepinsight.Jobs.Tasks.{
  Tasks, get_task, put_task, status_only, accepted, unavailable, submit_task, start_task,
  failed_with, Generation, delivered, other_error, terminal, finish_task, run_task, Service,
  submits, starts, ends, Reaches, nothing, then_step,
}
use deepinsight.Jobs.TaskStates.{IsValid, Advances, Reaches-IsValid}
use deepinsight.Jobs.TaskRuns.{at_rest, then_beside, IsRun, run_task_ends}
use deepinsight.Jobs.Worker.{generation_failed}

program : Unit {0}
unfolding is_blank get_task put_task submit_task start_task terminal finish_task run_task
program = tt

abbrev one_queued : Tasks
one_queued = ("job_1", status_only "job_1" queued) ∷ []

submitted_once : submit_task "job_1" [] ≡ accepted (status_only "job_1" queued) one_queued
unfolding program
submitted_once = refl

submitted_twice : submit_task "job_1" one_queued ≡ unavailable
unfolding program
submitted_twice = refl

blank_refused : submit_task " " [] ≡ unavailable
unfolding program
blank_refused = refl

run_of_unknown : run_task "job_2" other_error one_queued ≡ one_queued
unfolding program
run_of_unknown = refl

abbrev unfinished_report : Generation
unfinished_report = delivered (record { report_id = "report_1"; status = queued })

abbrev unfinished_status : Option TaskStatusResponse → Option String
unfinished_status none = none
unfinished_status (some v) = v.report_id

unfinished_fails :
    unfinished_status (get_task "job_1" (run_task "job_1" unfinished_report one_queued)) ≡ none
unfolding program
unfinished_fails = refl

abbrev started_1 : Tasks
started_1 = ("job_1", status_only "job_1" running) ∷ []

started_once : start_task "job_1" one_queued ≡ some started_1
unfolding program
started_once = refl

abbrev empty_service : Service
empty_service = record { tasks = []; active = [] }

abbrev last_service : Service
last_service = record { tasks = finish_task "job_1" other_error started_1; active = [] ++ [] }

-- A submission, the start of its run, and its end.
a_run : Reaches empty_service last_service
a_run =
    then_step
      (then_step (then_step nothing (submits "job_1" submitted_once)) (starts "job_1" started_once))
      (ends "job_1" other_error [] [])

empty-IsValid : IsValid empty_service
unfolding get_task
empty-IsValid = record { states = λ id v h. cc h; runs = λ id m. absurd m }

Reaches-IsValid_example : IsValid last_service × Advances empty_service last_service
Reaches-IsValid_example = Reaches-IsValid empty_service last_service a_run empty-IsValid

-- A report that is not completed fails its task; then another task is submitted.
abbrev ran : Tasks
ran = ("job_1", failed_with "job_1" generation_failed) ∷ []

abbrev ran_beside : Tasks
ran_beside = ran ++ ("job_2", status_only "job_2" queued) ∷ []

submitted_beside : submit_task "job_2" ran ≡ accepted (status_only "job_2" queued) ran_beside
unfolding program
submitted_beside = refl

run_task_ends_example :
    IsRun "job_1" unfinished_report one_queued (record { tasks = ran_beside; active = [] })
unfolding program
run_task_ends_example =
    run_task_ends "job_1" unfinished_report one_queued []
      (record { tasks = ran_beside; active = [] })
      (then_beside at_rest (submits "job_2" submitted_beside) tt)
