-- ===== src/Jobs/Examples.antt =====
-- Tests and instances for the report jobs.
use deepinsight.Prelude.{
  pos, String, ◌≡◌, refl, ◌≢◌, true, false, none, some, List, [], ◌∷◌, ◌++◌, map, All, is_blank,
  text_lt, length,
}
use mathlib.Core.List.{Perm}
use deepinsight.Jobs.Records.{
  queued, running, completed, failed, us, single_asset, GenerateReportRequest, ReportJobRecord,
  GeneratedReport,
}
use deepinsight.Jobs.Action.{
  answered, failed_before, failed_after, utf8, Shared, World, returned, raised, service_unavailable,
  except, clock, job_id_factory, ◌>>=◌, transaction,
}
use deepinsight.Jobs.Repository.{
  is_job_in, select, update, find_job, insert_row, create, claim_rows, claim, transition_rows,
  complete, fail, fail_queued, is_in, requeue_interrupted, created_before, insert_ordered,
  order_rows, list_queued, claimed_at,
}
use deepinsight.Jobs.Queue.{enqueue, dequeue}
use deepinsight.Jobs.Fifo.{enqueue_each, dequeue_each, answers, dequeue_each-enqueue_each}
use deepinsight.Jobs.Worker.{
  generated, finish, execute, run_job, run_once, enqueue_all, recover_interrupted,
}
use deepinsight.Jobs.Service.{on_repository_error, compensate, submit_job, submit}
use deepinsight.Jobs.Events.{Event, submitted, worked, recovered, handle_all}
use deepinsight.Jobs.Lifecycle.{Evolves, HasUniqueIds}
use deepinsight.Jobs.Refinement.{handle_all-Evolves, handle_all-HasUniqueIds}
use deepinsight.Jobs.Consistency.{IsConsistent, handle_all-IsConsistent, Keeps, handle_all-Keeps}
use deepinsight.Jobs.Execution.{Answers, executed, run_once_executes}
use deepinsight.Jobs.Skipping.{IsNotQueued, run_once_skips}
use deepinsight.Jobs.Submission.{SubmitResult, submit-SubmitResult}
use deepinsight.Jobs.Recovery.{IsOrdered, message_of, recover_interrupted_republishes}

program : Unit {0}
unfolding is_blank text_lt is_job_in select update find_job insert_row create claim_rows claim
    transition_rows complete fail fail_queued requeue_interrupted created_before insert_ordered
    order_rows list_queued enqueue dequeue generated finish execute run_job run_once enqueue_all
    recover_interrupted on_repository_error compensate submit_job submit except clock job_id_factory
    transaction ◌>>=◌ handle_all
program = tt

abbrev request : GenerateReportRequest
request = record {
  report_date = 739_000;
  market_scope = us;
  report_type = single_asset;
  asset_ids = some ("US:AAPL" ∷ []);
  language = "en";
  include_sections = "summary" ∷ [];
  force_refresh = false;
}

abbrev report : GeneratedReport
report = record { report_id = "report_1"; status = completed }

-- Every call answers, and the clock tells the number of the call.
abbrev calm : World
calm = record {
  commits = λ n. true;
  redis = λ n. answered;
  now = λ n. n;
  fresh_id = λ n. "job_1";
  generate = λ r n. some report;
}

-- Redis never answers.
abbrev no_redis : World
no_redis = record calm { redis = λ n. failed_before }

-- Redis runs every command, and its answer is lost.
abbrev late_redis : World
late_redis = record calm { redis = λ n. failed_after }

calm-Answers : Answers calm
calm-Answers = record { commits = λ n. refl; redis = λ n. refl }

abbrev empty : Shared
empty = record { jobs = []; queue = []; calls = 0 }

abbrev waiting_job : ReportJobRecord
waiting_job = record {
  job_id = "job_1";
  request = request;
  status = queued;
  report_id = none;
  error = none;
  attempt_count = 0;
  created_at = some 1;
  started_at = none;
  finished_at = none;
}

abbrev one_waiting : Shared
one_waiting = record {
  jobs = waiting_job ∷ [];
  queue = utf8 "job_1" ∷ utf8 "job_1" ∷ [];
  calls = 0;
}

abbrev running_job : ReportJobRecord
running_job = claimed_at 5 waiting_job

abbrev one_running : Shared
one_running = record { jobs = running_job ∷ []; queue = utf8 "job_1" ∷ []; calls = 0 }

submit-calm : submit calm request empty ≡ (
  returned (record { job_id = "job_1"; status = queued; report_id = none; error = none }),
  record { jobs = waiting_job ∷ []; queue = utf8 "job_1" ∷ []; calls = 4 },
)
unfolding program
submit-calm = refl

submit-late_redis :
    let (outcome, s') = submit late_redis request empty in
    (outcome ≡ raised service_unavailable)
    × (s'.queue ≡ utf8 "job_1" ∷ [])
    × (map (λ r. r.status) s'.jobs ≡ failed ∷ [])
unfolding program
submit-late_redis = (refl, refl, refl)

submit-no_redis : (submit no_redis request empty).0 ≡ raised service_unavailable
unfolding program
submit-no_redis = refl

statuses :
    (handle_all calm empty (submitted request ∷ worked (pos 5) ∷ [])).jobs
    ≡ record (claimed_at 5 waiting_job) {
      status = completed;
      report_id = some "report_1";
      finished_at = some 8;
    }
      ∷ []
unfolding program
statuses = refl

found_one : find_job "job_1" (waiting_job ∷ []) ≡ some waiting_job
unfolding find_job
found_one = refl

found_running : find_job "job_1" (running_job ∷ []) ≡ some running_job
unfolding find_job
found_running = refl

not_blank : is_blank "job_1" ≡ false
unfolding is_blank
not_blank = refl

abbrev events : List Event
events = submitted request ∷ worked (pos 5) ∷ recovered ∷ []

handle_all-Evolves_example : Evolves one_waiting.jobs (handle_all calm one_waiting events).jobs
handle_all-Evolves_example = handle_all-Evolves calm one_waiting events

unique_one : HasUniqueIds (running_job ∷ [])
unfolding find_job
unique_one = (refl, tt)

handle_all-HasUniqueIds_example : HasUniqueIds (handle_all calm one_running events).jobs
handle_all-HasUniqueIds_example = handle_all-HasUniqueIds calm one_running events unique_one

handle_all-IsConsistent_example : All IsConsistent (handle_all calm one_waiting events).jobs
handle_all-IsConsistent_example =
    handle_all-IsConsistent calm one_waiting events ((refl, refl, refl, refl), tt)

handle_all-Keeps_example :
    (r' : ReportJobRecord) × (find_job "job_1" (handle_all calm one_waiting events).jobs ≡ some r')
    × Keeps waiting_job r'
handle_all-Keeps_example = handle_all-Keeps calm one_waiting events "job_1" waiting_job found_one

run_once_executes_example :
    ((run_once calm (pos 5) one_waiting).0 ≡ returned true)
    × ((run_once calm (pos 5) one_waiting).1.queue ≡ utf8 "job_1" ∷ [])
    × (find_job "job_1" (run_once calm (pos 5) one_waiting).1.jobs
        ≡ some (executed (some report) 1 4 waiting_job))
    × ((other : String)
        → other ≢ "job_1"
        → find_job other (run_once calm (pos 5) one_waiting).1.jobs
          ≡ find_job other (waiting_job ∷ []))
run_once_executes_example =
    run_once_executes calm calm-Answers (pos 5) one_waiting "job_1" (utf8 "job_1" ∷ []) waiting_job
      (some report) refl not_blank refl found_one refl (refl, refl)

idle_job : IsNotQueued (find_job "job_1" (running_job ∷ []))
idle_job = rw found_running (λ e. cc)

run_once_skips_example :
    run_once calm (pos 5) one_running
    ≡ (returned false, record { jobs = running_job ∷ []; queue = []; calls = 3 })
run_once_skips_example =
    run_once_skips calm calm-Answers (pos 5) one_running "job_1" [] refl not_blank refl unique_one
      idle_job

-- The publication is lost after it was made: the job is failed, and its message is in the queue.
submit-SubmitResult_example :
    let (outcome, s') = submit late_redis request empty in
    SubmitResult late_redis request "job_1" empty outcome s'
submit-SubmitResult_example = submit-SubmitResult late_redis request empty

recover_interrupted_republishes_example :
    ((recover_interrupted calm one_running).0
      ≡ returned (length (select (is_in running) (running_job ∷ []))))
    × All (λ r. r.status ≢ running) (recover_interrupted calm one_running).1.jobs
    × ((rows : List ReportJobRecord) × Perm rows
          (select (is_in queued) (recover_interrupted calm one_running).1.jobs)
        × IsOrdered rows
        × ((recover_interrupted calm one_running).1.queue
            ≡ (utf8 "job_1" ∷ []) ++ map message_of rows))
recover_interrupted_republishes_example =
    recover_interrupted_republishes calm calm-Answers one_running (not_blank, tt)

dequeue_each-enqueue_each_example :
    let s' = (enqueue_each calm ("job_3" ∷ "job_4" ∷ []) one_running).1 in
    ((enqueue_each calm ("job_3" ∷ "job_4" ∷ []) one_running).0 ≡ returned tt)
    × ((dequeue_each calm (pos 5) 3 s').0 ≡ returned (answers ("job_1" ∷ "job_3" ∷ "job_4" ∷ [])))
    × ((dequeue_each calm (pos 5) 3 s').1.queue ≡ [])
unfolding is_blank
dequeue_each-enqueue_each_example =
    dequeue_each-enqueue_each calm (λ n. refl) ("job_1" ∷ []) ("job_3" ∷ "job_4" ∷ []) 5 one_running
      (refl, tt) (refl, (refl, tt)) refl
