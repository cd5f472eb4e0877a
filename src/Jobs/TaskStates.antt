-- ===== src/Jobs/TaskStates.antt =====
-- Whatever the threads of `InProcessReportTaskService` do, no task is lost and each state is consistent.
use deepinsight.Prelude.{
  String, ◌≡◌, ◌≢◌, refl, sym, subst, ◌∙◌, Option, none, some, List, [], ◌∷◌, ◌++◌, eq_iff, arith,
  In, inl, inr, ◌⊎◌, In-append, Bool-cases,
}
use deepinsight.Jobs.Records.{
  TaskStatus, queued, running, completed, failed, is_status, ErrorInfo, TaskStatusResponse,
}
use deepinsight.Jobs.Tasks.{
  Tasks, get_task, put_task, status_only, accepted, submit_task, start_task, Generation, delivered,
  api_error, other_error, terminal, finish_task, Service, ServiceStep, submits, starts, ends,
  Reaches, nothing, then_step,
}

module _ (id : String) (v : TaskStatusResponse) where
  pub get_task-put_task : (tasks : Tasks) → get_task id (put_task id v tasks) ≡ some v
  unfolding get_task put_task
  get_task-put_task [] = ground (arith, eq_iff id id)
  get_task-put_task ((k, u) ∷ tasks) = ground (arith, get_task-put_task tasks)

  pub get_task-put_task_ne :
      (other : String)
      → other ≢ id
      → (tasks : Tasks) → get_task other (put_task id v tasks) ≡ get_task other tasks
  unfolding get_task put_task
  get_task-put_task_ne other ne [] = ground (arith, eq_iff id other)
  get_task-put_task_ne other ne ((k, u) ∷ tasks) =
      ground (arith, get_task-put_task_ne other ne tasks, eq_iff k id, eq_iff k other)

-- A report exactly if completed, an error exactly if failed.
abbrev pub HasResult : TaskStatus → Option String → Option ErrorInfo → Type 0
HasResult queued report error = (report ≡ none) × (error ≡ none)
HasResult running report error = (report ≡ none) × (error ≡ none)
HasResult completed report error = (report ≢ none) × (error ≡ none)
HasResult failed report error = (report ≡ none) × (error ≢ none)

pub record IsTaskState (id : String) (v : TaskStatusResponse) : Type 0 where
  pub named : v.job_id ≡ id
  pub result : HasResult v.status v.report_id v.error

terminal-IsTaskState : (id : String) (g : Generation) → IsTaskState id (terminal id g)
unfolding terminal
terminal-IsTaskState id (delivered report) = elim (Bool-cases (is_status report.status completed)) [
  | inl e ↦ rw e (record { named = refl; result = (λ k. cc k, refl) })
  | inr e ↦ rw e (record { named = refl; result = (refl, λ k. cc k) })
]
terminal-IsTaskState id (api_error e) = record { named = refl; result = (refl, λ k. cc k) }
terminal-IsTaskState id other_error = record { named = refl; result = (refl, λ k. cc k) }

terminal_not_queued : (id : String) (g : Generation) → (terminal id g).status ≢ queued
unfolding terminal
terminal_not_queued id (delivered report) = ground arith
terminal_not_queued id (api_error e) = λ k. cc k
terminal_not_queued id other_error = λ k. cc k

-- Every state in the table is consistent, and every unfinished run is of a task in it.
pub record IsValid (s : Service) : Type 0 where
  pub states :
      (id : String) (v : TaskStatusResponse) → get_task id s.tasks ≡ some v → IsTaskState id v
  pub runs : (id : String) → In id s.active → get_task id s.tasks ≢ none

-- No task is lost, and none is queued again.
abbrev pub Advances : Service → Service → Type 0
Advances s t =
    (id : String) (v : TaskStatusResponse)
    → get_task id s.tasks ≡ some v
    → (u : TaskStatusResponse) × (get_task id t.tasks ≡ some u)
      × (v.status ≢ queued → u.status ≢ queued)

pub string_dec : (a b : String) → (a ≡ b) ⊎ (a ≢ b)
string_dec a b = ground (arith, eq_iff a b)

-- A write of a consistent state, to a task that is new or to one that is not queued then.
module _ (id : String) (v : TaskStatusResponse) (good : IsTaskState id v) (tasks : Tasks) where
  put_task-states :
      ((k : String) (u : TaskStatusResponse) → get_task k tasks ≡ some u → IsTaskState k u)
      → (k : String) (u : TaskStatusResponse) → get_task k (put_task id v tasks) ≡ some u
      → IsTaskState k u
  put_task-states old k u h = elim (string_dec k id) [
    | inl e ↦
        let same : v ≡ u = cc (h, get_task-put_task id v tasks, e) in
        subst (λ z. IsTaskState z u) (sym e) (subst (IsTaskState id) same good)
    | inr ne ↦ old k u (sym (get_task-put_task_ne id v k ne tasks) ∙ h)
  ]

  put_task-present :
      (k : String) → (k ≡ id) ⊎ (get_task k tasks ≢ none) → get_task k (put_task id v tasks) ≢ none
  put_task-present k h n = elim (string_dec k id) [
    | inl e ↦ cc (n, get_task-put_task id v tasks, e)
    | inr ne ↦ elim h [
      | inl e ↦ ne e
      | inr there ↦ there (sym (get_task-put_task_ne id v k ne tasks) ∙ n)
    ]
  ]

  put_task_advances :
      (get_task id tasks ≡ none) ⊎ (v.status ≢ queued)
      → (k : String) (u : TaskStatusResponse) → get_task k tasks ≡ some u
      → (w : TaskStatusResponse) × (get_task k (put_task id v tasks) ≡ some w)
        × (u.status ≢ queued → w.status ≢ queued)
  put_task_advances h k u g = elim (string_dec k id) [
    | inl e ↦ (
      v,
      subst (λ z. get_task z (put_task id v tasks) ≡ some v) (sym e) (get_task-put_task id v tasks),
      λ q. elim h [ inl n ↦ absurd (lost e n g) | inr later ↦ later ],
    )
    | inr ne ↦ (u, get_task-put_task_ne id v k ne tasks ∙ g, λ q. q)
  ]
    where
      lost : k ≡ id → get_task id tasks ≡ none → get_task k tasks ≡ some u → ⊥
      lost e n g' = cc (e, n, g')

pub submit_lem :
    (id : String) (tasks tasks' : Tasks) (status : TaskStatusResponse)
    → submit_task id tasks ≡ accepted status tasks'
    → (get_task id tasks ≡ none) × (put_task id (status_only id queued) tasks ≡ tasks')
unfolding submit_task
submit_lem id tasks tasks' status h = ground arith

pub start_lem :
    (id : String) (tasks tasks' : Tasks)
    → start_task id tasks ≡ some tasks'
    → put_task id (status_only id running) tasks ≡ tasks'
unfolding start_task
start_lem id tasks tasks' h = ground arith

written-IsValid :
    (id : String) (v : TaskStatusResponse) (s : Service) (active : List String)
    → IsTaskState id v
    → ((k : String) → In k active → (k ≡ id) ⊎ In k s.active)
    → IsValid s
    → IsValid (record { tasks = put_task id v s.tasks; active = active })
written-IsValid id v s active good from valid = record {
  states = put_task-states id v good s.tasks valid.states;
  runs = λ k m.
      put_task-present id v good s.tasks k
        (elim (from k m) [ inl e ↦ inl e | inr n ↦ inr (valid.runs k n) ]);
}

ServiceStep-IsValid : (s t : Service) → ServiceStep s t → IsValid s → IsValid t × Advances s t
unfolding finish_task
ServiceStep-IsValid s t (submits {status = status} {tasks = tasks} id h) valid =
    let (free, e) = submit_lem id s.tasks tasks status h in
    let good : IsTaskState id (status_only id queued) = record {
      named = refl;
      result = (refl, refl);
    } in
    subst (λ u. IsValid (record s { tasks = u }) × Advances s (record s { tasks = u })) e
      (
        written-IsValid id _ s s.active good (λ k m. inr m) valid,
        put_task_advances id _ good s.tasks (inl free),
      )
ServiceStep-IsValid s t (starts {tasks = tasks} id h) valid =
    let good : IsTaskState id (status_only id running) = record {
      named = refl;
      result = (refl, refl);
    } in
    subst
      (λ u.
        IsValid (record { tasks = u; active = id ∷ s.active })
        × Advances s (record { tasks = u; active = id ∷ s.active }))
      (start_lem id s.tasks tasks h)
      (
        written-IsValid id _ s (id ∷ s.active) good
            (λ k m. elim m [ inl i ↦ inl (sym i) | inr n ↦ inr n ]) valid,
        put_task_advances id _ good s.tasks (inr (λ k. cc k)),
      )
ServiceStep-IsValid s t (ends {tasks = tasks} id g before after) valid =
    let good = terminal-IsTaskState id g in
    (
      written-IsValid id (terminal id g) s (before ++ after) good
          (λ k m. inr (
            (In-append k before (id ∷ after)).1
              (elim ((In-append k before after).0 m) [ inl a ↦ inl a | inr b ↦ inr (inr b) ])))
          valid,
      put_task_advances id (terminal id g) good tasks (inr (terminal_not_queued id g)),
    )

-- In the in-process task service, from any service whose task states are consistent and whose
-- unfinished runs are of tasks in its table, submissions and runs of any threads, interleaved at
-- the lock in any order, keep this so; no task is lost, and none that has left the queued status
-- returns to it.
pub Reaches-IsValid : (s t : Service) → Reaches s t → IsValid s → IsValid t × Advances s t
Reaches-IsValid s t nothing valid = (valid, λ id v g. (v, g, λ q. q))
Reaches-IsValid s t (then_step {t = m} path step) valid =
    let (middle, first) = Reaches-IsValid s m path valid in
    let (last, second) = ServiceStep-IsValid m t step middle in
    (
      last,
      λ id v g.
          let (u, e, keep) = first id v g in
          let (w, e', keep') = second id u e in (w, e', λ q. keep' (keep q)),
    )
