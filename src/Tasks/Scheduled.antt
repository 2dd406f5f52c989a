-- ===== src/Tasks/Scheduled.antt =====
-- Which tasks have a job, whatever operations of src/services/core/task-manager.service.ts are called.
use d_hub.Base.{
  ℕ, String, inl, inr, Option, none, some, List, [], ◌∷◌, arith, str_eq_iff, Bool-cases,
  Option-cases, Exception, Result, Result-cases,
}
use d_hub.Base.Dict.{lookup, lookup-insert}
use d_hub.Tasks.{
  Options, Workload, Resolved, Manager, store, get_task_state, run_timeout_task_instance, new_task,
  validate_input, start_task, register_job_or_task, get_error_handler, completed, time_task,
  get_safe_timed_task,
}
use d_hub.Tasks.Operations.{
  Op, register, schedule_disabled, disable, deregister, run_task, stop, run_op, run_ops,
}
use d_hub.Tasks.Fit.{
  AllFit, schedule_enabled-AllFit, schedule_disabled-AllFit, disable-AllFit, deregister-AllFit,
}

error_handler-AllFit :
    (id : String) (now : ℕ) (e : Exception) (m : Manager)
    → AllFit m
    → AllFit (get_error_handler id now e m).1
unfolding get_error_handler AllFit
error_handler-AllFit id now e m a j s = elim (Option-cases (lookup id m.task_states)) [
  | inl f ↦ λ h. ground (arith, f, h, a j s)
  | inr (st, f) ↦ λ h. ground (
    arith,
    f,
    h,
    a j s,
    a id st f,
    lookup-insert id j (record st { errored_last_error = some (now, e) }) m.task_states,
  )
]

time_task-AllFit :
    (id : String) (begin end : ℕ) (r : Result Unit) (m : Manager)
    → AllFit m
    → AllFit (time_task id begin end r m).1
unfolding time_task AllFit
time_task-AllFit id begin end r m a j s = elim (Option-cases (lookup id m.task_states)) [
  | inl f ↦ λ h. ground (arith, f, h, a j s)
  | inr (st, f) ↦ λ h. ground (
    arith,
    f,
    h,
    a j s,
    a id st f,
    lookup-insert id j (record st { started = begin }) m.task_states,
    lookup-insert id j (completed end (record st { started = begin })) m.task_states,
  )
]

run-AllFit :
    (id : String) (begin end : ℕ) (r : Result Unit) (m : Manager)
    → AllFit m
    → AllFit (get_safe_timed_task id begin end r m).1
unfolding get_safe_timed_task AllFit
run-AllFit id begin end r m a j s =
    let b = time_task-AllFit id begin end r m a in
    elim (Result-cases (time_task id begin end r m).0) [
      | inl (u, e) ↦ λ h. ground (arith, h, e, b j s)
      | inr (x, e) ↦ λ h.
          ground (arith, h, e, error_handler-AllFit id end x (time_task id begin end r m).1 b j s)
    ]

start-AllFit :
    (cradle : String → Resolved) (id : String) (w : Workload) (o : Options) (m : Manager)
    → AllFit m
    → AllFit (start_task cradle id o (store id (new_task o w) m)).1
unfolding start_task run_timeout_task_instance get_task_state AllFit
start-AllFit cradle id w o m a j s =
    let i = lookup-insert id j (new_task o w) m.task_states in
    elim (Bool-cases o.run_once) [
      | inl e ↦ λ h. ground (arith, e, h, a j s, i)
      | inr e ↦ elim (Bool-cases o.run_delayed) [
        | inl d ↦
            λ h. ground (arith, e, d, h, a j s, i, lookup-insert id id (new_task o w) m.task_states)
        | inr d ↦ λ h. ground (
          arith,
          e,
          d,
          h,
          schedule_enabled-AllFit id (store id (new_task o w) m)
              (λ k q f. ground (
                arith,
                e,
                d,
                f,
                a k q,
                str_eq_iff id k,
                lookup-insert id k (new_task o w) m.task_states,
              ))
              j s,
        )
      ]
    ]

register-AllFit :
    (cradle : String → Resolved) (id : String) (w : Workload) (o : Option Options) (m : Manager)
    → AllFit m
    → AllFit (register_job_or_task cradle id w o m).1
unfolding register_job_or_task AllFit
register-AllFit cradle id w none m a j s =
    elim (Result-cases (validate_input cradle id w none m).0) [
      | inl (u, e) ↦ λ h. ground (arith, h, e, a j s)
      | inr (x, e) ↦ λ h. ground (arith, h, e, a j s)
    ]
register-AllFit cradle id w (some o) m a j s =
    elim (Result-cases (validate_input cradle id w (some o) m).0) [
      | inl (u, e) ↦ λ h. ground (arith, h, e, start-AllFit cradle id w o m a j s)
      | inr (x, e) ↦ λ h. ground (arith, h, e, a j s)
    ]

run_op-AllFit :
    (cradle : String → Resolved) (op : Op) (m : Manager) → AllFit m → AllFit (run_op cradle op m)
unfolding run_op AllFit
run_op-AllFit cradle (register id w o) m a = register-AllFit cradle id w o m a
run_op-AllFit cradle (schedule_disabled id b) m a = schedule_disabled-AllFit id b m a
run_op-AllFit cradle (disable id b) m a = disable-AllFit id b m a
run_op-AllFit cradle (deregister id) m a = deregister-AllFit id m a
run_op-AllFit cradle (run_task id begin end r) m a = run-AllFit id begin end r m a
run_op-AllFit cradle stop m a = a

run_ops-keep :
    (cradle : String → Resolved) (ops : List Op) (m : Manager)
    → AllFit m
    → AllFit (run_ops cradle ops m)
unfolding run_ops
run_ops-keep cradle [] m a = a
run_ops-keep cradle (op ∷ ops) m a =
    run_ops-keep cradle ops (run_op cradle op m) (run_op-AllFit cradle op m a)

-- From the empty manager, after any operations in any order, each registered task that is periodic,
-- enabled, and neither to be run once nor delayed, has a job, and no task has a `lastError`.
pub run_ops-AllFit :
    (cradle : String → Resolved) (ops : List Op)
    → AllFit (run_ops cradle ops (record { task_states = []; calls = [] }))
unfolding AllFit
run_ops-AllFit cradle ops =
    run_ops-keep cradle ops (record { task_states = []; calls = [] }) (λ j s h. absurd (cc))
