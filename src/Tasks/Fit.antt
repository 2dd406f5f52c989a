-- ===== src/Tasks/Fit.antt =====
-- The calls on a known task of src/services/core/task-manager.service.ts: a task that is due has a job.
-- A task that is periodic only and enabled has a job, and no exception is kept as `lastError`.
use d_hub.Base.{
  String, ◌≡◌, inl, inr, Bool, true, false, not, ◌&&◌, ◌||◌, none, some, arith, str_eq, str_eq_iff,
  str_eq_refl, Bool-cases, Option-cases,
}
use d_hub.Base.Dict.{lookup, remove, lookup-insert, lookup-remove}
use d_hub.Tasks.{
  Options, TaskState, Manager, store, get_task_state, is_task_disabled,
  schedule_enabled_periodic_job, schedule_disabled_job, disable_job, deregister_task,
}

abbrev pub is_due : Options → Bool
is_due o = (o.periodic && not o.disabled) && (not o.run_once && not o.run_delayed)

abbrev pub fits : TaskState → Bool
fits st = elim st.last_error [ none ↦ not (is_due st.options) || st.job | some x ↦ false ]

unfoldable pub AllFit : Manager → Type 0
unfolding lookup
AllFit m = (id : String) (st : TaskState) → lookup id m.task_states ≡ some st → fits st ≡ true

pub store-AllFit :
    (id : String) (st : TaskState) (m : Manager)
    → fits st ≡ true
    → AllFit m
    → AllFit (store id st m)
unfolding AllFit
store-AllFit id st m f a j s h = ground (arith, lookup-insert id j st m.task_states, a j s, f, h)

pub remove-AllFit :
    (id : String) (m : Manager)
    → AllFit m
    → AllFit (record m { task_states = remove id m.task_states })
unfolding AllFit
remove-AllFit id m a j s h = ground (arith, lookup-remove id j m.task_states, a j s, h)

abbrev pub is_clean : TaskState → Bool
is_clean st = elim st.last_error [ none ↦ true | some x ↦ false ]

-- It is enough that the task itself has no `lastError`: if it is due, it gets a job.
pub schedule_enabled-AllFit :
    (id : String) (m : Manager)
    → ((j : String) (s : TaskState)
        → lookup j m.task_states ≡ some s
        → ((str_eq id j && is_clean s) || fits s) ≡ true)
    → AllFit (schedule_enabled_periodic_job id m).1
unfolding schedule_enabled_periodic_job get_task_state AllFit
schedule_enabled-AllFit id m a j s = elim (Option-cases (lookup id m.task_states)) [
  | inl e ↦ λ h. ground (arith, e, h, a j s, str_eq_iff id j)
  | inr (st, e) ↦ λ h. ground (
    arith,
    e,
    h,
    a j s,
    a id st,
    str_eq_iff id j,
    str_eq_refl id,
    lookup-insert id j (record st { job = true }) m.task_states,
  )
]

enabled : TaskState → TaskState
enabled st = record st { options = record st.options { disabled = false } }

schedule_disabled_found :
    (id : String) (b : Bool) (m : Manager) {st : TaskState}
    → lookup id m.task_states ≡ some st
    → st.options.disabled ≡ true
    → schedule_disabled_job id b m ≡ schedule_enabled_periodic_job id (store id (enabled st) m)
unfolding schedule_disabled_job get_task_state enabled
schedule_disabled_found id b m e d = ground (arith, e, d)

enabled_fits :
    (id : String) (m : Manager)
    → AllFit m
    → {st : TaskState} → lookup id m.task_states ≡ some st
    → AllFit (schedule_enabled_periodic_job id (store id (enabled st) m)).1
unfolding AllFit enabled
enabled_fits id m a {st} e =
    schedule_enabled-AllFit id (store id (enabled st) m)
      (λ j s h. ground (arith, h, a j s, a id st e, lookup-insert id j (enabled st) m.task_states))

pub schedule_disabled-AllFit :
    (id : String) (b : Bool) (m : Manager) → AllFit m → AllFit (schedule_disabled_job id b m).1
unfolding AllFit schedule_disabled_job get_task_state
schedule_disabled-AllFit id b m a j s = elim (Option-cases (lookup id m.task_states)) [
  | inl e ↦ λ h. ground (arith, e, h, a j s)
  | inr (st, e) ↦ elim (Bool-cases st.options.disabled) [
    | inl d ↦ λ h. ground (arith, h, schedule_disabled_found id b m e d, enabled_fits id m a e j s)
    | inr d ↦ λ h. ground (arith, e, d, h, a j s)
  ]
]

pub disable-AllFit :
    (id : String) (b : Bool) (m : Manager) → AllFit m → AllFit (disable_job id b m).1
unfolding disable_job is_task_disabled get_task_state AllFit
disable-AllFit id b m a j s = elim (Option-cases (lookup id m.task_states)) [
  | inl e ↦ λ h. ground (arith, e, h, a j s)
  | inr (st, e) ↦ λ h. ground (
    arith,
    e,
    h,
    a j s,
    a id st e,
    lookup-insert id j (record st { options = record st.options { disabled = true } })
        m.task_states,
  )
]

pub deregister-AllFit : (id : String) (m : Manager) → AllFit m → AllFit (deregister_task id m).1
unfolding deregister_task get_task_state AllFit
deregister-AllFit id m a j s = elim (Option-cases (lookup id m.task_states)) [
  | inl e ↦ λ h. ground (arith, e, h, a j s)
  | inr (st, e) ↦ λ h. ground (arith, e, h, a j s, lookup-remove id j m.task_states)
]
