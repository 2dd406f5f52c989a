-- ===== src/Tasks.antt =====
-- src/services/core/task-manager.service.ts. toad-scheduler and setTimeout are not part of the
-- program: the calls made of them are recorded, in their order.
pub mod Operations
pub mod Fit
pub mod Scheduled
pub mod Outcomes
mod Tests
use d_hub.Base.{
  ℕ, ◌+◌, ◌-◌, ◌*◌, String, Bool, true, false, not, ◌&&◌, Option, none, some, List, [], ◌∷◌, ◌++◌,
  str_eq, ◌==◌, if◌then◌else◌, Exception, type_error, job_validation_exception, Result, ok, throw,
  Prog, ◌>>=◌, ◌>>◌, pure, fail, modify,
}
use d_hub.Base.Dict.{Dict, lookup, insert, remove}

-- The options, `undefined` as false or 0, which the code treats alike.
pub record Options : Type 0 where
  pub periodic : Bool
  pub run_once : Bool
  pub run_delayed : Bool
  pub disabled : Bool
  pub log_first_completion : Bool
  pub milliseconds : ℕ
  pub seconds : ℕ
  pub minutes : ℕ
  pub hours : ℕ
  pub days : ℕ

-- A function, named by a number, the name of a dependency, or anything else.
pub data Workload : Type 0 where
  callback : ℕ → Workload
  dependency : String → Workload
  neither : Workload

-- What reading `cradle[name]` gives: whether it has a method `run`, or an exception.
pub data Resolved : Type 0 where
  service : Bool → Resolved
  unresolved : Resolved

pub record TaskState : Type 0 where
  pub options : Options
  pub workload : Workload
  pub job : Bool
  pub started : ℕ
  pub duration : Option ℕ
  pub first_completion : Option ℕ
  pub last_error : Option (ℕ × Exception)
  pub errored_last_error : Option (ℕ × Exception)

pub data Call : Type 0 where
  execute : String → Call
  set_timeout : String → ℕ → Call
  add_job : String → Call
  stop_job : String → Call
  remove_by_id : String → Call
  stop_all : Call

pub record Manager : Type 0 where
  pub task_states : Dict TaskState
  pub calls : List Call

abbrev pub calling : Call → Manager → Manager
calling c m = record m { calls = m.calls ++ c ∷ [] }

abbrev pub store : String → TaskState → Manager → Manager
store id st m = record m { task_states = insert id st m.task_states }

abbrev pub is_registered : Option TaskState → Bool
is_registered none = false
is_registered (some st) = true

-- The checks of the options, in their order.
unfoldable pub has_valid_options : Option Options → Bool
has_valid_options none = false
has_valid_options (some o) =
    if not o.periodic && (not o.run_once && not o.run_delayed)
    then false
    else if not o.periodic && o.disabled
    then false
    else if o.run_delayed && ((o.milliseconds == 0) && (o.seconds == 0))
    then false
    else not (
        o.periodic
        && ((o.milliseconds == 0)
            && ((o.seconds == 0) && ((o.minutes == 0) && ((o.hours == 0) && (o.days == 0))))))

unfoldable pub has_valid_workload : (String → Resolved) → Workload → Bool
has_valid_workload cradle (callback f) = true
has_valid_workload cradle neither = false
has_valid_workload cradle (dependency s) = elim (cradle s) [
  | service has_run ↦ has_run
  | unresolved ↦ false
]

unfoldable pub get_task_state : String → Prog Manager TaskState
unfolding lookup
get_task_state id m = elim (lookup id m.task_states) [
  | none ↦ (throw job_validation_exception, m)
  | some st ↦ (ok st, m)
]

unfoldable pub is_task_disabled : String → Prog Manager Bool
unfolding get_task_state
is_task_disabled id = do st ← get_task_state id; pure st.options.disabled

-- A task's state has its options and its timed task from the start.
unfoldable pub schedule_enabled_periodic_job : String → Prog Manager (Unit {0})
unfolding get_task_state insert
schedule_enabled_periodic_job id = do
  st ← get_task_state id
  if not st.options.periodic
      then fail job_validation_exception
      else if not st.options.disabled
      then modify (λ m. calling (add_job id) (store id (record st { job = true }) m))
      else pure tt

unfoldable pub run_timeout_task_instance : String → ℕ → Prog Manager (Unit {0})
unfolding get_task_state
run_timeout_task_instance id timeout = do
  st ← get_task_state id
  modify (calling (set_timeout id timeout))

abbrev pub new_task : Options → Workload → TaskState
new_task o w = record {
  options = o;
  workload = w;
  job = false;
  started = 0;
  duration = none;
  first_completion = none;
  last_error = none;
  errored_last_error = none;
}

module _ (cradle : String → Resolved) where
  unfoldable pub validate_input : String → Workload → Option Options → Prog Manager (Unit {0})
  unfolding has_valid_options has_valid_workload lookup
  validate_input id w options m =
      if str_eq id ""
      then (throw job_validation_exception, m)
      else if is_registered (lookup id m.task_states)
      then (throw job_validation_exception, m)
      else if not (has_valid_workload cradle w)
      then (throw job_validation_exception, m)
      else if not (has_valid_options options)
      then (throw job_validation_exception, m)
      else (ok tt, m)

  -- What follows the validation.
  unfoldable pub start_task : String → Options → Prog Manager (Unit {0})
  unfolding run_timeout_task_instance schedule_enabled_periodic_job
  start_task id o =
      if o.run_once
      then modify (calling (execute id))
      else if o.run_delayed
      then run_timeout_task_instance id (o.milliseconds + o.seconds * 1000)
      else schedule_enabled_periodic_job id

  -- Input that is refused is logged, and nothing is thrown.
  unfoldable pub register_job_or_task : String → Workload → Option Options → Prog Manager (Unit {0})
  unfolding validate_input start_task insert
  register_job_or_task id w options m = elim (validate_input id w options m).0 [
    | throw e ↦ (ok tt, m)
    | ok u ↦ elim options [
      | none ↦ (throw type_error, m)
      | some o ↦ start_task id o (store id (new_task o w) m)
    ]
  ]

unfoldable pub schedule_disabled_job : String → Bool → Prog Manager (Unit {0})
unfolding get_task_state schedule_enabled_periodic_job insert
schedule_disabled_job id fail_if_enabled = do
  st ← get_task_state id
  if not st.options.disabled
      then (if fail_if_enabled then fail job_validation_exception else pure tt)
      else do
        modify (store id (record st { options = record st.options { disabled = false } }))
        schedule_enabled_periodic_job id

-- A task that has no job is marked as disabled before `job.stop()` throws.
unfoldable pub disable_job : String → Bool → Prog Manager (Unit {0})
unfolding is_task_disabled insert
disable_job id fail_if_disabled = do
  disabled ← is_task_disabled id
  if disabled then (if fail_if_disabled then fail job_validation_exception else pure tt) else do
    st ← get_task_state id
    modify (store id (record st { options = record st.options { disabled = true } }))
    if st.job then modify (calling (stop_job id)) else fail type_error

unfoldable pub deregister_task : String → Prog Manager (Unit {0})
unfolding get_task_state remove
deregister_task id = do
  st ← get_task_state id
  modify (λ m. calling (remove_by_id id) (record m { task_states = remove id m.task_states }))

unfoldable pub get_error_handler : String → ℕ → Exception → Prog Manager (Unit {0})
unfolding lookup insert
get_error_handler id now e m = elim (lookup id m.task_states) [
  | none ↦ (throw type_error, m)
  | some st ↦ elim st.last_error [
    | none ↦ (ok tt, store id (record st { errored_last_error = some (now, e) }) m)
    | some x ↦ (ok tt, m)
  ]
]

abbrev pub completed : ℕ → TaskState → TaskState
completed end st =
    let timed = record st { duration = some (end - st.started) } in
    elim timed.first_completion [
      | some x ↦ timed
      | none ↦
          if timed.options.log_first_completion
          then record timed { first_completion = some end }
          else timed
    ]

-- One run of the handler, which takes from the first time to the second and ends in `result`, with no
-- other operation between.
unfoldable pub time_task : String → ℕ → ℕ → Result (Unit {0}) → Prog Manager (Unit {0})
unfolding lookup insert
time_task id begin end result m = elim (lookup id m.task_states) [
  | none ↦ (throw type_error, m)
  | some st ↦
      let started = record st { started = begin } in
      elim result [
        | throw e ↦ (throw e, store id started m)
        | ok u ↦ (ok tt, store id (completed end started) m)
      ]
]

-- The scheduler runs the timed task: an exception goes to the error handler.
unfoldable pub get_safe_timed_task : String → ℕ → ℕ → Result (Unit {0}) → Prog Manager (Unit {0})
unfolding time_task get_error_handler
get_safe_timed_task id begin end result m =
    let (r, n) = time_task id begin end result m in
    elim r [ ok u ↦ (ok tt, n) | throw e ↦ get_error_handler id end e n ]

abbrev pub stop_scheduler_tasks : Prog Manager (Unit {0})
stop_scheduler_tasks = modify (calling stop_all)
