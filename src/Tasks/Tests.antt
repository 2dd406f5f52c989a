-- ===== src/Tasks/Tests.antt =====
-- The task manager on concrete tasks.
use d_hub.Base.{String, ◌≡◌, refl, true, false, some, List, [], ◌∷◌, ◌++◌, error, ok, throw, ◌>>=◌}
use d_hub.Base.Dict.{lookup}
use d_hub.Tasks.{
  Options, callback, Resolved, unresolved, add_job, stop_job, Manager, new_task,
  register_job_or_task, schedule_disabled_job, disable_job,
}
use d_hub.Tasks.Operations.{Op, register, disable, run_task, run_ops}
use d_hub.Tasks.Fit.{AllFit}
use d_hub.Tasks.Scheduled.{run_ops-AllFit}
use d_hub.Tasks.Outcomes.{disable-schedule}

abbrev no_services : String → Resolved
no_services s = unresolved

abbrev empty : Manager
empty = record { task_states = []; calls = [] }

abbrev every_second : Options
every_second = record {
  periodic = true;
  run_once = false;
  run_delayed = false;
  disabled = false;
  log_first_completion = true;
  milliseconds = 0;
  seconds = 1;
  minutes = 0;
  hours = 0;
  days = 0;
}

abbrev ticking : Manager
ticking = record {
  task_states = ("tick", record (new_task every_second (callback 1)) { job = true }) ∷ [];
  calls = add_job "tick" ∷ [];
}

registered :
    register_job_or_task no_services "tick" (callback 1) (some every_second) empty
    ≡ (ok tt, ticking)
unfolding register_job_or_task
registered = refl

abbrev life : List Op
life =
    register "tick" (callback 1) (some every_second)
    ∷ run_task "tick" 5 7 (throw error)
    ∷ disable "tick" true
    ∷ []

run_ops-AllFit_example : AllFit (run_ops no_services life empty)
run_ops-AllFit_example = run_ops-AllFit no_services life

disable-schedule_example :
    (m' : Manager) × ((disable_job "tick" true >>= λ u. schedule_disabled_job "tick" true) ticking
      ≡ (ok tt, m'))
    × (lookup "tick" m'.task_states
        ≡ some (record (new_task every_second (callback 1)) { job = true }))
    × (m'.calls ≡ (ticking.calls ++ stop_job "tick" ∷ []) ++ add_job "tick" ∷ [])
unfolding lookup
disable-schedule_example = disable-schedule "tick" true true ticking refl refl refl refl
