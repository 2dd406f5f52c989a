-- ===== src/Tasks/Operations.antt =====
-- The operations of src/services/core/task-manager.service.ts as one type, and their runs.
use d_hub.Base.{ℕ, String, Bool, Option, List, [], ◌∷◌, Result}
use d_hub.Tasks.{
  Options, Workload, Resolved, Manager, register_job_or_task, schedule_disabled_job, disable_job,
  deregister_task, get_safe_timed_task, stop_scheduler_tasks,
}

pub data Op : Type 0 where
  register : String → Workload → Option Options → Op
  schedule_disabled : String → Bool → Op
  disable : String → Bool → Op
  deregister : String → Op
  run_task : String → ℕ → ℕ → Result (Unit {0}) → Op
  stop : Op

unfoldable pub run_op : (String → Resolved) → Op → Manager → Manager
unfolding register_job_or_task schedule_disabled_job disable_job deregister_task get_safe_timed_task
run_op cradle (register id w o) m = (register_job_or_task cradle id w o m).1
run_op cradle (schedule_disabled id b) m = (schedule_disabled_job id b m).1
run_op cradle (disable id b) m = (disable_job id b m).1
run_op cradle (deregister id) m = (deregister_task id m).1
run_op cradle (run_task id begin end r) m = (get_safe_timed_task id begin end r m).1
run_op cradle stop m = (stop_scheduler_tasks m).1

unfoldable pub run_ops : (String → Resolved) → List Op → Manager → Manager
unfolding run_op
run_ops cradle [] m = m
run_ops cradle (op ∷ ops) m = run_ops cradle ops (run_op cradle op m)
