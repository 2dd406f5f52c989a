-- ===== src/Tasks/Outcomes.antt =====
-- What the operations of src/services/core/task-manager.service.ts do, on every branch.
use d_hub.Base.{
  ◌+◌, ◌*◌, String, ◌≡◌, refl, ◌∙◌, inl, inr, Bool, true, false, not, ◌&&◌, Option, some, List, [],
  ◌∷◌, ◌++◌, arith, str_eq, str_eq_refl, if◌then◌else◌, Bool-cases, append-nil, ok, ◌>>=◌,
}
use d_hub.Base.Dict.{lookup, lookup-insert}
use d_hub.Tasks.{
  Options, Workload, Resolved, TaskState, Call, execute, set_timeout, add_job, stop_job, Manager,
  calling, store, is_registered, has_valid_options, has_valid_workload, get_task_state,
  is_task_disabled, schedule_enabled_periodic_job, run_timeout_task_instance, new_task,
  validate_input, start_task, register_job_or_task, schedule_disabled_job, disable_job,
}
use d_hub.Tasks.Fit.{is_due}

abbrev pub one_call : String → Options → List Call
one_call id o =
    if o.run_once
    then execute id ∷ []
    else if o.run_delayed
    then set_timeout id (o.milliseconds + o.seconds * 1000) ∷ []
    else if o.disabled
    then []
    else add_job id ∷ []

abbrev pub is_accepted : (String → Resolved) → String → Workload → Option Options → Manager → Bool
is_accepted cradle id w o m =
    not (str_eq id "")
    && (not (is_registered (lookup id m.task_states))
        && (has_valid_workload cradle w && has_valid_options o))

module _ (cradle : String → Resolved) (id : String) (w : Workload) where
  -- Registering with an empty or known id, a workload that cannot be run, or options that are missing
  -- or refused throws nothing and changes nothing.
  pub register_refused :
      (o : Option Options) (m : Manager)
      → is_accepted cradle id w o m ≡ false
      → register_job_or_task cradle id w o m ≡ (ok tt, m)
  unfolding register_job_or_task validate_input
  register_refused o m h = ground (arith, h)

  validate_accepted :
      (o : Option Options) (m : Manager)
      → is_accepted cradle id w o m ≡ true
      → validate_input cradle id w o m ≡ (ok tt, m)
  unfolding validate_input
  validate_accepted o m h = ground (arith, h)

  -- Options that pass and are not periodic are to be run once or delayed.
  valid-periodic :
      (o : Options)
      → has_valid_options (some o) ≡ true
      → o.run_once ≡ false
      → o.run_delayed ≡ false
      → o.periodic ≡ true
  unfolding has_valid_options
  valid-periodic o h a b = ground (arith, h, a, b)

  register_start :
      (o : Options) (m : Manager)
      → is_accepted cradle id w (some o) m ≡ true
      → register_job_or_task cradle id w (some o) m
        ≡ start_task cradle id o (store id (new_task o w) m)
  unfolding register_job_or_task
  register_start o m h = ground (arith, validate_accepted (some o) m h)

  start_scheduled :
      (o : Options) (n : Manager)
      → lookup id n.task_states ≡ some (new_task o w)
      → o.run_once ≡ false
      → o.run_delayed ≡ false
      → o.periodic ≡ true
      → (m' : Manager) × (start_task cradle id o n ≡ (ok tt, m'))
        × (lookup id m'.task_states ≡ some (record (new_task o w) { job = is_due o }))
        × (m'.calls ≡ n.calls ++ one_call id o)
  unfolding start_task schedule_enabled_periodic_job get_task_state
  start_scheduled o n e a b p =
      let t = record (new_task o w) { job = true } in
      let i = lookup-insert id id t n.task_states in
      let r = str_eq_refl id in
      elim (Bool-cases o.disabled) [
        | inl d ↦ (
          n,
          ground (arith, e, a, b, p, d),
          ground (arith, e, a, b, p, d),
          ground (arith, e, a, b, p, d, append-nil n.calls),
        )
        | inr d ↦ (
          calling (add_job id) (store id t n),
          ground (arith, e, a, b, p, d),
          ground (arith, i, r, a, b, p, d),
          ground (arith, a, b, p, d),
        )
      ]

  start_lem :
      (o : Options) (n : Manager)
      → lookup id n.task_states ≡ some (new_task o w)
      → has_valid_options (some o) ≡ true
      → (m' : Manager) × (start_task cradle id o n ≡ (ok tt, m'))
        × (lookup id m'.task_states ≡ some (record (new_task o w) { job = is_due o }))
        × (m'.calls ≡ n.calls ++ one_call id o)
  unfolding start_task run_timeout_task_instance get_task_state
  start_lem o n e v = elim (Bool-cases o.run_once) [
    | inl a ↦ (calling (execute id) n, ground (arith, a), ground (arith, e, a), ground (arith, a))
    | inr a ↦ elim (Bool-cases o.run_delayed) [
      | inl b ↦ (
        calling (set_timeout id (o.milliseconds + o.seconds * 1000)) n,
        ground (arith, e, a, b),
        ground (arith, e, a, b),
        ground (arith, a, b),
      )
      | inr b ↦ start_scheduled o n e a b (valid-periodic o v a b)
    ]
  ]

  -- Registering with any other input makes the task known under its options, with a job if it is due,
  -- and makes one call: to run it at once, to run it after the delay, or to add its job, which is left out
  -- for a task that is disabled.
  pub register_accepted :
      (o : Options) (m : Manager)
      → is_accepted cradle id w (some o) m ≡ true
      → (m' : Manager) × (register_job_or_task cradle id w (some o) m ≡ (ok tt, m'))
        × (lookup id m'.task_states ≡ some (record (new_task o w) { job = is_due o }))
        × (m'.calls ≡ m.calls ++ one_call id o)
  register_accepted o m h =
      let (n, a, b, c) =
        start_lem o (store id (new_task o w) m)
          (ground (arith, lookup-insert id id (new_task o w) m.task_states, str_eq_refl id))
          (ground (arith, h)) in
      (n, register_start o m h ∙ a, b, c)

-- A periodic task that is enabled and has a job, when it is disabled and then scheduled again, has the
-- state it had, and its job is stopped and then added anew.
pub disable-schedule :
    (id : String) (b c : Bool) (m : Manager) {st : TaskState}
    → lookup id m.task_states ≡ some st
    → st.options.disabled ≡ false
    → st.options.periodic ≡ true
    → st.job ≡ true
    → (m' : Manager) × ((disable_job id b >>= λ u. schedule_disabled_job id c) m ≡ (ok tt, m'))
      × (lookup id m'.task_states ≡ some st)
      × (m'.calls ≡ (m.calls ++ stop_job id ∷ []) ++ add_job id ∷ [])
unfolding disable_job is_task_disabled schedule_disabled_job schedule_enabled_periodic_job
    get_task_state
disable-schedule id b c m {st} e d p j =
    let off = record st { options = record st.options { disabled = true } } in
    let m1 = calling (stop_job id) (store id off m) in
    let m2 = store id st m1 in
    let i1 = lookup-insert id id off m.task_states in
    let i2 = lookup-insert id id st m1.task_states in
    let i3 = lookup-insert id id st m2.task_states in
    let r = str_eq_refl id in
    (
      calling (add_job id) (store id st m2),
      ground (arith, e, d, p, j, i1, i2, i3, r),
      ground (arith, i3, r),
      refl,
    )
