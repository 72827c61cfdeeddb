-- ===== src/Fulfillment/Waves.antt =====
-- The wave loop of a request item: `execute_plan`, `_execute_plan_locked`, `_init_ritm_and_recover`,
-- `_apply_cascade_skips`, `_run_ready_wave`, `_finalise` and `_partial_status` of
-- src/oneops/use_cases/uc08_fulfillment/executor.py. The tasks of one wave run one after the other
-- here: they are different rows, and whether a transition of one commits does not depend on the
-- others.
pub mod Guarded
pub mod Final
pub mod Report
use mathlib.Core.Option.{get_or}
use one_ops_next_gen.Prelude.{
  ℕ, zero, suc, ◌+◌, ◌*◌, ◌-◌, String, Bool, true, false, ◌&&◌, not, List, [], ◌∷◌, map, Option,
  none, some, filter, contains, ltb, if◌then◌else◌, ◌==◌, length,
}
use one_ops_next_gen.Fulfillment.Contracts.{
  Task, TaskState, Ritm, RitmState, Approval, ApprovalState, FulfillmentOutcome, task_state_eq,
  ritm_state_eq,
}
use one_ops_next_gen.Fulfillment.Plan.{
  ready_task_ids, transitively_blocked_task_ids, RitmOutcome, is_terminal, states_of, count_state,
}
use one_ops_next_gen.Fulfillment.Db.{
  Db, Run, now, Change, no_change, transition_task_state, list_tasks_for_ritm, is_of_ritm, get_ritm,
  transition_ritm_state, latest_run, finalise_run, update_tasks,
}
use one_ops_next_gen.Fulfillment.Executor.{Env, execute_one_task}

-- contracts.py, Outcome; the text for the user is left out.
pub record Outcome : Type 0 where
  pub tenant_id : String
  pub request_id : String
  pub ritm_id : String
  pub catalog_item_id : String
  pub run_id : String
  pub outcome : FulfillmentOutcome
  pub tasks_total : ℕ
  pub tasks_completed : ℕ
  pub tasks_failed : ℕ
  pub tasks_skipped : ℕ
  pub tasks_in_progress : ℕ

-- state = 'in_progress' AND started_at < now() - minutes
stuck_before : ℕ → ℕ → Option ℕ → Bool
stuck_before at minutes none = false
stuck_before at minutes (some started) = ltb (started + minutes * 60) at

unfoldable pub is_orphan : String → String → ℕ → ℕ → Task → Bool
unfolding stuck_before
is_orphan tenant_id ritm_id at minutes t =
    is_of_ritm tenant_id ritm_id t
    && (task_state_eq t.state TaskState.in_progress && stuck_before at minutes t.started_at)

unfoldable pub recovered_task : ℕ → Task → Task
recovered_task at t = record t {
  state = TaskState.ready;
  retry_count = t.retry_count + 1;
  error_message = some "recovered_from_orphan";
  updated_at = at;
  version = t.version + 1;
}

unfoldable pub recover_orphans : Env → String → String → Db → Db
unfolding is_orphan recovered_task
recover_orphans env tenant_id ritm_id db = record db {
  tasks =
      (update_tasks (is_orphan tenant_id ritm_id (now db) env.stuck_task_recovery_minutes)
        (recovered_task (now db)) db.tasks).0;
  statement = suc db.statement;
}

-- The step from `requested` to `in_progress`.
start_ritm : String → String → Ritm → Db → Db
start_ritm tenant_id ritm_id ritm db =
    if ritm_state_eq ritm.state RitmState.requested
    then transition_ritm_state tenant_id ritm_id RitmState.requested RitmState.in_progress
        ritm.version none none db
    else db

-- `none`: RequestItemNotFoundError.
unfoldable pub initialise : Env → String → String → Db → Option Ritm → Option Db
unfolding start_ritm recover_orphans
initialise env tenant_id ritm_id db none = none
initialise env tenant_id ritm_id db (some ritm) =
    some (recover_orphans env tenant_id ritm_id (start_ritm tenant_id ritm_id ritm db))

unfoldable pub init_ritm_and_recover : Env → String → String → Db → Option Db
unfolding initialise
init_ritm_and_recover env tenant_id ritm_id db =
    initialise env tenant_id ritm_id db (get_ritm tenant_id ritm_id db)

abbrev pub cascade_skipped : Change
cascade_skipped = record no_change {
  error_message = some "upstream_task_failed";
  error_code = some "CASCADE_SKIPPED";
}

unfoldable pub skip_tasks : String → List (String × TaskState × ℕ) → Db → Db
skip_tasks tenant_id [] db = db
skip_tasks tenant_id ((task_id, state, version) ∷ rest) db =
    skip_tasks tenant_id rest
      (transition_task_state tenant_id task_id state TaskState.skipped version cascade_skipped db).0

-- `_apply_cascade_skips`: the loop that finds the rows to skip always ends with a list.
unfoldable pub apply_cascade_skips : String → List Task → Db → Db
unfolding skip_tasks
apply_cascade_skips tenant_id tasks db =
    skip_tasks tenant_id (get_or (transitively_blocked_task_ids tasks) []) db

unfoldable pub run_ready_wave : Env → List Task → Db → Db
run_ready_wave env [] db = db
run_ready_wave env (t ∷ ts) db = run_ready_wave env ts (execute_one_task env t db).0

abbrev pub ritm_state_of : RitmOutcome → RitmState
ritm_state_of RitmOutcome.fulfilled = RitmState.fulfilled
ritm_state_of RitmOutcome.partial = RitmState.failed
ritm_state_of RitmOutcome.failed = RitmState.failed
ritm_state_of RitmOutcome.blocked = RitmState.in_progress
ritm_state_of RitmOutcome.running = RitmState.in_progress

abbrev pub outcome_of : RitmOutcome → FulfillmentOutcome
outcome_of RitmOutcome.fulfilled = FulfillmentOutcome.fulfilled
outcome_of RitmOutcome.partial = FulfillmentOutcome.partial
outcome_of RitmOutcome.failed = FulfillmentOutcome.failed
outcome_of RitmOutcome.blocked = FulfillmentOutcome.in_progress
outcome_of RitmOutcome.running = FulfillmentOutcome.in_progress

run_id_of : Option Run → String
run_id_of none = "RUN_UNKNOWN"
run_id_of (some run) = run.run_id

unfoldable pub report : Ritm → Option Run → FulfillmentOutcome → List Task → Outcome
unfolding run_id_of
report ritm run outcome tasks = record {
  tenant_id = ritm.tenant_id;
  request_id = ritm.request_id;
  ritm_id = ritm.ritm_id;
  catalog_item_id = ritm.catalog_item_id;
  run_id = run_id_of run;
  outcome = outcome;
  tasks_total = ritm.total_tasks;
  tasks_completed = count_state TaskState.done tasks;
  tasks_failed = count_state TaskState.failed tasks;
  tasks_skipped = count_state TaskState.skipped tasks;
  tasks_in_progress = count_state TaskState.in_progress tasks;
}

close_ritm : String → String → RitmOutcome → List Task → Ritm → Db → Db
close_ritm tenant_id ritm_id outcome tasks ritm db =
    if ritm_state_eq ritm.state (ritm_state_of outcome)
    then db
    else transition_ritm_state tenant_id ritm_id ritm.state (ritm_state_of outcome) ritm.version
        (some (count_state TaskState.done tasks)) (some (count_state TaskState.failed tasks)) db

close_run : String → RitmOutcome → Option Run → Db → Db
close_run tenant_id outcome none db = db
close_run tenant_id outcome (some run) db = finalise_run tenant_id run.run_id outcome db

-- if not tasks: tasks = await list_tasks_for_ritm(…)
or_listed : String → String → List Task → Db → List Task
or_listed tenant_id ritm_id [] db = list_tasks_for_ritm tenant_id ritm_id db
or_listed tenant_id ritm_id (t ∷ ts) db = t ∷ ts

-- `none` in the answer: RequestItemNotFoundError.
unfoldable pub finalise : String → String → RitmOutcome → List Task → Db → Db × Option Outcome
unfolding close_ritm close_run or_listed report
finalise tenant_id ritm_id outcome given db = elim (get_ritm tenant_id ritm_id db) [
  | none ↦ (db, none)
  | some ritm ↦
      let tasks = or_listed tenant_id ritm_id given db in
      let db' = close_ritm tenant_id ritm_id outcome tasks ritm db in
      let run = latest_run tenant_id ritm_id db'.runs in
      (close_run tenant_id outcome run db', some (report ritm run (outcome_of outcome) tasks))
]

unfoldable pub partial_status : String → String → List Task → Db → Option Outcome
unfolding report
partial_status tenant_id ritm_id tasks db = elim (get_ritm tenant_id ritm_id db) [
  | none ↦ none
  | some ritm ↦
      some (report ritm (latest_run tenant_id ritm_id db.runs) FulfillmentOutcome.in_progress tasks)
]

-- [t for t in tasks if t["task_id"] in ready_ids]
unfoldable pub ready_tasks : List Task → List Task
ready_tasks tasks = filter (λ t. contains t.task_id (ready_task_ids tasks)) tasks

-- if not ready_ids: return partial_status(…)
unfoldable pub unless_idle :
    List Task → Db × Option Outcome → Db × Option Outcome → Db × Option Outcome
unless_idle [] status rest = status
unless_idle (t ∷ ts) status rest = rest

-- The `for _wave in range(n)` loop.
unfoldable pub waves : ℕ → Env → String → String → Db → Db × Option Outcome
unfolding finalise partial_status apply_cascade_skips run_ready_wave ready_tasks is_terminal
    unless_idle
waves zero env tenant_id ritm_id db = finalise tenant_id ritm_id RitmOutcome.failed [] db
waves (suc n) env tenant_id ritm_id db =
    let skipped = apply_cascade_skips tenant_id (list_tasks_for_ritm tenant_id ritm_id db) db in
    let tasks = list_tasks_for_ritm tenant_id ritm_id skipped in
    let (terminal, outcome) = is_terminal (states_of tasks) in
    let wave = ready_tasks tasks in
    let rest = waves n env tenant_id ritm_id (run_ready_wave env wave skipped) in
    if terminal
    then finalise tenant_id ritm_id outcome tasks skipped
    else unless_idle wave (skipped, partial_status tenant_id ritm_id tasks skipped) rest

abbrev pub max_waves : ℕ
max_waves = 64

unfoldable pub run_initialised : Env → String → String → Db → Option Db → Db × Option Outcome
unfolding waves
run_initialised env tenant_id ritm_id db none = (db, none)
run_initialised env tenant_id ritm_id db (some db') = waves max_waves env tenant_id ritm_id db'

unfoldable pub execute_plan_locked : Env → String → String → Db → Db × Option Outcome
unfolding init_ritm_and_recover run_initialised
execute_plan_locked env tenant_id ritm_id db =
    run_initialised env tenant_id ritm_id db (init_ritm_and_recover env tenant_id ritm_id db)

-- `lock_ok` is the answer of pg_try_advisory_lock.
unfoldable pub execute_plan : Env → Bool → String → String → Db → Db × Option Outcome
unfolding execute_plan_locked partial_status
execute_plan env lock_ok tenant_id ritm_id db =
    if lock_ok
    then execute_plan_locked env tenant_id ritm_id db
    else (db, partial_status tenant_id ritm_id (list_tasks_for_ritm tenant_id ritm_id db) db)
