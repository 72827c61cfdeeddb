-- ===== src/Fulfillment/Waves/Report.antt =====
-- What the outcome that `execute_plan` reports says of the rows it leaves behind.
use one_ops_next_gen.Prelude.{
  ℕ, zero, suc, String, Bool, true, List, [], ◌∷◌, Option, none, some, ◌≡◌, sym, ◌∙◌, arith, all,
  if_ind,
}
use one_ops_next_gen.Fulfillment.Contracts.{FulfillmentOutcome, Task}
use one_ops_next_gen.Fulfillment.Plan.{is_settled, states_of, is_terminal, RitmOutcome}
use one_ops_next_gen.Fulfillment.Plan.Terminal.{is_terminal_outcome}
use one_ops_next_gen.Fulfillment.Db.{Db, list_tasks_for_ritm, transition_ritm_state, finalise_run}
use one_ops_next_gen.Fulfillment.Executor.{Env}
use one_ops_next_gen.Fulfillment.Waves.{
  Outcome, outcome_of, report, finalise, partial_status, apply_cascade_skips, run_ready_wave,
  ready_tasks, unless_idle, waves, max_waves, run_initialised, init_ritm_and_recover,
  execute_plan_locked, execute_plan,
}

-- A report of `fulfilled` is true of the rows of the request item.
pub record IsHonest (tenant_id ritm_id : String) (after : Db × Option Outcome) : Type 0 where
  pub settled :
      (o : Outcome)
      → after.1 ≡ some o
      → o.outcome ≡ FulfillmentOutcome.fulfilled
      → all is_settled (states_of (list_tasks_for_ritm tenant_id ritm_id after.0)) ≡ true

module _ (tenant_id ritm_id : String) where
  finalise-outcome :
      (outcome : RitmOutcome) (tasks : List Task) (db : Db) {o : Outcome}
      → (finalise tenant_id ritm_id outcome tasks db).1 ≡ some o
      → o.outcome ≡ outcome_of outcome
  unfolding finalise report
  finalise-outcome outcome tasks db h = ground arith

  finalise-listed :
      (outcome : RitmOutcome) (tasks : List Task) (db : Db)
      → list_tasks_for_ritm tenant_id ritm_id (finalise tenant_id ritm_id outcome tasks db).0
        ≡ list_tasks_for_ritm tenant_id ritm_id db
  unfolding finalise list_tasks_for_ritm transition_ritm_state finalise_run
  finalise-listed outcome tasks db = ground arith

  partial_status-outcome :
      (tasks : List Task) (db : Db) {o : Outcome}
      → partial_status tenant_id ritm_id tasks db ≡ some o
      → o.outcome ≡ FulfillmentOutcome.in_progress
  unfolding partial_status report
  partial_status-outcome tasks db h = ground arith

  fulfilled-outcome_of :
      (outcome : RitmOutcome)
      → outcome_of outcome ≡ FulfillmentOutcome.fulfilled
      → outcome ≡ RitmOutcome.fulfilled
  fulfilled-outcome_of outcome h = ground arith

  abbrev Honest : Db × Option Outcome → Type 0
  Honest = IsHonest tenant_id ritm_id

  status-Honest :
      (tasks : List Task) (db : Db) → Honest (db, partial_status tenant_id ritm_id tasks db)
  status-Honest tasks db = record { settled = λ o e f. cc (partial_status-outcome tasks db e) }

  finalise_failed-Honest :
      (tasks : List Task) (db : Db)
      → Honest (finalise tenant_id ritm_id RitmOutcome.failed tasks db)
  finalise_failed-Honest tasks db = record {
    settled = λ o e f. cc (finalise-outcome RitmOutcome.failed tasks db e);
  }

  finalise-Honest :
      (db : Db)
      → let tasks = list_tasks_for_ritm tenant_id ritm_id db in
        Honest (finalise tenant_id ritm_id (is_terminal (states_of tasks)).1 tasks db)
  finalise-Honest db = record {
    settled = λ o e f.
        let tasks = list_tasks_for_ritm tenant_id ritm_id db in
        let outcome = (is_terminal (states_of tasks)).1 in
        let named = fulfilled-outcome_of outcome (sym (finalise-outcome outcome tasks db e) ∙ f) in
        rw (finalise-listed outcome tasks db)
          (((is_terminal_outcome (states_of tasks)).1.0 named).1);
  }

  unless_idle-Honest :
      (wave : List Task) (status rest : Db × Option Outcome)
      → Honest status
      → Honest rest
      → Honest (unless_idle wave status rest)
  unfolding unless_idle
  unless_idle-Honest [] status rest s r = s
  unless_idle-Honest (t ∷ ts) status rest s r = r

  waves-Honest : (n : ℕ) (env : Env) (db : Db) → Honest (waves n env tenant_id ritm_id db)
  unfolding waves
  waves-Honest zero env db = finalise_failed-Honest [] db
  waves-Honest (suc n) env db =
      let skipped = apply_cascade_skips tenant_id (list_tasks_for_ritm tenant_id ritm_id db) db in
      let tasks = list_tasks_for_ritm tenant_id ritm_id skipped in
      if_ind Honest (is_terminal (states_of tasks)).0 (finalise-Honest skipped) (
        unless_idle-Honest (ready_tasks tasks) _ _ (status-Honest tasks skipped)
          (waves-Honest n env (run_ready_wave env (ready_tasks tasks) skipped)))

  run_initialised-Honest :
      (env : Env) (db : Db) (start : Option Db)
      → Honest (run_initialised env tenant_id ritm_id db start)
  unfolding run_initialised
  run_initialised-Honest env db none = record { settled = λ o e f. cc }
  run_initialised-Honest env db (some db') = waves-Honest max_waves env db'

-- A run never reports a false success: if it reports `fulfilled`, each row of the request item that
-- it leaves behind is done or skipped, whatever the adapter answered and whoever held the lock.
pub execute_plan-IsHonest :
    (env : Env) (lock_ok : Bool) (tenant_id ritm_id : String) (db : Db)
    → IsHonest tenant_id ritm_id (execute_plan env lock_ok tenant_id ritm_id db)
unfolding execute_plan execute_plan_locked
execute_plan-IsHonest env lock_ok tenant_id ritm_id db =
    if_ind (IsHonest tenant_id ritm_id) lock_ok
      (run_initialised-Honest tenant_id ritm_id env db
        (init_ritm_and_recover env tenant_id ritm_id db))
      (status-Honest tenant_id ritm_id (list_tasks_for_ritm tenant_id ritm_id db) db)
