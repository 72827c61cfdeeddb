-- ===== src/Fulfillment/Waves/Guarded.antt =====
-- What one task of executor.py may do to the other rows: the relation between the database before and
-- after, its rules, and `_execute_one_task`.
use one_ops_next_gen.Prelude.{
  ℕ, String, true, false, Option, none, some, ◌≡◌, ◌≢◌, refl, ap, ◌∙◌, inl, inr, arith, Memᴰ,
  Bool-cases, if_ind, ◌==◌,
}
use one_ops_next_gen.Fulfillment.Contracts.{
  AdapterResponse, Task, TaskState, task_state_eq, task_state_eq_iff,
}
use one_ops_next_gen.Fulfillment.Plan.{is_in_flight}
use one_ops_next_gen.Fulfillment.Db.{
  Db, Change, is_claimed, transition_task_state, list_tasks_for_ritm, insert_approval,
}
use one_ops_next_gen.Fulfillment.Db.Locking.{transition_task_state_isolated}
use one_ops_next_gen.Fulfillment.Db.Listing.{HasKeys, mem-update_tasks_kept, update_tasks-HasKeys}
use one_ops_next_gen.Fulfillment.Executor.{
  Env, leave, approval_gate, park, settle, settle_or_raise, is_manual, dispatch_tool, with_tool,
  without_tool, run_claimed, claim_task, after_claim, execute_one_task,
}

-- From `db` to `db'` a run of the tenant has kept every row that is not in flight, the primary key,
-- and what any other tenant lists.
pub record Guarded (tenant_id : String) (db db' : Db) : Type 0 where
  pub kept : (u : Task) → is_in_flight u.state ≡ false → Memᴰ u db.tasks → Memᴰ u db'.tasks
  pub keyed : HasKeys db.tasks → HasKeys db'.tasks
  pub isolated :
      (tenant_id' ritm_id' : String)
      → tenant_id ≢ tenant_id'
      → list_tasks_for_ritm tenant_id' ritm_id' db' ≡ list_tasks_for_ritm tenant_id' ritm_id' db

not_claimed :
    (tenant_id task_id : String) (from_state : TaskState) (version : ℕ) (u : Task)
    → is_in_flight from_state ≡ true
    → is_in_flight u.state ≡ false
    → is_claimed tenant_id task_id from_state version u ≡ false
unfolding is_claimed
not_claimed tenant_id task_id from_state version u fly final =
    elim (Bool-cases (task_state_eq u.state from_state)) [
      | inl e ↦ cc (ap is_in_flight ((task_state_eq_iff u.state from_state).0 e))
      | inr e ↦ ground (arith, e)
    ]

module _ {tenant_id : String} where
  pub Guarded-trans :
      {a b c : Db} → Guarded tenant_id a b → Guarded tenant_id b c → Guarded tenant_id a c
  Guarded-trans ab bc = record {
    kept = λ u f m. bc.kept u f (ab.kept u f m);
    keyed = λ k. bc.keyed (ab.keyed k);
    isolated = λ t r apart. bc.isolated t r apart ∙ ab.isolated t r apart;
  }

  -- A statement on another table.
  pub Guarded-of_same : {a b : Db} → b.tasks ≡ a.tasks → Guarded tenant_id a b
  unfolding list_tasks_for_ritm
  Guarded-of_same e = record {
    kept = λ u f m. rw e m;
    keyed = λ k. rw e k;
    isolated = λ t r apart. rw e refl;
  }

  pub Guarded-refl : (a : Db) → Guarded tenant_id a a
  Guarded-refl a = Guarded-of_same refl

  pub transition-Guarded :
      (task_id : String) (from_state to_state : TaskState) (version : ℕ) (change : Change) (db : Db)
      → is_in_flight from_state ≡ true
      → Guarded tenant_id db
          (transition_task_state tenant_id task_id from_state to_state version change db).0
  unfolding transition_task_state
  transition-Guarded task_id from_state to_state version change db fly = record {
    kept = λ u final m.
        mem-update_tasks_kept _ _ u db.tasks
          (not_claimed tenant_id task_id from_state version u fly final) m;
    keyed = λ k. update_tasks-HasKeys _ _ db.tasks (λ t. (refl, refl)) k;
    isolated = λ t r apart.
        transition_task_state_isolated tenant_id task_id t r from_state to_state version change db
          apart;
  }

insert_approval-tasks :
    (id tenant_id ritm_id : String) (task_id : Option String) (kind reason from : String) (db : Db)
    {db' : Db}
    → insert_approval id tenant_id ritm_id task_id kind reason from db ≡ some db'
    → db'.tasks ≡ db.tasks
unfolding insert_approval
insert_approval-tasks id tenant_id ritm_id task_id kind reason from db h = ground arith

-- One task that was read in flight.
module _ (env : Env) (t : Task) where
  leave-Guarded :
      (version : ℕ) (to_state : TaskState) (change : Change) (db : Db)
      → Guarded t.tenant_id db (leave t version to_state change db).0
  unfolding leave
  leave-Guarded version to_state change db =
      transition-Guarded t.task_id TaskState.in_progress to_state version change db refl

  abbrev pub IsGuarded : Db → Db × Option TaskState → Type 0
  IsGuarded db after = Guarded t.tenant_id db after.0

  park-Guarded :
      (version : ℕ) (id : String) (db : Db) (inserted : Option Db)
      → ((db' : Db) → inserted ≡ some db' → db'.tasks ≡ db.tasks)
      → IsGuarded db (park t version id db inserted)
  unfolding park
  park-Guarded version id db none same = Guarded-refl db
  park-Guarded version id db (some db') same =
      Guarded-trans (Guarded-of_same (same db' refl))
        (leave-Guarded version TaskState.blocked _ db')

  settle-Guarded :
      (version : ℕ) (r : AdapterResponse) (db : Db) → IsGuarded db (settle t version r db)
  unfolding settle
  settle-Guarded version r db =
      if_ind (IsGuarded db) r.success (leave-Guarded version TaskState.done _ db) (
        if_ind (IsGuarded db) _ (leave-Guarded version TaskState.ready _ db)
          (leave-Guarded version TaskState.failed _ db))

  settle_or_raise-Guarded :
      (version : ℕ) (db : Db) (reply : Option AdapterResponse)
      → IsGuarded db (settle_or_raise t version db reply)
  unfolding settle_or_raise
  settle_or_raise-Guarded version db none = Guarded-refl db
  settle_or_raise-Guarded version db (some r) = settle-Guarded version r db

  without_tool-Guarded : (version : ℕ) (db : Db) → IsGuarded db (without_tool t version db)
  unfolding without_tool
  without_tool-Guarded version db =
      if_ind (IsGuarded db) (is_manual t.task_type) (leave-Guarded version TaskState.done _ db)
        (leave-Guarded version TaskState.failed _ db)

  run_claimed-Guarded :
      (tool : Option String) (version : ℕ) (db : Db)
      → IsGuarded db (run_claimed env tool t version db)
  unfolding run_claimed approval_gate with_tool dispatch_tool
  run_claimed-Guarded none version db = without_tool-Guarded version db
  run_claimed-Guarded (some tool) version db =
      if_ind (IsGuarded db) (tool == "request_human_approval")
        (park-Guarded version _ db _ (λ db' e. insert_approval-tasks _ _ _ _ _ _ _ db e))
        (if_ind (IsGuarded db) (tool == "") (without_tool-Guarded version db) (
          if_ind (IsGuarded db) (is_manual t.task_type) (leave-Guarded version TaskState.done _ db)
            (settle_or_raise-Guarded version db _)))

  after_claim-Guarded : (claim : Db × Option ℕ) → IsGuarded claim.0 (after_claim env t claim)
  unfolding after_claim
  after_claim-Guarded (db, none) = Guarded-refl db
  after_claim-Guarded (db, some v) = run_claimed-Guarded t.tool_id v db

  pub execute_one_task-Guarded :
      (db : Db) → is_in_flight t.state ≡ true → IsGuarded db (execute_one_task env t db)
  unfolding execute_one_task claim_task
  execute_one_task-Guarded db fly =
      Guarded-trans (transition-Guarded t.task_id t.state TaskState.in_progress t.version _ db fly)
        (after_claim-Guarded (claim_task t db))
