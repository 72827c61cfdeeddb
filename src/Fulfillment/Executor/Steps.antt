-- ===== src/Fulfillment/Executor/Steps.antt =====
-- What `_execute_one_task` of executor.py does on each of its paths.
use mathlib.Core.Option.{get_or}
use one_ops_next_gen.Prelude.{
  ℕ, ◌+◌, ◌<◌, String, true, false, Option, none, some, ◌≡◌, ◌↔◌, ◌⊎◌, inl, inr, refl, ap, ◌∙◌,
  arith, Dict, lookup, Bool, Bool-cases, Rows, ◌&&◌, ltb, if◌then◌else◌,
}
use one_ops_next_gen.Fulfillment.Contracts.{
  Json, Task, TaskType, TaskState, AdapterErrorClass, AdapterResponse,
}
use one_ops_next_gen.Fulfillment.Db.{
  Db, Change, no_change, now, transition_task_state, insert_approval,
}
use one_ops_next_gen.Fulfillment.Db.Moved.{IsStep}
use one_ops_next_gen.Fulfillment.Db.Locking.{transition_task_state_lock}
use one_ops_next_gen.Fulfillment.Executor.{
  approval_gate, leave, error_class_value, Env, IdempotencyKey, Reply, settle, after_claim,
  claim_task, run_claimed, execute_one_task, is_retryable, retry_limit,
}

-- The state that an adapter's answer asks for.
unfoldable pub IsVerdict : Task → AdapterResponse → TaskState → Type 0
IsVerdict t response s =
    let may_retry =
      (is_retryable (get_or response.error_class AdapterErrorClass.permanent) ≡ true)
      × (t.retry_count + 1 < retry_limit t.max_retries) in
    ((s ≡ TaskState.done) ↔ (response.success ≡ true))
    × ((s ≡ TaskState.ready) ↔ ((response.success ≡ false) × may_retry))
    × ((s ≡ TaskState.failed) ↔ ((response.success ≡ false) × ¬ may_retry))

-- What is written of the answer: the result of a success; of a failure its message, its class as the
-- error code, and one retry more.
unfoldable pub IsReport : Task → AdapterResponse → Change → Type 0
IsReport t response change =
    (response.success ≡ true
      → (change.output_payload ≡ response.result)
        × (change.error_message ≡ none)
        × (change.error_code ≡ none)
        × (change.retry_count ≡ none))
    × (response.success ≡ false
        → (change.output_payload ≡ none)
          × (change.error_message ≡ response.error_message)
          × (change.error_code
              ≡ some (error_class_value (get_or response.error_class AdapterErrorClass.permanent)))
          × (change.retry_count ≡ some (t.retry_count + 1)))

-- The claimed row has left `in_progress` as the answer asks for, and every other row has stayed.
unfoldable pub IsSettled : Task → ℕ → AdapterResponse → Db → Db × Option TaskState → Type 0
IsSettled t version response db (db', verdict) =
    (s : TaskState) × (change : Change) × (verdict ≡ some s)
    × IsVerdict t response s
    × IsReport t response change
    × Rows (IsStep (now db) t.tenant_id t.task_id TaskState.in_progress s version change) db.tasks
        db'.tasks

leave-IsSettled :
    (t : Task) (version : ℕ) (response : AdapterResponse) (s : TaskState) (change : Change)
    (db : Db)
    → IsVerdict t response s
    → IsReport t response change
    → IsSettled t version response db (leave t version s change db)
unfolding IsSettled leave
leave-IsSettled t version response s change db verdict report = (
  s,
  change,
  refl,
  verdict,
  report,
  (transition_task_state_lock t.tenant_id t.task_id TaskState.in_progress s version change db).0,
)

IsVerdict-done :
    (t : Task) (response : AdapterResponse)
    → response.success ≡ true
    → IsVerdict t response TaskState.done
unfolding IsVerdict
IsVerdict-done t response good =
    ((ground arith, ground arith), (ground arith, ground arith), (ground arith, ground arith))

IsVerdict-failure :
    (t : Task) (response : AdapterResponse) (again : Bool)
    → response.success ≡ false
    → (is_retryable (get_or response.error_class AdapterErrorClass.permanent)
        && ltb (t.retry_count + 1) (retry_limit t.max_retries))
      ≡ again
    → IsVerdict t response (if again then TaskState.ready else TaskState.failed)
unfolding IsVerdict
IsVerdict-failure t response true bad e =
    ((ground arith, ground arith), (ground arith, ground arith), (ground arith, ground arith))
IsVerdict-failure t response false bad e =
    ((ground arith, ground arith), (ground arith, ground arith), (ground arith, ground arith))

IsReport-success :
    (t : Task) (response : AdapterResponse)
    → response.success ≡ true
    → IsReport t response (record no_change { output_payload = response.result })
unfolding IsReport
IsReport-success t response good = (λ h. (refl, refl, refl, refl), λ bad. cc)

abbrev failure_of : Task → AdapterResponse → Change
failure_of t response = record {
  output_payload = none;
  error_message = response.error_message;
  error_code = some (error_class_value (get_or response.error_class AdapterErrorClass.permanent));
  retry_count = some (t.retry_count + 1);
}

IsReport-failure :
    (t : Task) (response : AdapterResponse)
    → response.success ≡ false
    → IsReport t response (failure_of t response)
unfolding IsReport
IsReport-failure t response bad = (λ good. cc, λ h. (refl, refl, refl, refl))

-- What an adapter's answer does to the row that was claimed: it leaves `in_progress` for `done`
-- exactly on success; for `ready` exactly on a transient failure or a timeout while the new retry
-- count is below the limit (3 where the row has 0); and for `failed` on every other failure. The
-- row takes the result of a success, or the message, the class and the new retry count of a failure,
-- every other row stays as it is, and the function returns the state that it wrote.
pub settle_verdict :
    (t : Task) (version : ℕ) (response : AdapterResponse) (db : Db)
    → IsSettled t version response db (settle t version response db)
unfolding settle
settle_verdict t version response db = elim (Bool-cases response.success) [
  | inl good ↦ simp good (
      leave-IsSettled t version response _ _ db (IsVerdict-done t response good)
        (IsReport-success t response good))
  | inr bad ↦
      let report = IsReport-failure t response bad in
      elim (Bool-cases (
        is_retryable (get_or response.error_class AdapterErrorClass.permanent)
        && ltb (t.retry_count + 1) (retry_limit t.max_retries))) [
          | inl e ↦
              simp (bad, e)
                (leave-IsSettled t version response _ _ db (IsVerdict-failure t response true bad e)
                  report)
          | inr e ↦
              simp (bad, e)
                (leave-IsSettled t version response _ _ db
                  (IsVerdict-failure t response false bad e) report)
        ]
]

module _ (env : Env) (adapter : String → Option (String → IdempotencyKey → Dict Json → Reply))
    (t : Task) where
  abbrev other_env : Env
  other_env = record env { adapter = adapter }

  run_claimed_by_hand :
      (tool : Option String) (version : ℕ) (db : Db)
      → (tool ≡ some "request_human_approval") ⊎ (t.task_type ≡ TaskType.manual) ⊎ (tool ≡ none)
      → run_claimed other_env tool t version db ≡ run_claimed env tool t version db
  unfolding run_claimed
  run_claimed_by_hand none version db h = refl
  run_claimed_by_hand (some tool_id) version db (inl gate) =
      let same : tool_id ≡ "request_human_approval" = cc in rw same
  run_claimed_by_hand (some tool_id) version db (inr (inl manual)) = rw manual
  run_claimed_by_hand (some tool_id) version db (inr (inr bare)) = cc

  after_claim_by_hand :
      (claim : Db × Option ℕ)
      → (t.tool_id ≡ some "request_human_approval")
        ⊎ (t.task_type ≡ TaskType.manual)
        ⊎ (t.tool_id ≡ none)
      → after_claim other_env t claim ≡ after_claim env t claim
  unfolding after_claim
  after_claim_by_hand (db, none) h = refl
  after_claim_by_hand (db, some version) h = run_claimed_by_hand t.tool_id version db h

-- A task that a person is to do never reaches the integration adapter: an approval gate, a manual
-- task and a task with no tool run the same whatever the adapter is.
pub execute_one_task_by_hand :
    (env : Env) (adapter : String → Option (String → IdempotencyKey → Dict Json → Reply)) (t : Task)
    (db : Db)
    → (t.tool_id ≡ some "request_human_approval")
      ⊎ (t.task_type ≡ TaskType.manual)
      ⊎ (t.tool_id ≡ none)
    → execute_one_task (record env { adapter = adapter }) t db ≡ execute_one_task env t db
unfolding execute_one_task
execute_one_task_by_hand env adapter t db h = after_claim_by_hand env adapter t (claim_task t db) h

run_claimed_untyped :
    (env : Env) (t : Task) (version : ℕ) (db : Db)
    → lookup "approval_type" t.input_payload ≡ none
    → run_claimed env (some "request_human_approval") t version db ≡ (db, none)
unfolding run_claimed insert_approval
run_claimed_untyped env t version db untyped = rw (untyped, approval_gate)

after_claim_untyped :
    (env : Env) (t : Task) (claim : Db × Option ℕ) {version : ℕ}
    → t.tool_id ≡ some "request_human_approval"
    → lookup "approval_type" t.input_payload ≡ none
    → claim.1 ≡ some version
    → after_claim env t claim ≡ (claim.0, none)
unfolding after_claim
after_claim_untyped env t (db, none) gate untyped e = cc
after_claim_untyped env t (db, some v) gate untyped e =
    ap (λ tool. run_claimed env tool t v db) gate ∙ run_claimed_untyped env t v db untyped

-- An approval gate whose payload names no approval type asks for the type `fulfillment_step`, which
-- the table refuses: once the row is claimed the function raises, the database stays as the claim has
-- left it, and no approval is asked for.
pub approval_gate_default_type :
    (env : Env) (t : Task) (db : Db) {version : ℕ}
    → t.tool_id ≡ some "request_human_approval"
    → lookup "approval_type" t.input_payload ≡ none
    → (claim_task t db).1 ≡ some version
    → (execute_one_task env t db ≡ ((claim_task t db).0, none))
      × ((execute_one_task env t db).0.approvals ≡ db.approvals)
unfolding execute_one_task transition_task_state
approval_gate_default_type env t db gate untyped claimed =
    let e = after_claim_untyped env t (claim_task t db) gate untyped claimed in (e, rw e)
