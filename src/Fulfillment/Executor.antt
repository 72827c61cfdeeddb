-- ===== src/Fulfillment/Executor.antt =====
-- One task of a request item: `_invoke_adapter` and `_execute_one_task` of
-- src/oneops/use_cases/uc08_fulfillment/executor.py.
pub mod Steps
use Prim.Native.String.{◌++◌ as text_append}
use mathlib.Core.Option.{get_or}
use one_ops_next_gen.Prelude.{
  ℕ, suc, ◌+◌, ◌*◌, String, Bool, true, false, ◌&&◌, ◌||◌, not, Option, none, some, Dict, lookup,
  [], ◌∷◌, ltb, eqb, if◌then◌else◌, ◌==◌,
}
use Prim.Native.Nat.{min}
use one_ops_next_gen.Fulfillment.Contracts.{
  Json, Fields, Task, TaskType, TaskState, AdapterErrorClass, AdapterResponse,
}
use one_ops_next_gen.Fulfillment.Contracts.Json.{null, text, object}
use one_ops_next_gen.Fulfillment.Contracts.Fields.{end, field}
use one_ops_next_gen.Fulfillment.Db.{Db, Change, no_change, transition_task_state, insert_approval}

-- The texts `{ritm_id}:{task_id}:{retry_count}` and `compensate:{ritm_id}:{task_id}`, by their parts.
pub data IdempotencyKey : Type 0 where
  dispatch : (ritm_id task_id : String) (retry_count : ℕ) → IdempotencyKey
  compensate : (ritm_id task_id : String) → IdempotencyKey

-- A call of an adapter's method answers after some seconds, or raises TimeoutError or another error.
pub data Reply : Type 0 where
  answers : (seconds : ℕ) → AdapterResponse → Reply
  raises_timeout : Reply
  raises : Reply

-- What is not code of this use case: the integration adapter, whose methods are looked up by the
-- tool's name; the ids that uuid4 makes; and the two settings that are read from the environment.
pub record Env : Type 0 where
  pub adapter : String → Option (String → IdempotencyKey → Dict Json → Reply)
  pub fresh_approval_id : ℕ → String
  pub adapter_call_timeout_s : ℕ
  pub stuck_task_recovery_minutes : ℕ

-- The limit of one call: min(sla_minutes * 60, 10 * cap) for a task with an SLA, else the cap.
unfoldable pub call_timeout : Env → Option ℕ → ℕ
call_timeout env none = env.adapter_call_timeout_s
call_timeout env (some sla) =
    if ltb 0 sla
    then min (sla * 60) (env.adapter_call_timeout_s * 10)
    else env.adapter_call_timeout_s

abbrev pub timed_out : AdapterResponse
timed_out = record {
  success = false;
  result = none;
  error_class = some AdapterErrorClass.timeout;
  error_message = some "adapter call exceeded its timeout";
  error_code = some "ADAPTER_CALL_TIMEOUT";
}

within : ℕ → Reply → Option AdapterResponse
within limit (answers seconds response) = some (if ltb seconds limit then response else timed_out)
within limit raises_timeout = some timed_out
within limit raises = none

-- The texts of a payload as JSON.
unfoldable texts : Dict String → Dict Json
texts [] = []
texts ((key, value) ∷ rest) = (key, text value) ∷ texts rest

-- `none` is AdapterInvocationError: no such method, or the method raised an error of another kind.
unfoldable pub invoke_adapter :
    Env → String → String → IdempotencyKey → Dict String → Option ℕ → Option AdapterResponse
unfolding within call_timeout texts
invoke_adapter env tool_id tenant_id key payload sla_minutes = elim (env.adapter tool_id) [
  | none ↦ none
  | some method ↦ within (call_timeout env sla_minutes) (method tenant_id key (texts payload))
]

abbrev pub error_class_value : AdapterErrorClass → String
error_class_value AdapterErrorClass.transient = "transient"
error_class_value AdapterErrorClass.permanent = "permanent"
error_class_value AdapterErrorClass.resource_unavailable = "resource_unavailable"
error_class_value AdapterErrorClass.unauthorized = "unauthorized"
error_class_value AdapterErrorClass.timeout = "timeout"

abbrev pub is_retryable : AdapterErrorClass → Bool
is_retryable AdapterErrorClass.transient = true
is_retryable AdapterErrorClass.timeout = true
is_retryable _ = false

abbrev pub is_manual : TaskType → Bool
is_manual TaskType.manual = true
is_manual TaskType.automated = false

-- int(task["max_retries"] or 3)
abbrev pub retry_limit : ℕ → ℕ
retry_limit n = if eqb n 0 then 3 else n

-- {key: value} as a JSON object
abbrev pub one_field : String → String → Json
one_field key value = object (field key (text value) end)

-- The transition out of `in_progress`, with what the function returns next.
unfoldable pub leave : Task → ℕ → TaskState → Change → Db → Db × Option TaskState
leave t version to_state change db = (
  (transition_task_state t.tenant_id t.task_id TaskState.in_progress to_state version change db).0,
  some to_state,
)

-- What follows the insert of the approval.
unfoldable pub park : Task → ℕ → String → Db → Option Db → Db × Option TaskState
unfolding leave
park t version approval_id db none = (db, none)
park t version approval_id db (some db') =
    leave t version TaskState.blocked
      (record no_change { output_payload = some (one_field "approval_id" approval_id) }) db'

-- task.get("assignment_group") or "manager"
abbrev pub or_manager : Option String → String
or_manager none = "manager"
or_manager (some group) = if group == "" then "manager" else group

unfoldable pub approval_gate : Env → Task → ℕ → Db → Db × Option TaskState
unfolding park
approval_gate env t version db =
    let approval_id = env.fresh_approval_id db.statement in
    park t version approval_id db (
      insert_approval approval_id t.tenant_id t.ritm_id (some t.task_id)
        (get_or (lookup "approval_type" t.input_payload) "fulfillment_step")
        (get_or (lookup "reason" t.input_payload)
          (text_append "Approval required for " t.task_name))
        (get_or (lookup "requested_from" t.input_payload) (or_manager t.assignment_group)) db)

misconfigured : Task → String
misconfigured t = text_append "task '" (
    text_append t.task_name
      "' is type=automated but has no tool_id — catalog item misconfigured; refusing to silently no-op")

unfoldable pub without_tool : Task → ℕ → Db → Db × Option TaskState
unfolding leave misconfigured
without_tool t version db =
    if is_manual t.task_type
    then leave t version TaskState.done
        (record no_change { output_payload = some (one_field "resolved" "manual_no_tool") }) db
    else leave t version TaskState.failed
        (record {
          output_payload = none;
          error_message = some (misconfigured t);
          error_code = some "catalog_misconfigured";
          retry_count = some t.retry_count;
        })
        db

-- What follows an answer of the adapter: done, back to ready, or failed.
unfoldable pub settle : Task → ℕ → AdapterResponse → Db → Db × Option TaskState
unfolding leave
settle t version response db =
    let err_class = get_or response.error_class AdapterErrorClass.permanent in
    let retry_count = t.retry_count + 1 in
    let change : Change = record {
      output_payload = none;
      error_message = response.error_message;
      error_code = some (error_class_value err_class);
      retry_count = some retry_count;
    } in
    if response.success
    then leave t version TaskState.done (record no_change { output_payload = response.result }) db
    else if is_retryable err_class && ltb retry_count (retry_limit t.max_retries)
    then leave t version TaskState.ready change db
    else leave t version TaskState.failed change db

-- `none` in the answer: the adapter's error leaves the function, and the row stays in progress.
unfoldable pub settle_or_raise : Task → ℕ → Db → Option AdapterResponse → Db × Option TaskState
unfolding settle
settle_or_raise t version db none = (db, none)
settle_or_raise t version db (some response) = settle t version response db

unfoldable pub dispatch_tool : Env → String → Task → ℕ → Db → Db × Option TaskState
unfolding settle_or_raise invoke_adapter
dispatch_tool env tool_id t version db = settle_or_raise t version db (
    invoke_adapter env tool_id t.tenant_id (dispatch t.ritm_id t.task_id t.retry_count)
      t.input_payload t.sla_minutes)

unfoldable pub with_tool : Env → String → Task → ℕ → Db → Db × Option TaskState
unfolding leave dispatch_tool
with_tool env tool_id t version db =
    if is_manual t.task_type
    then leave t version TaskState.done
        (record no_change { output_payload = some (one_field "resolved" "manual_auto") }) db
    else dispatch_tool env tool_id t version db

-- What follows the claim of the row; an empty tool id counts as none.
unfoldable pub run_claimed : Env → Option String → Task → ℕ → Db → Db × Option TaskState
unfolding approval_gate without_tool with_tool
run_claimed env none t version db = without_tool t version db
run_claimed env (some tool_id) t version db =
    if tool_id == "request_human_approval"
    then approval_gate env t version db
    else if tool_id == ""
    then without_tool t version db
    else with_tool env tool_id t version db

-- The first transition of `_execute_one_task`, on the state and version that the caller has read.
unfoldable pub claim_task : Task → Db → Db × Option ℕ
claim_task t db =
    transition_task_state t.tenant_id t.task_id t.state TaskState.in_progress t.version no_change db

-- A lost claim returns the state that was read.
unfoldable pub after_claim : Env → Task → Db × Option ℕ → Db × Option TaskState
unfolding run_claimed
after_claim env t (db, none) = (db, some t.state)
after_claim env t (db, some version) = run_claimed env t.tool_id t version db

-- `_execute_one_task`: the database after it, and the state that it returns (`none`: it raised).
unfoldable pub execute_one_task : Env → Task → Db → Db × Option TaskState
unfolding after_claim claim_task
execute_one_task env t db = after_claim env t (claim_task t db)
