-- ===== src/Fulfillment/Compensation.antt =====
-- Saga compensation: `compensate_ritm` and `_compensate_one_task` of
-- src/oneops/use_cases/uc08_fulfillment/executor.py.
pub mod Outcomes
pub mod Undone
use one_ops_next_gen.Prelude.{
  ℕ, String, Bool, true, false, not, List, [], ◌∷◌, Option, none, some, Dict, lookup, filter,
  if◌then◌else◌, ◌==◌,
}
use one_ops_next_gen.Authz.DecisionCache.{sorted, text_le}
use one_ops_next_gen.Fulfillment.Contracts.{
  Json, Fields, Task, TaskState, Ritm, RitmState, AdapterResponse, ritm_state_eq,
}
use one_ops_next_gen.Fulfillment.Plan.{is_done}
use one_ops_next_gen.Fulfillment.Db.{Db, list_tasks_for_ritm, get_ritm, transition_ritm_state}
use one_ops_next_gen.Fulfillment.Executor.{IdempotencyKey, Reply, Env}

-- The compensating tool, its keyword and the field of the output that it takes.
pub record Binding : Type 0 where
  pub tool : String
  pub id_kwarg : String
  pub id_source : String

abbrev undoes : String → String → Binding
undoes tool field = record { tool = tool; id_kwarg = field; id_source = field }

-- `_COMPENSATION_REGISTRY`
abbrev pub compensation_registry : Dict Binding
compensation_registry =
    ("create_directory_account", undoes "disable_directory_account" "account_id")
    ∷ ("provision_email_mailbox", undoes "deprovision_email_mailbox" "mailbox_id")
    ∷ ("grant_vpn_access", undoes "revoke_vpn_access" "config_id")
    ∷ ("assign_software_license", undoes "release_software_license" "license_id")
    ∷ ("order_hardware_asset", undoes "cancel_hardware_order" "po_id")
    ∷ []

-- What became of one task.
pub data Undoing : Type 0 where
  skipped_no_op : Undoing
  missing_method : (tool : String) → Undoing
  missing_handle : (tool field : String) → Undoing
  called : (tool : String) (ok : Bool) → Undoing

unfoldable pub field_of : String → Fields → Option Json
field_of key Fields.end = none
field_of key (Fields.field k value rest) = if k == key then some value else field_of key rest

-- output.get(key) on what is left of the payload: outside, `none` is the error that a text has no
-- `get`; inside, it is a missing key. What is empty counts as {}.
unfoldable pub get_field : String → Json → Option (Option Json)
unfolding field_of
get_field key Json.null = some none
get_field key (Json.text s) = if s == "" then some none else none
get_field key (Json.object fields) = some (field_of key fields)

unwrapped : Fields → Option Json → Json
unwrapped fields none = Json.object fields
unwrapped fields (some result) = result

-- The payload, or the value of its key `result`.
unfoldable pub output_of : Option Json → Json
unfolding field_of unwrapped
output_of none = Json.null
output_of (some (Json.object fields)) = unwrapped fields (field_of "result" fields)
output_of (some other) = other

-- What is true for Python.
unfoldable pub is_truthy : Json → Bool
is_truthy Json.null = false
is_truthy (Json.text s) = not (s == "")
is_truthy (Json.object Fields.end) = false
is_truthy (Json.object (Fields.field k value rest)) = true

-- comp_id, if it is true.
unfoldable pub handle_of : Option Json → Option Json
unfolding is_truthy
handle_of none = none
handle_of (some value) = if is_truthy value then some value else none

was_called : String → Reply → Undoing
was_called tool (Reply.answers seconds response) = Undoing.called tool response.success
was_called tool Reply.raises_timeout = Undoing.called tool false
was_called tool Reply.raises = Undoing.called tool false

unfoldable pub call_undo :
    Binding → Task → (String → IdempotencyKey → Dict Json → Reply) → Option Json → Undoing
unfolding was_called
call_undo b t method none = Undoing.missing_handle b.tool b.id_source
call_undo b t method (some id) =
    was_called b.tool
      (method t.tenant_id (IdempotencyKey.compensate t.ritm_id t.task_id) ((b.id_kwarg, id) ∷ []))

unfoldable pub undo_by_handle :
    Binding
    → Task
    → (String → IdempotencyKey → Dict Json → Reply)
    → Option (Option Json)
    → Option Undoing
unfolding call_undo handle_of
undo_by_handle b t method none = none
undo_by_handle b t method (some value) = some (call_undo b t method (handle_of value))

unfoldable pub undo_by :
    Binding → Task → Option (String → IdempotencyKey → Dict Json → Reply) → Option Undoing
unfolding undo_by_handle get_field output_of
undo_by b t none = some (Undoing.missing_method b.tool)
undo_by b t (some method) =
    undo_by_handle b t method (get_field b.id_source (output_of t.output_payload))

unfoldable pub undo_bound : Env → Task → Option Binding → Option Undoing
unfolding undo_by
undo_bound env t none = some Undoing.skipped_no_op
undo_bound env t (some b) = undo_by b t (env.adapter b.tool)

unfoldable pub undo_tool : Env → Task → Option String → Option Undoing
unfolding undo_bound
undo_tool env t none = some Undoing.skipped_no_op
undo_tool env t (some tool_id) = undo_bound env t (lookup tool_id compensation_registry)

-- `none`: an error is raised.
unfoldable pub compensate_one_task : Env → Task → Option Undoing
unfolding undo_tool
compensate_one_task env t = undo_tool env t t.tool_id

unfoldable pub with_undoing :
    String → Option Undoing → Option (List (String × Undoing)) → Option (List (String × Undoing))
with_undoing id (some u) (some rest) = some ((id, u) ∷ rest)
with_undoing id none rest = none
with_undoing id (some u) none = none

unfoldable pub compensate_each : Env → List Task → Option (List (String × Undoing))
unfolding compensate_one_task with_undoing
compensate_each env [] = some []
compensate_each env (t ∷ ts) =
    with_undoing t.task_id (compensate_one_task env t) (compensate_each env ts)

-- template_task_id, the last first; rows of one template keep their order.
abbrev pub later_first : Task → Task → Bool
later_first a b = text_le b.template_task_id a.template_task_id

unfoldable pub completed_tasks : List Task → List Task
unfolding sorted
completed_tasks tasks = sorted later_first (filter (λ t. is_done t.state) tasks)

unfoldable pub cancel_ritm : String → String → Option Ritm → Db → Db
cancel_ritm tenant_id ritm_id none db = db
cancel_ritm tenant_id ritm_id (some ritm) db =
    if ritm_state_eq ritm.state RitmState.cancelled
    then db
    else transition_ritm_state tenant_id ritm_id ritm.state RitmState.cancelled ritm.version none
        none db

unfoldable pub after_undoing :
    String → String → Db → Option (List (String × Undoing)) → Option (List (String × Undoing) × Db)
unfolding cancel_ritm
after_undoing tenant_id ritm_id db none = none
after_undoing tenant_id ritm_id db (some results) =
    some (results, cancel_ritm tenant_id ritm_id (get_ritm tenant_id ritm_id db) db)

unfoldable pub compensate_ritm : Env → String → String → Db → Option (List (String × Undoing) × Db)
unfolding compensate_each completed_tasks after_undoing
compensate_ritm env tenant_id ritm_id db =
    after_undoing tenant_id ritm_id db
      (compensate_each env (completed_tasks (list_tasks_for_ritm tenant_id ritm_id db)))
