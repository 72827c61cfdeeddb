-- ===== src/Scenarios/Fixtures.antt =====
-- A request item of two automated tasks in a row, an approval gate, and an environment, for the
-- runs of the fulfilment use case.
use one_ops_next_gen.Prelude.{String, true, false, List, [], ◌∷◌, Option, none, some, Dict}
use one_ops_next_gen.Fulfillment.Contracts.{
  Task, TaskType, TaskState, Ritm, RitmState, ApprovalGateState, AdapterResponse, AdapterErrorClass,
}
use one_ops_next_gen.Fulfillment.Db.{Db}
use one_ops_next_gen.Fulfillment.Executor.{Env, Reply}

abbrev pub a_task : String → Option String → List String → Dict String → TaskState → Task
a_task id tool deps payload state = record {
  tenant_id = "acme";
  ritm_id = "RITM1";
  task_id = id;
  template_task_id = id;
  task_name = id;
  task_type = TaskType.automated;
  tool_id = tool;
  depends_on = deps;
  state = state;
  retry_count = 0;
  max_retries = 3;
  input_payload = payload;
  output_payload = none;
  error_message = none;
  error_code = none;
  assignment_group = none;
  sla_minutes = none;
  version = 1;
  ready_at = none;
  started_at = none;
  finished_at = none;
  updated_at = 0;
}

-- The tool is called first; the second task waits for it.
abbrev pub grant_access : Task
grant_access = a_task "T1" (some "grant_access") [] [] TaskState.pending

abbrev pub mail_user : Task
mail_user = a_task "T2" (some "mail_user") ("T1" ∷ []) [] TaskState.pending

abbrev pub two_tasks : List Task
two_tasks = grant_access ∷ mail_user ∷ []

-- An approval gate whose payload names no approval type.
abbrev pub gate : Task
gate = a_task "T3" (some "request_human_approval") [] [] TaskState.ready

abbrev pub item : Ritm
item = record {
  tenant_id = "acme";
  ritm_id = "RITM1";
  request_id = "REQ1";
  catalog_item_id = "CAT1";
  state = RitmState.approved;
  approval_state = some ApprovalGateState.approved;
  total_tasks = 2;
  completed_tasks = 0;
  failed_tasks = 0;
  version = 1;
  approved_at = none;
  started_at = none;
  fulfilled_at = none;
  closed_at = none;
  updated_at = 0;
}

abbrev pub db_of : List Task → Db
db_of tasks = record {
  tasks = tasks;
  ritms = item ∷ [];
  approvals = [];
  runs = [];
  requests = [];
  now_at = λ n. n;
  statement = 0;
}

abbrev pub succeeds : AdapterResponse
succeeds = record {
  success = true;
  result = none;
  error_class = none;
  error_message = none;
  error_code = none;
}

abbrev pub breaks_off : AdapterResponse
breaks_off = record {
  success = false;
  result = none;
  error_class = some AdapterErrorClass.transient;
  error_message = some "connection reset";
  error_code = none;
}

abbrev pub env : Env
env = record {
  adapter = λ tool. some (λ tenant key payload. Reply.answers 1 succeeds);
  fresh_approval_id = λ n. "APR1";
  adapter_call_timeout_s = 60;
  stuck_task_recovery_minutes = 15;
}
