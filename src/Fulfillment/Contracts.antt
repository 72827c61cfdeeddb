-- ===== src/Fulfillment/Contracts.antt =====
-- The vocabulary of the fulfilment use case: src/oneops/use_cases/uc08_fulfillment/contracts.py,
-- adapters/protocol.py, and the columns of itsm.task, itsm.request_item, itsm.approval and
-- itsm.fulfillment_run that the executor reads or writes.
use one_ops_next_gen.Prelude.{ℕ, String, Bool, true, false, List, Option, ◌≡◌, ◌↔◌, arith, Dict}

pub data TaskType : Type 0 where
  automated manual : TaskType

pub data TaskState : Type 0 where
  pending ready in_progress done failed skipped blocked : TaskState

pub data RitmState : Type 0 where
  requested approved in_progress fulfilled cancelled rejected failed : RitmState

pub data ApprovalState : Type 0 where
  pending approved rejected expired withdrawn : ApprovalState

pub data ApprovalGateState : Type 0 where
  not_required requested approved rejected : ApprovalGateState

pub data FulfillmentOutcome : Type 0 where
  fulfilled partial failed cancelled in_progress : FulfillmentOutcome

pub data AdapterErrorClass : Type 0 where
  transient permanent resource_unavailable unauthorized timeout : AdapterErrorClass

-- A JSON value, as far as the executor looks into one.
mutual
  pub data Json : Type 0 where
    null : Json
    text : String → Json
    object : Fields → Json

  pub data Fields : Type 0 where
    end : Fields
    field : String → Json → Fields → Fields

-- A row of itsm.task; times are seconds.
pub record Task : Type 0 where
  pub tenant_id : String
  pub ritm_id : String
  pub task_id : String
  pub template_task_id : String
  pub task_name : String
  pub task_type : TaskType
  pub tool_id : Option String
  pub depends_on : List String
  pub state : TaskState
  pub retry_count : ℕ
  pub max_retries : ℕ
  pub input_payload : Dict String
  pub output_payload : Option Json
  pub error_message : Option String
  pub error_code : Option String
  pub assignment_group : Option String
  pub sla_minutes : Option ℕ
  pub version : ℕ
  pub ready_at : Option ℕ
  pub started_at : Option ℕ
  pub finished_at : Option ℕ
  pub updated_at : ℕ

-- A row of itsm.request_item.
pub record Ritm : Type 0 where
  pub tenant_id : String
  pub ritm_id : String
  pub request_id : String
  pub catalog_item_id : String
  pub state : RitmState
  pub approval_state : Option ApprovalGateState
  pub total_tasks : ℕ
  pub completed_tasks : ℕ
  pub failed_tasks : ℕ
  pub version : ℕ
  pub approved_at : Option ℕ
  pub started_at : Option ℕ
  pub fulfilled_at : Option ℕ
  pub closed_at : Option ℕ
  pub updated_at : ℕ

-- A row of itsm.approval.
pub record Approval : Type 0 where
  pub tenant_id : String
  pub approval_id : String
  pub ritm_id : String
  pub task_id : Option String
  pub approval_type : String
  pub reason : String
  pub requested_from : String
  pub state : ApprovalState
  pub decision : Option ApprovalState
  pub decided_by : Option String
  pub decision_comment : Option String
  pub decided_at : Option ℕ
  pub version : ℕ

-- What an adapter call answers: adapters/protocol.py, AdapterResponse.
pub record AdapterResponse : Type 0 where
  pub success : Bool
  pub result : Option Json
  pub error_class : Option AdapterErrorClass
  pub error_message : Option String
  pub error_code : Option String

-- Tests of equality on the enumerations that the SQL compares.
unfoldable pub task_state_eq : TaskState → TaskState → Bool
task_state_eq pending pending = true
task_state_eq ready ready = true
task_state_eq in_progress in_progress = true
task_state_eq done done = true
task_state_eq failed failed = true
task_state_eq skipped skipped = true
task_state_eq blocked blocked = true
task_state_eq _ _ = false

unfoldable pub ritm_state_eq : RitmState → RitmState → Bool
ritm_state_eq requested requested = true
ritm_state_eq approved approved = true
ritm_state_eq in_progress in_progress = true
ritm_state_eq fulfilled fulfilled = true
ritm_state_eq cancelled cancelled = true
ritm_state_eq rejected rejected = true
ritm_state_eq failed failed = true
ritm_state_eq _ _ = false

pub task_state_eq_iff : (a b : TaskState) → (task_state_eq a b ≡ true) ↔ (a ≡ b)
unfolding task_state_eq
task_state_eq_iff a b = ground arith

pub ritm_state_eq_iff : (a b : RitmState) → (ritm_state_eq a b ≡ true) ↔ (a ≡ b)
unfolding ritm_state_eq
ritm_state_eq_iff a b = ground arith
