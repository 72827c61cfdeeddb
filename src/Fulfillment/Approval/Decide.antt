-- ===== src/Fulfillment/Approval/Decide.antt =====
-- `decide_approval` of src/oneops/use_cases/uc08_fulfillment/approval.py. The approval is read
-- before the transaction begins: `seen` is the database then, `db` the database of the transaction.
pub mod Release
pub mod Once
use one_ops_next_gen.Prelude.{
  ℕ, suc, ◌+◌, String, Bool, true, false, not, ◌&&◌, List, [], ◌∷◌, Option, none, some,
  if◌then◌else◌, ◌==◌,
}
use one_ops_next_gen.Fulfillment.Contracts.{Approval, ApprovalState}
use one_ops_next_gen.Fulfillment.Db.{Db}
use one_ops_next_gen.Fulfillment.Db.Approvals.{
  approval_state_eq, get_approval, decision_state, update_approval_decision,
  withdraw_other_pending_approvals, apply_approval_outcome, set_request_lifecycle,
}

-- The `state` of an outcome: that of the approval, `error`, or `already`.
pub data OutcomeState : Type 0 where
  decided : ApprovalState → OutcomeState
  error : OutcomeState
  already : OutcomeState

pub data Message : Type 0 where
  not_a_decision : Message
  approval_not_found : Message
  was_already_decided : Message
  not_the_approver : Message
  will_start : String → Message
  will_not_be_fulfilled : String → Message

pub record DecisionOutcome : Type 0 where
  pub ok : Bool
  pub ritm_id : Option String
  pub state : OutcomeState
  pub should_dispatch : Bool
  pub message : Message

-- The arguments of a call.
pub record Decision : Type 0 where
  pub tenant_id : String
  pub approval_id : String
  pub decision : String
  pub decided_by : String
  pub comment : Option String

stop : Bool → Option String → OutcomeState → Message → DecisionOutcome
stop ok ritm_id state message = record {
  ok = ok;
  ritm_id = ritm_id;
  state = state;
  should_dispatch = false;
  message = message;
}

withdrawn_if : Bool → String → String → String → Db → Db
withdrawn_if true tenant_id ritm_id approval_id db =
    withdraw_other_pending_approvals tenant_id ritm_id approval_id db
withdrawn_if false tenant_id ritm_id approval_id db = db

-- The customer-facing request after a transition.
unfoldable pub stamped : String → Bool → Db × Option String → Db × Bool
stamped tenant_id approved (db, none) = (db, false)
stamped tenant_id approved (db, some request_id) = (
  set_request_lifecycle tenant_id request_id (if approved then "approved" else "rejected")
      (if approved then "fulfillment" else "closed") db,
  true,
)

unfoldable pub released : Bool → String → Db × Bool → DecisionOutcome × Db
released approved ritm_id (db, transitioned) = (
  record {
    ok = true;
    ritm_id = some ritm_id;
    state = OutcomeState.decided (decision_state approved);
    should_dispatch = approved && transitioned;
    message =
        if approved then Message.will_start ritm_id else Message.will_not_be_fulfilled ritm_id;
  },
  db,
)

-- The transaction after the approval's own row has been written, or not.
after_update : Decision → Bool → Approval → Db × Option String → DecisionOutcome × Db
unfolding withdrawn_if stamped released stop
after_update d approved appr (db, none) =
    (stop true (some appr.ritm_id) OutcomeState.already Message.was_already_decided, db)
after_update d approved appr (db, some ritm_id) = released approved ritm_id (
    stamped d.tenant_id approved (
      apply_approval_outcome d.tenant_id ritm_id approved
        (withdrawn_if approved d.tenant_id ritm_id d.approval_id db)))

decide_found : Decision → Bool → Db → Option Approval → DecisionOutcome × Db
unfolding after_update stop
decide_found d approved db none =
    (stop false none OutcomeState.error Message.approval_not_found, db)
decide_found d approved db (some appr) =
    if not (approval_state_eq appr.state ApprovalState.pending)
    then (
      stop true (some appr.ritm_id) (OutcomeState.decided appr.state) Message.was_already_decided,
      db,
    )
    else if not (d.decided_by == appr.requested_from)
    then (stop false (some appr.ritm_id) OutcomeState.error Message.not_the_approver, db)
    else after_update d approved appr
        (update_approval_decision d.tenant_id d.approval_id approved d.decided_by d.comment db)

unfoldable pub decide_approval : Decision → Db → Db → DecisionOutcome × Db
unfolding decide_found stop
decide_approval d seen db =
    if not (d.decision == "approved") && not (d.decision == "rejected")
    then (stop false none OutcomeState.error Message.not_a_decision, db)
    else decide_found d (d.decision == "approved") db (get_approval d.tenant_id d.approval_id seen)
