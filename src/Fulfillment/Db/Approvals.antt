-- ===== src/Fulfillment/Db/Approvals.antt =====
-- The statements of src/oneops/use_cases/uc08_fulfillment/db.py that decide an approval.
use one_ops_next_gen.Prelude.{
  ℕ, suc, ◌+◌, String, Bool, true, false, not, ◌&&◌, List, [], ◌∷◌, Option, none, some,
  if◌then◌else◌, ◌==◌,
}
use one_ops_next_gen.Fulfillment.Contracts.{
  Ritm, RitmState, Approval, ApprovalState, ApprovalGateState, ritm_state_eq,
}
use one_ops_next_gen.Fulfillment.Db.{Db, Request, now, is_ritm}

abbrev pub approval_state_eq : ApprovalState → ApprovalState → Bool
approval_state_eq ApprovalState.pending ApprovalState.pending = true
approval_state_eq ApprovalState.approved ApprovalState.approved = true
approval_state_eq ApprovalState.rejected ApprovalState.rejected = true
approval_state_eq ApprovalState.expired ApprovalState.expired = true
approval_state_eq ApprovalState.withdrawn ApprovalState.withdrawn = true
approval_state_eq _ _ = false

-- UPDATE over the rows that pass the test, RETURNING the first.
unfoldable pub update_rows {ℓ} : {A : Type ℓ} → (A → Bool) → (A → A) → List A → List A × Option A
update_rows test set [] = ([], none)
update_rows test set (r ∷ rs) =
    let (rest, found) = update_rows test set rs in
    if test r then (set r ∷ rest, some (set r)) else (r ∷ rest, found)

unfoldable pub is_approval : String → String → Approval → Bool
is_approval tenant_id approval_id a = a.tenant_id == tenant_id && a.approval_id == approval_id

abbrev find_approval : (Approval → Bool) → List Approval → Option Approval
find_approval test [] = none
find_approval test (a ∷ as') = if test a then some a else find_approval test as'

unfoldable pub get_approval : String → String → Db → Option Approval
unfolding is_approval
get_approval tenant_id approval_id db =
    find_approval (is_approval tenant_id approval_id) db.approvals

-- WHERE tenant_id = $1 AND approval_id = $2 AND state = 'pending'
unfoldable pub is_undecided : String → String → Approval → Bool
unfolding is_approval
is_undecided tenant_id approval_id a =
    is_approval tenant_id approval_id a && approval_state_eq a.state ApprovalState.pending

-- `approved` or `rejected`, as the column takes it.
abbrev pub decision_state : Bool → ApprovalState
decision_state true = ApprovalState.approved
decision_state false = ApprovalState.rejected

unfoldable pub decided_approval : ℕ → Bool → String → Option String → Approval → Approval
decided_approval at approved decided_by comment a = record a {
  state = decision_state approved;
  decision = some (decision_state approved);
  decided_by = some decided_by;
  decision_comment = comment;
  decided_at = some at;
  version = a.version + 1;
}

abbrev ritm_of : Option Approval → Option String
ritm_of none = none
ritm_of (some a) = some a.ritm_id

unfoldable pub update_approval_decision :
    String → String → Bool → String → Option String → Db → Db × Option String
unfolding update_rows is_undecided decided_approval
update_approval_decision tenant_id approval_id approved decided_by comment db =
    let (rows, found) =
      update_rows (is_undecided tenant_id approval_id)
        (decided_approval (now db) approved decided_by comment) db.approvals in
    (record db { approvals = rows; statement = suc db.statement }, ritm_of found)

-- WHERE tenant_id = $1 AND ritm_id = $2 AND state = 'pending'
unfoldable pub is_pending_for : String → String → Approval → Bool
is_pending_for tenant_id ritm_id a =
    a.tenant_id == tenant_id
    && (a.ritm_id == ritm_id && approval_state_eq a.state ApprovalState.pending)

unfoldable pub withdrawn_approval : Approval → Approval
withdrawn_approval a = record a { state = ApprovalState.withdrawn; version = a.version + 1 }

unfoldable pub withdraw_other_pending_approvals : String → String → String → Db → Db
unfolding update_rows is_pending_for withdrawn_approval
withdraw_other_pending_approvals tenant_id ritm_id keep_approval_id db = record db {
  approvals =
      (update_rows
        (λ a. is_pending_for tenant_id ritm_id a && not (a.approval_id == keep_approval_id))
        withdrawn_approval db.approvals).0;
  statement = suc db.statement;
}

-- WHERE tenant_id = $1 AND ritm_id = $2 AND state = 'requested'
unfoldable pub is_parked : String → String → Ritm → Bool
unfolding is_ritm ritm_state_eq
is_parked tenant_id ritm_id r =
    is_ritm tenant_id ritm_id r && ritm_state_eq r.state RitmState.requested

unfoldable pub outcome_ritm : ℕ → Bool → Ritm → Ritm
outcome_ritm at approved r = record r {
  approval_state =
      some (if approved then ApprovalGateState.approved else ApprovalGateState.rejected);
  state = if approved then RitmState.approved else RitmState.rejected;
  approved_at = if approved then some at else r.approved_at;
  closed_at = if approved then r.closed_at else some at;
  updated_at = at;
  version = r.version + 1;
}

abbrev request_of : Option Ritm → Option String
request_of none = none
request_of (some r) = some r.request_id

unfoldable pub apply_approval_outcome : String → String → Bool → Db → Db × Option String
unfolding update_rows is_parked outcome_ritm
apply_approval_outcome tenant_id ritm_id approved db =
    let (rows, found) =
      update_rows (is_parked tenant_id ritm_id) (outcome_ritm (now db) approved) db.ritms in
    (record db { ritms = rows; statement = suc db.statement }, request_of found)

unfoldable pub set_request_lifecycle : String → String → String → String → Db → Db
unfolding update_rows
set_request_lifecycle tenant_id request_id status stage db = record db {
  requests =
      (update_rows (λ (r : Request). r.tenant_id == tenant_id && r.request_id == request_id)
        (λ r. record r { status = status; stage = stage }) db.requests).0;
  statement = suc db.statement;
}
