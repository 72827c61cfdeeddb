-- ===== src/Scenarios/ApprovalRuns.antt =====
-- A laptop request that its requester's manager and a colleague may approve.
use one_ops_next_gen.Prelude.{
  ◌≤◌, String, true, false, List, [], ◌∷◌, Option, none, some, Dict, Memᴰ, lookup, ◌≡◌, refl,
}
use one_ops_next_gen.Fulfillment.Contracts.{RitmState, Approval, ApprovalState, ApprovalGateState}
use one_ops_next_gen.Fulfillment.Db.{Db}
use one_ops_next_gen.Fulfillment.Db.Approvals.{
  get_approval, update_approval_decision, withdraw_other_pending_approvals, apply_approval_outcome,
}
use one_ops_next_gen.Fulfillment.Approval.Decide.{Decision, decide_approval}
use one_ops_next_gen.Fulfillment.Approval.Decide.Release.{IsReleased, decide_approval_releases}
use one_ops_next_gen.Fulfillment.Approval.Decide.Once.{releases, releases_once}
use one_ops_next_gen.Fulfillment.Approval.Resolve.{
  Stage, Policy, resolve_approvers, resolved, rule_for, matches, match_policy, stage_for,
  blocks_self, service_desk_stage, resolve_stage,
}
use one_ops_next_gen.Fulfillment.Approval.Resolve.Candidates.{
  IsDeserted, chosen_stage, resolve_approvers_not_self, resolve_approvers-IsDeserted,
}
use one_ops_next_gen.Scenarios.Fixtures.{item}

abbrev asked_of : String → String → Approval
asked_of id person = record {
  tenant_id = "acme";
  approval_id = id;
  ritm_id = "RITM1";
  task_id = none;
  approval_type = "manager";
  reason = "laptop";
  requested_from = person;
  state = ApprovalState.pending;
  decision = none;
  decided_by = none;
  decision_comment = none;
  decided_at = none;
  version = 1;
}

abbrev parked_db : Db
parked_db = record {
  tasks = [];
  ritms =
      record item { state = RitmState.requested; approval_state = some ApprovalGateState.requested }
      ∷ [];
  approvals = asked_of "APP1" "alice" ∷ asked_of "APP2" "bob" ∷ [];
  runs = [];
  requests =
      record {
        tenant_id = "acme";
        request_id = "REQ1";
        status = "pending_approval";
        stage = "approval";
      }
      ∷ [];
  now_at = λ n. n;
  statement = 0;
}

abbrev says : String → String → Decision
says id person = record {
  tenant_id = "acme";
  approval_id = id;
  decision = "approved";
  decided_by = person;
  comment = none;
}

dispatches : (decide_approval (says "APP1" "alice") parked_db parked_db).0.should_dispatch ≡ true
unfolding decide_approval get_approval update_approval_decision apply_approval_outcome
    withdraw_other_pending_approvals
dispatches = refl

decide_approval_releases_example :
    ((says "APP1" "alice").decision ≡ "approved")
    × ((appr : Approval) × (get_approval "acme" "APP1" parked_db ≡ some appr)
        × (appr.state ≡ ApprovalState.pending)
        × ((says "APP1" "alice").decided_by ≡ appr.requested_from))
    × ((r : String) × ((decide_approval (says "APP1" "alice") parked_db parked_db).0.ritm_id
          ≡ some r)
        × IsReleased "acme" r parked_db
            (decide_approval (says "APP1" "alice") parked_db parked_db).1)
decide_approval_releases_example =
    decide_approval_releases (says "APP1" "alice") parked_db parked_db dispatches

-- Both approve, each having read the approval while it was pending.
abbrev both : List (Decision × Db)
both = (says "APP1" "alice", parked_db) ∷ (says "APP2" "bob", parked_db) ∷ []

releases_once_example : releases "acme" "RITM1" both parked_db ≤ 1
releases_once_example = releases_once "acme" "RITM1" both parked_db

-- The matrix: laptops go to the manager, anything else to the service desk.
abbrev desk : Stage
desk = record {
  approver = some (record { type = some "service_desk"; id = none; group = some "GRP-SD" });
  approval_type = some "catalog_owner";
  rule = none;
  block_self_approval = none;
}

abbrev by_manager : Stage
by_manager = record {
  approver = some (record { type = some "manager_of_requester"; id = none; group = none });
  approval_type = some "manager";
  rule = none;
  block_self_approval = none;
}

abbrev matrix : List Policy
matrix =
    record {
      policy_id = "laptops";
      match = ("category", "laptop") ∷ [];
      required = true;
      stages = by_manager ∷ [];
    }
    ∷ record { policy_id = "any"; match = []; required = true; stages = desk ∷ [] }
    ∷ []

abbrev laptop : Dict String
laptop = ("category", "laptop") ∷ []

-- The desk is staffed by the requester and one other, and the requester is their own manager.
abbrev staff : String → List String
staff group = "carol" ∷ "dave" ∷ []

abbrev own_manager : String → Option String
own_manager person = some person

laptop_blocks : blocks_self (chosen_stage laptop matrix) ≡ true
unfolding blocks_self chosen_stage stage_for rule_for match_policy matches lookup
laptop_blocks = refl

offered : (resolve_approvers staff own_manager laptop "carol" matrix).approvers ≡ "dave" ∷ []
unfolding resolve_approvers resolve_stage blocks_self stage_for rule_for match_policy matches
    service_desk_stage lookup
offered = refl

resolve_approvers_not_self_example :
    ¬ Memᴰ "carol" (resolve_approvers staff own_manager laptop "carol" matrix).approvers
resolve_approvers_not_self_example =
    resolve_approvers_not_self staff own_manager laptop "carol" matrix laptop_blocks

-- The desk's only member is the requester.
abbrev alone : String → List String
alone group = "carol" ∷ []

nobody : resolved (resolve_approvers alone own_manager laptop "carol" matrix) ≡ false
unfolding resolved resolve_approvers resolve_stage blocks_self stage_for rule_for match_policy
    matches service_desk_stage lookup
nobody = refl

resolve_approvers-IsDeserted_example :
    ((rule_for laptop matrix).required ≡ true) × IsDeserted alone own_manager laptop "carol" matrix
resolve_approvers-IsDeserted_example =
    resolve_approvers-IsDeserted alone own_manager laptop "carol" matrix nobody
