-- ===== src/Fulfillment/Approval/Resolve.antt =====
-- Who can approve a request: `match_policy`, `_service_desk_stage`, `_resolve_stage` and
-- `resolve_approvers` of src/oneops/use_cases/uc08_fulfillment/approval.py, for a matrix that has
-- been read. A key that JSON leaves out is `none`; an empty text counts as absent where the code
-- tests it.
pub mod Choice
pub mod Candidates
use one_ops_next_gen.Prelude.{
  String, Bool, true, false, not, ◌&&◌, ◌||◌, List, [], ◌∷◌, Option, none, some, Dict, lookup,
  filter, if◌then◌else◌, ◌==◌,
}

pub record Approver : Type 0 where
  pub type : Option String
  pub id : Option String
  pub group : Option String

pub record Stage : Type 0 where
  pub approver : Option Approver
  pub approval_type : Option String
  pub rule : Option String
  pub block_self_approval : Option Bool

pub record Policy : Type 0 where
  pub policy_id : String
  pub match : Dict String
  pub required : Bool
  pub stages : List Stage

-- attrs.get(k) == v
unfoldable pub has_attr : Dict String → String → String → Bool
has_attr attrs k v = elim (lookup k attrs) [ none ↦ false | some w ↦ w == v ]

unfoldable pub matches : Dict String → Dict String → Bool
unfolding has_attr
matches attrs [] = true
matches attrs ((k, v) ∷ rest) = has_attr attrs k v && matches attrs rest

unfoldable pub match_policy : Dict String → List Policy → Option Policy
unfolding matches
match_policy attrs [] = none
match_policy attrs (p ∷ ps) = if matches attrs p.match then some p else match_policy attrs ps

-- The text of an absent key is empty.
abbrev pub text_of : Option String → String
text_of none = ""
text_of (some s) = s

abbrev pub no_approver : Approver
no_approver = record { type = none; id = none; group = none }

abbrev pub approver_of : Stage → Approver
approver_of s = elim s.approver [ none ↦ no_approver | some a ↦ a ]

is_desk : Stage → Bool
is_desk s =
    text_of (approver_of s).type == "service_desk" && not (text_of (approver_of s).group == "")

first_desk : List Stage → Option Stage
unfolding is_desk
first_desk [] = none
first_desk (s ∷ ss) = if is_desk s then some s else first_desk ss

is_catch_all : Dict String → Bool
is_catch_all [] = true
is_catch_all (_ ∷ _) = false

-- The first stage, else the rest.
first_of : Option Stage → Option Stage → Option Stage
first_of none rest = rest
first_of (some s) rest = some s

unfoldable pub service_desk_stage : List Policy → Option Stage
unfolding first_desk is_catch_all first_of
service_desk_stage [] = none
service_desk_stage (p ∷ ps) =
    let rest = service_desk_stage ps in
    if is_catch_all p.match then first_of (first_desk p.stages) rest else rest

pub record ApprovalDecision : Type 0 where
  pub required : Bool
  pub policy_id : String
  pub approver_type : String
  pub approval_type : String
  pub approvers : List String
  pub rule : String
  pub fell_back : Bool

-- The property `resolved`.
unfoldable pub resolved : ApprovalDecision → Bool
resolved d = elim d.approvers [ [] ↦ not d.required | _ ∷ _ ↦ true ]

abbrev no_policy : Policy
no_policy = record { policy_id = "<no-match>"; match = []; required = true; stages = [] }

abbrev no_stage : Stage
no_stage = record { approver = none; approval_type = none; rule = none; block_self_approval = none }

abbrev pub or_stage : Option Stage → Stage
or_stage none = no_stage
or_stage (some s) = s

unfoldable pub rule_for : Dict String → List Policy → Policy
unfolding match_policy
rule_for item policies = elim (match_policy item policies) [ none ↦ no_policy | some p ↦ p ]

unfoldable pub stage_for : List Policy → List Stage → Stage
stage_for policies [] = or_stage (service_desk_stage policies)
stage_for policies (s ∷ ss) = s

unfoldable pub blocks_self : Stage → Bool
blocks_self s = elim s.block_self_approval [ none ↦ true | some b ↦ b ]

unfoldable pub without_self : Bool → String → List String → List String
without_self block requester_id approvers = filter (λ a. not (block && a == requester_id)) approvers

-- The decision before the service desk is asked.
unfoldable pub staged : Policy → Stage → List String → ApprovalDecision
staged p s approvers = record {
  required = true;
  policy_id = p.policy_id;
  approver_type = text_of (approver_of s).type;
  approval_type = text_of s.approval_type;
  approvers = approvers;
  rule = elim s.rule [ none ↦ "any_one" | some r ↦ r ];
  fell_back = false;
}

-- The resolvers of the tenant: who staffs a group, and who manages the requester.
module _ (group_resolver : String → List String) (manager_resolver : String → Option String) where
  members : String → List String
  members group = if group == "" then [] else group_resolver group

  one_of : Option String → List String
  one_of none = []
  one_of (some m) = if m == "" then [] else m ∷ []

  unfoldable pub resolve_stage : Approver → Dict String → String → List String
  unfolding members one_of
  resolve_stage a item requester_id =
      let t = text_of a.type in
      if t == "owning_group"
      then members (text_of (lookup "owner_group" item))
      else if t == "manager_of_requester"
      then one_of (manager_resolver requester_id)
      else if t == "group"
      then members (if text_of a.id == "" then text_of a.group else text_of a.id)
      else if t == "user"
      then one_of a.id
      else if t == "service_desk"
      then members (text_of a.group)
      else []

  -- The service desk in the place of an empty roster.
  fallen_back : Bool → String → ApprovalDecision → Option Stage → ApprovalDecision
  unfolding without_self
  fallen_back block requester_id d none = d
  fallen_back block requester_id d (some s) = record d {
    approver_type = "service_desk";
    approval_type = elim s.approval_type [ none ↦ d.approval_type | some t ↦ t ];
    approvers = without_self block requester_id (group_resolver (text_of (approver_of s).group));
    fell_back = true;
  }

  with_fallback : List Policy → Bool → String → ApprovalDecision → List String → ApprovalDecision
  unfolding fallen_back
  with_fallback policies block requester_id d (a ∷ as') = d
  with_fallback policies block requester_id d [] =
      if d.approver_type == "service_desk"
      then d
      else fallen_back block requester_id d (service_desk_stage policies)

  unfoldable pub candidates : Dict String → String → Stage → List String
  candidates item requester_id s =
      without_self (blocks_self s) requester_id (resolve_stage (approver_of s) item requester_id)

  by_stage : Dict String → String → List Policy → Policy → Stage → ApprovalDecision
  unfolding with_fallback candidates staged
  by_stage item requester_id policies p s =
      let approvers = candidates item requester_id s in
      with_fallback policies (blocks_self s) requester_id (staged p s approvers) approvers

  unfoldable pub resolve_approvers : Dict String → String → List Policy → ApprovalDecision
  unfolding by_stage
  resolve_approvers item requester_id policies =
      let p = rule_for item policies in
      if not p.required
      then record {
        required = false;
        policy_id = p.policy_id;
        approver_type = "none";
        approval_type = "";
        approvers = [];
        rule = "";
        fell_back = false;
      }
      else by_stage item requester_id policies p (stage_for policies p.stages)
