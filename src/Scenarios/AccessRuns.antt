-- ===== src/Scenarios/AccessRuns.antt =====
-- Access checks with a small role catalog.
use one_ops_next_gen.Prelude.{
  String, true, List, [], ◌∷◌, some, ◌≡◌, ◌↔◌, refl, sym, ap, ◌∙◌, inl, inr, Memᴰ, Memᴰ-cons,
  lookup, arith, eq_iff, insert,
}
use one_ops_next_gen.Authz.Models.{
  Tier, DataClass, Principal, ResourceDescriptor, AuthzDecision, allow_decision, allowed, Rbac,
  permissions_for,
}
use one_ops_next_gen.Authz.Abac.{evaluate}
use one_ops_next_gen.Authz.Abac.Verdict.{IsPermitted, evaluate-iff-IsPermitted}
use one_ops_next_gen.Authz.DecisionCache.{KeyFields, key_fields, Store, get, put}
use one_ops_next_gen.Authz.Service.{check, fresh_decision}
use one_ops_next_gen.Authz.Service.Cached.{CollisionFree, Reached, check-eq-fresh}

abbrev roles : Rbac
roles = ("service_desk_agent", "incident.write" ∷ "incident.read" ∷ []) ∷ []

abbrev agent : Principal
agent = record { tenant_id = "acme"; user_id = "u1"; role = "service_desk_agent"; attributes = [] }

abbrev visitor : Principal
visitor = record { tenant_id = "acme"; user_id = "u2"; role = "visitor"; attributes = [] }

abbrev incident : ResourceDescriptor
incident = record {
  resource_id = "INC1";
  resource_tenant_id = "acme";
  tier = Tier.read;
  data_classification = DataClass.internal;
  audience = [];
  required_scopes = "incident.read" ∷ [];
}

evaluate-iff-IsPermitted_example :
    (evaluate agent incident ("incident.read" ∷ []) ≡ [])
    ↔ IsPermitted agent incident ("incident.read" ∷ [])
evaluate-iff-IsPermitted_example = evaluate-iff-IsPermitted agent incident ("incident.read" ∷ [])

read_allowed : evaluate agent incident ("incident.read" ∷ []) ≡ []
unfolding evaluate
read_allowed = refl

abbrev one_entry : Store
one_entry = ("key", (allow_decision, 110)) ∷ []

stored : put "key" allow_decision 10 100 [] ≡ some one_entry
unfolding put insert
stored = refl

-- A digest that tells the requests of the run apart.
abbrev by_user : KeyFields → String
by_user f = f.p_user

abbrev two_requests : List KeyFields
two_requests = key_fields agent incident ∷ key_fields visitor incident ∷ []

by_user-CollisionFree : CollisionFree by_user roles 60 two_requests
unfolding CollisionFree key_fields
by_user-CollisionFree a b ma mb e = elim (Memᴰ-cons ma) [
  | inl x ↦ elim (Memᴰ-cons mb) [
    | inl y ↦ x ∙ sym y
    | inr n ↦ elim (Memᴰ-cons n) [
      | inl y ↦ cc ((eq_iff "u1" "u2").1 (sym (ap by_user x) ∙ e ∙ ap by_user y))
      | inr o ↦ elim o [ ]
    ]
  ]
  | inr m ↦ elim (Memᴰ-cons m) [
    | inl x ↦ elim (Memᴰ-cons mb) [
      | inl y ↦ cc ((eq_iff "u2" "u1").1 (sym (ap by_user x) ∙ e ∙ ap by_user y))
      | inr n ↦ elim (Memᴰ-cons n) [ inl y ↦ x ∙ sym y | inr o ↦ elim o [ ] ]
    ]
    | inr o ↦ elim o [ ]
  ]
]

-- The store after the agent was let in at 100.
abbrev after_agent : Store
after_agent = ("u1", (allow_decision, 160)) ∷ []

agent_checked : check by_user roles 60 agent incident 100 [] ≡ some (allow_decision, after_agent)
unfolding check get lookup put fresh_decision insert evaluate key_fields permissions_for
agent_checked = refl

check-eq-fresh_example :
    (d : AuthzDecision) × (s' : Store) × (check by_user roles 60 agent incident 130 after_agent
      ≡ some (d, s'))
    × ((allowed d ≡ true) ↔ IsPermitted agent incident (permissions_for roles agent.role))
check-eq-fresh_example =
    check-eq-fresh by_user roles 60 two_requests by_user-CollisionFree (omega arith)
      (Reached.checked agent incident 100 allow_decision (Memᴰ.head refl) Reached.start
        agent_checked)
      agent incident 130 (Memᴰ.head refl)
