-- ===== src/Authz/Service.antt =====
-- `AuthzService.check` of src/oneops/authz/service.py.
pub mod Keys
pub mod Cached
use one_ops_next_gen.Prelude.{ℕ, String, Bool, List, [], ◌∷◌, Option, none, some}
use one_ops_next_gen.Authz.Models.{
  Principal, ResourceDescriptor, Reason, AuthzDecision, allow_decision, deny_decision, Rbac,
  permissions_for, allowed,
}
use one_ops_next_gen.Authz.Abac.{evaluate}
use one_ops_next_gen.Authz.DecisionCache.{KeyFields, key_fields, Store, get, put}

decide_by : List Reason → AuthzDecision
decide_by [] = allow_decision
decide_by (reason ∷ reasons) = deny_decision (reason ∷ reasons)

-- The decision with no cache.
unfoldable pub fresh_decision : Rbac → Principal → ResourceDescriptor → AuthzDecision
unfolding decide_by
fresh_decision roles p r = decide_by (evaluate p r (permissions_for roles p.role))

-- The decision goes out once it is stored.
unfoldable pub answer : AuthzDecision → Option Store → Option (AuthzDecision × Store)
answer decision none = none
answer decision (some store) = some (decision, store)

-- `digest` is the SHA-256 of the canonical JSON; `ttl` is the service's setting.
module _ (digest : KeyFields → String) (roles : Rbac) (ttl : ℕ) where
  -- What follows the lookup; `none` is the error of a TTL that is not positive.
  unfoldable pub or_decide :
      Principal
      → ResourceDescriptor
      → ℕ
      → Option AuthzDecision × Store
      → Option (AuthzDecision × Store)
  unfolding answer
  or_decide p r now (some cached, store) = some (cached, store)
  or_decide p r now (none, store) =
      let decision = fresh_decision roles p r in
      answer decision (put (digest (key_fields p r)) decision ttl now store)

  unfoldable pub check : Principal → ResourceDescriptor → ℕ → Store → Option (AuthzDecision × Store)
  unfolding or_decide
  check p r now store = or_decide p r now (get (digest (key_fields p r)) now store)
