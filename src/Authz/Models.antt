-- ===== src/Authz/Models.antt =====
-- The value objects of src/oneops/authz/models.py, and the role catalog of rbac.py.
use mathlib.Core.Option.{get_or}
use one_ops_next_gen.Prelude.{String, Bool, true, false, ◌||◌, List, [], Dict, lookup, contains}

pub data Effect : Type 0 where
  allow deny : Effect

pub data Tier : Type 0 where
  read action : Tier

pub data DataClass : Type 0 where
  public internal confidential pii : DataClass

pub record Principal : Type 0 where
  pub tenant_id : String
  pub user_id : String
  pub role : String
  pub attributes : List (String × String)

pub record ResourceDescriptor : Type 0 where
  pub resource_id : String
  pub resource_tenant_id : String
  pub tier : Tier
  pub data_classification : DataClass
  pub audience : List String
  pub required_scopes : List String

-- A reason of a denial, by what its text names.
pub data Reason : Type 0 where
  cross_tenant : (principal_tenant resource_tenant : String) → Reason
  not_in_audience : (role : String) (audience : List String) → Reason
  missing_scopes : (missing : List String) → Reason
  no_write_permission : (resource_id role : String) → Reason
  no_clearance : (data_class : DataClass) (role : String) → Reason

pub record AuthzDecision : Type 0 where
  pub effect : Effect
  pub reasons : List Reason
  pub from_cache : Bool

abbrev pub is_allow : Effect → Bool
is_allow Effect.allow = true
is_allow Effect.deny = false

abbrev pub allowed : AuthzDecision → Bool
allowed d = is_allow d.effect

abbrev pub allow_decision : AuthzDecision
allow_decision = record { effect = Effect.allow; reasons = []; from_cache = false }

abbrev pub deny_decision : List Reason → AuthzDecision
deny_decision reasons = record { effect = Effect.deny; reasons = reasons; from_cache = false }

abbrev pub with_cache_flag : AuthzDecision → AuthzDecision
with_cache_flag d = record d { from_cache = true }

-- rbac.py: a role's permissions; an unknown role has none.
abbrev pub Rbac : Type 0
Rbac = Dict (List String)

unfoldable pub permissions_for : Rbac → String → List String
permissions_for roles role = get_or (lookup role roles) []

abbrev pub admin_permission : String
admin_permission = "admin"

-- `has_permission`
unfoldable pub has_permission : Rbac → String → String → Bool
unfolding permissions_for
has_permission roles role permission =
    contains permission (permissions_for roles role)
    || contains admin_permission (permissions_for roles role)
