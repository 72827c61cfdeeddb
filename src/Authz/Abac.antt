-- ===== src/Authz/Abac.antt =====
-- The five rules of src/oneops/authz/abac.py, `evaluate`.
pub mod Verdict
use text.Mathlib.Text.{starts_with}
use one_ops_next_gen.Prelude.{
  String, Bool, true, false, not, ◌&&◌, ◌||◌, List, [], ◌∷◌, ◌++◌, any, filter, contains,
  if◌then◌else◌, ◌==◌,
}
use one_ops_next_gen.Authz.Models.{
  Tier, DataClass, Principal, ResourceDescriptor, Reason, cross_tenant, not_in_audience,
  missing_scopes, no_write_permission, no_clearance, admin_permission,
}

unfoldable pub is_write_class : String → Bool
is_write_class permission =
    permission == admin_permission
    || (starts_with permission "write:"
        || (starts_with permission "approve:" || starts_with permission "create:"))

abbrev pub broad_read : String
broad_read = "read:all_tickets"

abbrev pub is_action : Tier → Bool
is_action Tier.action = true
is_action Tier.read = false

abbrev pub is_sensitive : DataClass → Bool
is_sensitive DataClass.confidential = true
is_sensitive DataClass.pii = true
is_sensitive _ = false

abbrev pub is_empty {ℓ} : {A : Type ℓ} → List A → Bool
is_empty [] = true
is_empty (x ∷ xs) = false

unfoldable pub missing : List String → List String → List String
missing granted scopes = filter (λ s. not (contains s granted)) scopes

-- Rule 2
unfoldable pub audience_reasons : Principal → ResourceDescriptor → List Reason
audience_reasons p r =
    if not (is_empty r.audience) && not (contains p.role r.audience)
    then not_in_audience p.role r.audience ∷ []
    else []

-- Rule 3
unfoldable pub scope_reasons : ResourceDescriptor → List String → List Reason
unfolding missing
scope_reasons r granted =
    if not (contains admin_permission granted) && not (is_empty (missing granted r.required_scopes))
    then missing_scopes (missing granted r.required_scopes) ∷ []
    else []

-- Rule 4
unfoldable pub tier_reasons : Principal → ResourceDescriptor → List String → List Reason
unfolding is_write_class
tier_reasons p r granted =
    if is_action r.tier && not (any is_write_class granted)
    then no_write_permission r.resource_id p.role ∷ []
    else []

-- Rule 5
unfoldable pub data_reasons : Principal → ResourceDescriptor → List String → List Reason
data_reasons p r granted =
    if is_sensitive r.data_classification
      && (not (contains admin_permission granted) && not (contains broad_read granted))
    then no_clearance r.data_classification p.role ∷ []
    else []

-- Rule 1 ends the evaluation.
unfoldable pub evaluate : Principal → ResourceDescriptor → List String → List Reason
unfolding audience_reasons scope_reasons tier_reasons data_reasons
evaluate p r granted =
    if p.tenant_id == r.resource_tenant_id
    then audience_reasons p r
      ++ (scope_reasons r granted ++ (tier_reasons p r granted ++ data_reasons p r granted))
    else cross_tenant p.tenant_id r.resource_tenant_id ∷ []
