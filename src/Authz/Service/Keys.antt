-- ===== src/Authz/Service/Keys.antt =====
-- The key of decision_cache.py tells requests apart as far as the rules of abac.py look at them.
use one_ops_next_gen.Prelude.{
  String, Bool, true, false, List, [], ◌∷◌, ◌≡◌, ◌↔◌, inl, inr, refl, sym, ap, ◌∙◌, Memᴰ, subst,
}
use one_ops_next_gen.Authz.Models.{
  Principal, ResourceDescriptor, allowed, Reason, Rbac, permissions_for,
}
use one_ops_next_gen.Authz.Abac.{evaluate, is_empty}
use one_ops_next_gen.Authz.Abac.Verdict.{IsPermitted, evaluate-iff-IsPermitted}
use one_ops_next_gen.Authz.DecisionCache.{KeyFields, key_fields, text_le}
use one_ops_next_gen.Authz.DecisionCache.Sorted.{mem-eq_sorted, nil-eq_sorted}
use one_ops_next_gen.Authz.Service.{fresh_decision, decide_by}

-- Requests of one key are permitted alike.
IsPermitted-key_fields :
    (p p' : Principal) (r r' : ResourceDescriptor) (roles : Rbac)
    → key_fields p r ≡ key_fields p' r'
    → IsPermitted p r (permissions_for roles p.role)
    → IsPermitted p' r' (permissions_for roles p'.role)
unfolding key_fields
IsPermitted-key_fields p p' r r' roles e v =
    let role : p.role ≡ p'.role = ap (λ (f : KeyFields). f.p_role) e in
    let held = λ (s : String) (m : Memᴰ s (permissions_for roles p.role)).
      subst (λ x. Memᴰ s (permissions_for roles x)) role m in
    let audience = ap (λ (f : KeyFields). f.r_audience) e in
    let scopes = ap (λ (f : KeyFields). f.r_scopes) e in
    record {
      tenant =
          sym (ap (λ (f : KeyFields). f.p_tenant) e)
          ∙ v.tenant
          ∙ ap (λ (f : KeyFields). f.r_tenant) e;
      audience = elim v.audience [
        | inl none_named ↦ inl (nil-eq_sorted text_le r.audience r'.audience audience none_named)
        | inr m ↦ inr (
            subst (λ x. Memᴰ x r'.audience) role
              (mem-eq_sorted text_le r.audience r'.audience audience p.role m))
      ];
      scopes = elim v.scopes [
        | inl m ↦ inl (held _ m)
        | inr f ↦ inr (λ s m.
            held s
              (f s (mem-eq_sorted text_le r'.required_scopes r.required_scopes (sym scopes) s m)))
      ];
      tier = rw (← role, ← ap (λ (f : KeyFields). f.r_tier) e) v.tier;
      clearance = rw (← role, ← ap (λ (f : KeyFields). f.r_data) e) v.clearance;
    }

allowed-decide_by : (reasons : List Reason) → allowed (decide_by reasons) ≡ is_empty reasons
unfolding decide_by
allowed-decide_by [] = refl
allowed-decide_by (x ∷ xs) = refl

is_empty_iff : (reasons : List Reason) → (is_empty reasons ≡ true) ↔ (reasons ≡ [])
is_empty_iff [] = (λ h. refl, λ h. refl)
is_empty_iff (x ∷ xs) = (λ h. cc, λ h. cc)

pub allowed-fresh_iff :
    (roles : Rbac) (p : Principal) (r : ResourceDescriptor)
    → (allowed (fresh_decision roles p r) ≡ true) ↔ IsPermitted p r (permissions_for roles p.role)
unfolding fresh_decision
allowed-fresh_iff roles p r =
    let reasons = evaluate p r (permissions_for roles p.role) in
    let (to, from) = is_empty_iff reasons in
    let (to', from') = evaluate-iff-IsPermitted p r (permissions_for roles p.role) in
    (
      λ h. to' (to (sym (allowed-decide_by reasons) ∙ h)),
      λ v. allowed-decide_by reasons ∙ from (from' v),
    )

eq_of_iff : (a b : Bool) → (a ≡ true → b ≡ true) → (b ≡ true → a ≡ true) → a ≡ b
eq_of_iff true b f g = sym (f refl)
eq_of_iff false true f g = g refl
eq_of_iff false false f g = refl

pub allowed-key_fields :
    (roles : Rbac) (p p' : Principal) (r r' : ResourceDescriptor)
    → key_fields p r ≡ key_fields p' r'
    → allowed (fresh_decision roles p r) ≡ allowed (fresh_decision roles p' r')
allowed-key_fields roles p p' r r' e =
    eq_of_iff _ _
      (λ h.
        (allowed-fresh_iff roles p' r').1
          (IsPermitted-key_fields p p' r r' roles e ((allowed-fresh_iff roles p r).0 h)))
      (λ h.
        (allowed-fresh_iff roles p r).1
          (IsPermitted-key_fields p' p r' r roles (sym e) ((allowed-fresh_iff roles p' r').0 h)))
