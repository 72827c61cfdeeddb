-- ===== src/Authz/Abac/Verdict.antt =====
-- When `evaluate` of abac.py allows, by rules that are stated on their own.
use one_ops_next_gen.Prelude.{
  String, true, false, List, [], ◌∷◌, ◌++◌, ◌≡◌, ◌↔◌, ◌⊎◌, inl, inr, refl, arith, Memᴰ, Memᴰ-cons,
  any, filter, contains, contains_of_mem, mem_of_contains, any-mem, any_witness, Bool-cases, eq_iff,
  ◌==◌, lookup, none,
}
use one_ops_next_gen.Authz.Models.{
  Principal, ResourceDescriptor, admin_permission, Rbac, permissions_for,
}
use one_ops_next_gen.Authz.Abac.{
  is_write_class, broad_read, is_action, is_sensitive, is_empty, missing, audience_reasons,
  scope_reasons, tier_reasons, data_reasons, evaluate,
}

-- The access policy. `admin` stands for every scope and for the clearance, and is write-class.
pub record IsPermitted (p : Principal) (r : ResourceDescriptor) (granted : List String)
    : Type 0 where
  pub tenant : p.tenant_id ≡ r.resource_tenant_id
  pub audience : (r.audience ≡ []) ⊎ Memᴰ p.role r.audience
  pub scopes :
      Memᴰ admin_permission granted ⊎ ((s : String) → Memᴰ s r.required_scopes → Memᴰ s granted)
  pub tier : (is_action r.tier ≡ false) ⊎ (any is_write_class granted ≡ true)
  pub clearance :
      (is_sensitive r.data_classification ≡ false)
      ⊎ Memᴰ admin_permission granted
      ⊎ Memᴰ broad_read granted

missing-nil :
    (granted scopes : List String)
    → is_empty (missing granted scopes) ≡ true
    → (s : String) → Memᴰ s scopes
    → contains s granted ≡ true
unfolding missing
missing-nil granted [] h s m = elim m [ ]
missing-nil granted (x ∷ xs) h s m = elim (Bool-cases (contains x granted)) [
  | inr out ↦ cc (rw (out, filter) at h)
  | inl held ↦ elim (Memᴰ-cons m) [
    | inl same ↦ rw same held
    | inr n ↦ missing-nil granted xs (rw (held, filter) at h) s n
  ]
]

missing-nil_of_all :
    (granted scopes : List String)
    → ((s : String) → Memᴰ s scopes → contains s granted ≡ true)
    → is_empty (missing granted scopes) ≡ true
unfolding missing
missing-nil_of_all granted [] h = refl
missing-nil_of_all granted (x ∷ xs) h =
    rw (h x (Memᴰ.head refl), filter) (missing-nil_of_all granted xs (λ s m. h s (Memᴰ.tail m)))

append-nil_parts {ℓ} : {A : Type ℓ} (xs ys : List A) → xs ++ ys ≡ [] → (xs ≡ []) × (ys ≡ [])
append-nil_parts [] ys h = (refl, h)
append-nil_parts (x ∷ xs) ys h = cc

is_empty-nil {ℓ} : {A : Type ℓ} (xs : List A) → is_empty xs ≡ true → xs ≡ []
is_empty-nil [] h = refl
is_empty-nil (x ∷ xs) h = cc

no_scopes :
    (scopes : List String)
    → Memᴰ admin_permission [] ⊎ ((s : String) → Memᴰ s scopes → Memᴰ s [])
    → scopes ≡ []
no_scopes [] h = refl
no_scopes (s ∷ ss) (inl m) = elim m [ ]
no_scopes (s ∷ ss) (inr f) = elim (f s (Memᴰ.head refl)) [ ]

module _ (p : Principal) (r : ResourceDescriptor) (granted : List String) where
  audience_iff : (audience_reasons p r ≡ []) ↔ ((r.audience ≡ []) ⊎ Memᴰ p.role r.audience)
  unfolding audience_reasons
  audience_iff = (to, from)
    where
      to : audience_reasons p r ≡ [] → (r.audience ≡ []) ⊎ Memᴰ p.role r.audience
      to h = elim (Bool-cases (is_empty r.audience)) [
        | inl e ↦ inl (is_empty-nil r.audience e)
        | inr e ↦ inr (mem_of_contains p.role r.audience (ground arith))
      ]

      from : (r.audience ≡ []) ⊎ Memᴰ p.role r.audience → audience_reasons p r ≡ []
      from (inl e) = rw (e, audience_reasons)
      from (inr m) = rw (contains_of_mem m, audience_reasons) (ground arith)

  scope_iff :
      (scope_reasons r granted ≡ [])
      ↔ (Memᴰ admin_permission granted ⊎ ((s : String) → Memᴰ s r.required_scopes → Memᴰ s granted))
  unfolding scope_reasons
  scope_iff = (to, from)
    where
      to :
          scope_reasons r granted ≡ []
          → Memᴰ admin_permission granted
            ⊎ ((s : String) → Memᴰ s r.required_scopes → Memᴰ s granted)
      to h = elim (Bool-cases (contains admin_permission granted)) [
        | inl e ↦ inl (mem_of_contains admin_permission granted e)
        | inr e ↦ inr λ s m.
            mem_of_contains s granted
              (missing-nil granted r.required_scopes (ground (arith, e)) s m)
      ]

      from :
          Memᴰ admin_permission granted ⊎ ((s : String) → Memᴰ s r.required_scopes → Memᴰ s granted)
          → scope_reasons r granted ≡ []
      from (inl m) = let held = contains_of_mem m in ground (arith, held)
      from (inr all_held) =
          let none_missing =
            missing-nil_of_all granted r.required_scopes (λ s m. contains_of_mem (all_held s m)) in
          ground (arith, none_missing)

  tier_iff :
      (tier_reasons p r granted ≡ [])
      ↔ ((is_action r.tier ≡ false) ⊎ (any is_write_class granted ≡ true))
  unfolding tier_reasons
  tier_iff = (λ h. ground arith, λ h. ground arith)

  data_iff : (data_reasons p r granted ≡ []) ↔ (
      (is_sensitive r.data_classification ≡ false)
      ⊎ Memᴰ admin_permission granted
      ⊎ Memᴰ broad_read granted)
  unfolding data_reasons
  data_iff = (to, from)
    where
      to :
          data_reasons p r granted ≡ []
          → (is_sensitive r.data_classification ≡ false)
            ⊎ Memᴰ admin_permission granted
            ⊎ Memᴰ broad_read granted
      to h = elim (Bool-cases (contains admin_permission granted)) [
        | inl e ↦ inr (inl (mem_of_contains admin_permission granted e))
        | inr e ↦ elim (Bool-cases (contains broad_read granted)) [
          | inl b ↦ inr (inr (mem_of_contains broad_read granted b))
          | inr b ↦ inl (ground (arith, e, b))
        ]
      ]

      from :
          (is_sensitive r.data_classification ≡ false)
            ⊎ Memᴰ admin_permission granted
            ⊎ Memᴰ broad_read granted
          → data_reasons p r granted ≡ []
      from (inl e) = ground (arith, e)
      from (inr (inl m)) = let held = contains_of_mem m in ground (arith, held)
      from (inr (inr m)) = let held = contains_of_mem m in ground (arith, held)

-- `evaluate` returns no reason exactly when the access is permitted: the tenants are the same, the
-- role is in the audience if there is one, each scope is held, a write-class permission is held for
-- an action, and the clearance is held for confidential and personal data.
pub evaluate-iff-IsPermitted :
    (p : Principal) (r : ResourceDescriptor) (granted : List String)
    → (evaluate p r granted ≡ []) ↔ IsPermitted p r granted
unfolding evaluate
evaluate-iff-IsPermitted p r granted = (to, from)
  where
    to : evaluate p r granted ≡ [] → IsPermitted p r granted
    to h = elim (Bool-cases (p.tenant_id == r.resource_tenant_id)) [
      | inr e ↦ cc (rw (e, evaluate) at h)
      | inl e ↦
          let (a, bcd) = append-nil_parts (audience_reasons p r) _ (rw (e, evaluate) at h) in
          let (b, cd) = append-nil_parts (scope_reasons r granted) _ bcd in
          let (c, d) = append-nil_parts (tier_reasons p r granted) _ cd in
          record {
            tenant = (eq_iff _ _).0 e;
            audience = (audience_iff p r granted).0 a;
            scopes = (scope_iff p r granted).0 b;
            tier = (tier_iff p r granted).0 c;
            clearance = (data_iff p r granted).0 d;
          }
    ]

    from : IsPermitted p r granted → evaluate p r granted ≡ []
    from h = rw (
      (eq_iff _ _).1 h.tenant,
      (audience_iff p r granted).1 h.audience,
      (scope_iff p r granted).1 h.scopes,
      (tier_iff p r granted).1 h.tier,
      (data_iff p r granted).1 h.clearance,
      evaluate,
    )

mem_subset_any :
    (granted more : List String)
    → ((s : String) → Memᴰ s granted → Memᴰ s more)
    → any is_write_class granted ≡ true
    → any is_write_class more ≡ true
mem_subset_any granted more sub h =
    let (s, m, w) = any_witness is_write_class granted h in any-mem is_write_class (sub s m) w

-- More permissions never turn an allowed access into a denied one.
pub evaluate_mono :
    (p : Principal) (r : ResourceDescriptor) (granted more : List String)
    → ((s : String) → Memᴰ s granted → Memᴰ s more)
    → evaluate p r granted ≡ []
    → evaluate p r more ≡ []
evaluate_mono p r granted more sub h =
    let v = (evaluate-iff-IsPermitted p r granted).0 h in
    (evaluate-iff-IsPermitted p r more).1 (record {
      tenant = v.tenant;
      audience = v.audience;
      scopes = elim v.scopes [ inl m ↦ inl (sub _ m) | inr f ↦ inr (λ s m. sub s (f s m)) ];
      tier = elim v.tier [ inl e ↦ inl e | inr w ↦ inr (mem_subset_any granted more sub w) ];
      clearance = elim v.clearance [
        | inl e ↦ inl e
        | inr (inl m) ↦ inr (inl (sub _ m))
        | inr (inr m) ↦ inr (inr (sub _ m))
      ];
    })

-- Deny by default: a role that the catalog does not know is allowed exactly what asks for nothing:
-- a resource of its own tenant that only reads, with no scopes, no sensitive data, and no audience
-- or one that names the role.
pub evaluate_unknown_role :
    (roles : Rbac) (p : Principal) (r : ResourceDescriptor)
    → lookup p.role roles ≡ none
    → (evaluate p r (permissions_for roles p.role) ≡ []) ↔ (
        (p.tenant_id ≡ r.resource_tenant_id)
        × ((r.audience ≡ []) ⊎ Memᴰ p.role r.audience)
        × (r.required_scopes ≡ [])
        × (is_action r.tier ≡ false)
        × (is_sensitive r.data_classification ≡ false))
unfolding permissions_for
evaluate_unknown_role roles p r h = rw (h, permissions_for) (to, from)
  where
    to :
        evaluate p r [] ≡ []
        → (p.tenant_id ≡ r.resource_tenant_id)
          × ((r.audience ≡ []) ⊎ Memᴰ p.role r.audience)
          × (r.required_scopes ≡ [])
          × (is_action r.tier ≡ false)
          × (is_sensitive r.data_classification ≡ false)
    to e =
        let v = (evaluate-iff-IsPermitted p r []).0 e in
        (
          v.tenant,
          v.audience,
          no_scopes r.required_scopes v.scopes,
          elim v.tier [ inl x ↦ x | inr w ↦ cc ],
          elim v.clearance [ inl x ↦ x | inr (inl m) ↦ elim m [ ] | inr (inr m) ↦ elim m [ ] ],
        )

    from :
        (p.tenant_id ≡ r.resource_tenant_id)
          × ((r.audience ≡ []) ⊎ Memᴰ p.role r.audience)
          × (r.required_scopes ≡ [])
          × (is_action r.tier ≡ false)
          × (is_sensitive r.data_classification ≡ false)
        → evaluate p r [] ≡ []
    from (tenant, audience, scopes, tier, clearance) = (evaluate-iff-IsPermitted p r []).1 (record {
      tenant = tenant;
      audience = audience;
      scopes = inr (λ s m. elim (rw scopes at m) [ ]);
      tier = inl tier;
      clearance = inl clearance;
    })
