-- ===== src/Fulfillment/Approval/Resolve/Candidates.antt =====
-- Whom `resolve_approvers` of src/oneops/use_cases/uc08_fulfillment/approval.py offers.
use one_ops_next_gen.Prelude.{
  String, Bool, true, false, not, ◌&&◌, List, [], ◌∷◌, Option, none, some, Dict, ◌==◌, Bool-cases,
  Option-cases, Memᴰ, mem-filter, eq_self, eq_iff, ◌≡◌, ◌⊎◌, inl, inr, refl,
}
use one_ops_next_gen.Fulfillment.Approval.Resolve.{
  Stage, Policy, ApprovalDecision, text_of, approver_of, rule_for, stage_for, blocks_self,
  service_desk_stage, resolve_stage, without_self, resolve_approvers, resolved, fallen_back,
  with_fallback, by_stage, candidates, staged,
}

-- The stage that the rule for a request names.
unfoldable pub chosen_stage : Dict String → List Policy → Stage
chosen_stage item policies = stage_for policies (rule_for item policies).stages

without_self_excludes :
    (block : Bool) (requester_id : String) (approvers : List String)
    → block ≡ true
    → Memᴰ requester_id (without_self block requester_id approvers)
    → ⊥
unfolding without_self
without_self_excludes false requester_id approvers b m = cc
without_self_excludes true requester_id approvers b m =
    let (_, kept) = mem-filter (λ a. not (true && a == requester_id)) requester_id approvers m in
    cc (kept, eq_self requester_id)

module _ (group_resolver : String → List String) (manager_resolver : String → Option String) where
  fallback_excludes :
      (policies : List Policy) (block : Bool) (requester_id : String) (d : ApprovalDecision)
      (approvers : List String)
      → block ≡ true
      → (Memᴰ requester_id d.approvers → ⊥)
      → Memᴰ requester_id
          (with_fallback group_resolver manager_resolver policies block requester_id d
            approvers).approvers
      → ⊥
  unfolding with_fallback fallen_back
  fallback_excludes policies block requester_id d (a ∷ as') b never m = never m
  fallback_excludes policies block requester_id d [] b never m =
      elim (Bool-cases (d.approver_type == "service_desk")) [
        | inl e ↦ never (rw e at m)
        | inr e ↦ elim (Option-cases (service_desk_stage policies)) [
          | inl f ↦ never (rw (e, f, fallen_back) at m)
          | inr (s, f) ↦ without_self_excludes block requester_id _ b (rw (e, f, fallen_back) at m)
        ]
      ]

  -- Unless the stage that the matrix chooses says that one may approve one's own request, the
  -- requester is never among the approvers, the service desk's included.
  pub resolve_approvers_not_self :
      (item : Dict String) (requester_id : String) (policies : List Policy)
      → blocks_self (chosen_stage item policies) ≡ true
      → ¬ Memᴰ requester_id
          (resolve_approvers group_resolver manager_resolver item requester_id policies).approvers
  unfolding resolve_approvers by_stage chosen_stage staged candidates
  resolve_approvers_not_self item requester_id policies b m =
      let p : Policy = rule_for item policies in
      let s : Stage = chosen_stage item policies in
      let cs : List String = candidates group_resolver manager_resolver item requester_id s in
      elim (Bool-cases p.required) [
        | inl e ↦
            fallback_excludes policies (blocks_self s) requester_id (staged p s cs) cs b
              (λ n.
                without_self_excludes (blocks_self s) requester_id
                  (resolve_stage group_resolver manager_resolver (approver_of s) item requester_id)
                  b n)
              (rw e at m)
        | inr e ↦ elim (rw e at m) [ ]
      ]

  -- What leaves a request that needs an approval without approvers.
  unfoldable pub IsDeserted : Dict String → String → List Policy → Type 0
  IsDeserted item requester_id policies =
      let s = chosen_stage item policies in
      (candidates group_resolver manager_resolver item requester_id s ≡ [])
      × ((text_of (approver_of s).type ≡ "service_desk")
          ⊎ ((service_desk_stage policies ≡ none)
              ⊎ ((desk : Stage) × (service_desk_stage policies ≡ some desk)
                  × (without_self (blocks_self s) requester_id
                        (group_resolver (text_of (approver_of desk).group))
                      ≡ []))))

  unresolved_empty : (d : ApprovalDecision) → resolved d ≡ false → d.approvers ≡ []
  unfolding resolved
  unresolved_empty d h = go d.approvers refl
    where
      go : (as' : List String) → d.approvers ≡ as' → d.approvers ≡ []
      go [] e = e
      go (a ∷ as') e = absurd (cc (rw (resolved, e) at h))

  fallback_resolved :
      (policies : List Policy) (requester_id : String) (block : Bool) (d : ApprovalDecision)
      (approvers : List String)
      → d.required ≡ true
      → d.approvers ≡ approvers
      → resolved
          (with_fallback group_resolver manager_resolver policies block requester_id d approvers)
        ≡ false
      → (approvers ≡ [])
        × ((d.approver_type ≡ "service_desk")
            ⊎ ((service_desk_stage policies ≡ none)
                ⊎ ((desk : Stage) × (service_desk_stage policies ≡ some desk)
                    × (without_self block requester_id
                          (group_resolver (text_of (approver_of desk).group))
                        ≡ []))))
  unfolding with_fallback fallen_back resolved
  fallback_resolved policies requester_id block d (a ∷ as') req same h = absurd (cc (rw same at h))
  fallback_resolved policies requester_id block d [] req same h = (
    refl,
    elim (Bool-cases (d.approver_type == "service_desk")) [
      | inl e ↦ inl ((eq_iff d.approver_type "service_desk").0 e)
      | inr e ↦ inr (elim (Option-cases (service_desk_stage policies)) [
        | inl f ↦ inl f
        | inr (s, f) ↦ inr (
          s,
          f,
          unresolved_empty
              (fallen_back group_resolver manager_resolver block requester_id d (some s))
              (rw (e, f) at h),
        )
      ])
    ],
  )

  -- A request is left unresolved only when it needs an approval, nobody but the requester can be
  -- found at the stage that the matrix chooses, and the service desk has nobody else either, is not
  -- in the matrix, or is that very stage.
  pub resolve_approvers-IsDeserted :
      (item : Dict String) (requester_id : String) (policies : List Policy)
      → resolved (resolve_approvers group_resolver manager_resolver item requester_id policies)
        ≡ false
      → ((rule_for item policies).required ≡ true) × IsDeserted item requester_id policies
  unfolding resolve_approvers by_stage chosen_stage staged candidates IsDeserted resolved
  resolve_approvers-IsDeserted item requester_id policies h =
      let p : Policy = rule_for item policies in
      let s : Stage = chosen_stage item policies in
      let cs : List String = candidates group_resolver manager_resolver item requester_id s in
      elim (Bool-cases p.required) [
        | inl e ↦ (
          e,
          fallback_resolved policies requester_id (blocks_self s) (staged p s cs) cs refl refl
              (rw e at h),
        )
        | inr e ↦ absurd (cc (rw e at h))
      ]
