-- ===== src/Fulfillment/Approval/Decide/Once.antt =====
-- How often `decide_approval` of src/oneops/use_cases/uc08_fulfillment/approval.py releases one
-- request item.
use one_ops_next_gen.Prelude.{
  ℕ, suc, ◌≤◌, String, Bool, true, false, not, ◌&&◌, List, [], ◌∷◌, Option, none, some,
  if◌then◌else◌, ◌==◌, Bool-cases, ◌≡◌, inl, inr, refl, ap, ◌∙◌, arith, eq_iff,
}
use one_ops_next_gen.Fulfillment.Contracts.{Approval, ApprovalState}
use one_ops_next_gen.Fulfillment.Db.{Db}
use one_ops_next_gen.Fulfillment.Db.Approvals.{
  approval_state_eq, get_approval, update_approval_decision, apply_approval_outcome,
}
use one_ops_next_gen.Fulfillment.Approval.Decide.{
  Decision, DecisionOutcome, decide_approval, decide_found, after_update, stamped, withdrawn_if,
}
use one_ops_next_gen.Fulfillment.Approval.Decide.Release.{
  awaits, awaits_same, apply_keeps, statements_apart, stamped_lem, released_lem, IsReleased,
  decide_approval_releases,
}

withdrawn_if_ritms :
    (approved : Bool) (t r i : String) (db : Db) → (withdrawn_if approved t r i db).ritms ≡ db.ritms
unfolding withdrawn_if
withdrawn_if_ritms true t r i db =
    let (ritms, _, _) = statements_apart t r i "" true none db in ritms
withdrawn_if_ritms false t r i db = refl

after_update_keeps :
    (t r : String) (d : Decision) (approved : Bool) (appr : Approval) (x : Db × Option String)
    → awaits t r x.0 ≡ false
    → awaits t r (after_update d approved appr x).1 ≡ false
unfolding after_update
after_update_keeps t r d approved appr (db, none) e = e
after_update_keeps t r d approved appr (db, some ritm_id) e =
    let db' : Db = withdrawn_if approved d.tenant_id ritm_id d.approval_id db in
    let x : Db × Option String = apply_approval_outcome d.tenant_id ritm_id approved db' in
    let (_, _, final) = released_lem approved ritm_id (stamped d.tenant_id approved x) in
    let (ritms, _, _) = stamped_lem d.tenant_id approved x in
    awaits_same t r _ x.0 (ap (λ (b : Db). b.ritms) final ∙ ritms)
    ∙ apply_keeps t r d.tenant_id ritm_id approved db' (
        awaits_same t r db' db (withdrawn_if_ritms approved d.tenant_id ritm_id d.approval_id db)
        ∙ e)

decide_found_keeps :
    (t r : String) (d : Decision) (approved : Bool) (db : Db) (found : Option Approval)
    → awaits t r db ≡ false
    → awaits t r (decide_found d approved db found).1 ≡ false
unfolding decide_found
decide_found_keeps t r d approved db none e = e
decide_found_keeps t r d approved db (some appr) e =
    let x : Db × Option String =
      update_approval_decision d.tenant_id d.approval_id approved d.decided_by d.comment db in
    let (_, _, ritms) =
      statements_apart d.tenant_id r d.approval_id d.decided_by approved d.comment db in
    let moved = after_update_keeps t r d approved appr x (awaits_same t r x.0 db ritms ∙ e) in
    elim (Bool-cases (approval_state_eq appr.state ApprovalState.pending)) [
      | inl f ↦ elim (Bool-cases (d.decided_by == appr.requested_from)) [
        | inl g ↦ rw (f, g) moved
        | inr g ↦ rw (f, g) e
      ]
      | inr f ↦ rw f e
    ]

decide_approval_keeps :
    (t r : String) (d : Decision) (seen db : Db)
    → awaits t r db ≡ false
    → awaits t r (decide_approval d seen db).1 ≡ false
unfolding decide_approval
decide_approval_keeps t r d seen db e =
    let found =
      decide_found_keeps t r d (d.decision == "approved") db
        (get_approval d.tenant_id d.approval_id seen) e in
    elim (Bool-cases (not (d.decision == "approved") && not (d.decision == "rejected"))) [
      | inl f ↦ rw f e
      | inr f ↦ rw f found
    ]

is_text : String → Option String → Bool
is_text r none = false
is_text r (some s) = s == r

unfoldable is_release_of : String → String → Decision → DecisionOutcome → Bool
unfolding is_text
is_release_of t r d o = o.should_dispatch && (d.tenant_id == t && is_text r o.ritm_id)

-- How many calls of a row release a request item; each call comes with what it has read.
unfoldable pub releases : String → String → List (Decision × Db) → Db → ℕ
unfolding is_release_of
releases t r [] db = 0
releases t r ((d, seen) ∷ calls) db =
    let rest = releases t r calls (decide_approval d seen db).1 in
    if is_release_of t r d (decide_approval d seen db).0 then suc rest else rest

is_text-some : (r : String) (o : Option String) → is_text r o ≡ true → o ≡ some r
unfolding is_text
is_text-some r none h = cc
is_text-some r (some s) h = ap some ((eq_iff s r).0 h)

release_of :
    (t r : String) (d : Decision) (seen db : Db)
    → is_release_of t r d (decide_approval d seen db).0 ≡ true
    → (awaits t r db ≡ true) × (awaits t r (decide_approval d seen db).1 ≡ false)
unfolding is_release_of IsReleased
release_of t r d seen db h =
    let (_, _, (s, named, (was, is, _))) = decide_approval_releases d seen db (ground arith) in
    let tenant : d.tenant_id ≡ t = (eq_iff d.tenant_id t).0 (ground arith) in
    let item : (decide_approval d seen db).0.ritm_id ≡ some r = is_text-some r _ (ground arith) in
    let same : s ≡ r = cc in (rw (← tenant, ← same) was, rw (← tenant, ← same) is)

releases_none :
    (t r : String) (calls : List (Decision × Db)) (db : Db)
    → awaits t r db ≡ false
    → releases t r calls db ≡ 0
unfolding releases
releases_none t r [] db e = refl
releases_none t r ((d, seen) ∷ calls) db e =
    let rest =
      releases_none t r calls (decide_approval d seen db).1
        (decide_approval_keeps t r d seen db e) in
    elim (Bool-cases (is_release_of t r d (decide_approval d seen db).0)) [
      | inl f ↦ absurd (cc (e, (release_of t r d seen db f).0))
      | inr f ↦ rw (f, rest) refl
    ]

-- Over any row of calls, of whatever people, with whatever approvals and whatever they have read,
-- one request item is released at most once.
pub releases_once :
    (tenant_id ritm_id : String) (calls : List (Decision × Db)) (db : Db)
    → releases tenant_id ritm_id calls db ≤ 1
unfolding releases
releases_once t r [] db = omega arith
releases_once t r ((d, seen) ∷ calls) db =
    let rest = releases_once t r calls (decide_approval d seen db).1 in
    elim (Bool-cases (is_release_of t r d (decide_approval d seen db).0)) [
      | inl f ↦
          let zero_left =
            releases_none t r calls (decide_approval d seen db).1 (release_of t r d seen db f).1 in
          rw f (omega (arith, zero_left))
      | inr f ↦ rw f rest
    ]
