-- ===== src/Fulfillment/Approval/Decide/Release.antt =====
-- When `decide_approval` of src/oneops/use_cases/uc08_fulfillment/approval.py releases a request.
use one_ops_next_gen.Prelude.{
  ℕ, String, Bool, true, false, not, ◌&&◌, List, [], ◌∷◌, Option, none, some, ◌==◌, any, Bool-cases,
  Option-cases, ◌≡◌, inl, inr, refl, sym, ap, ◌∙◌, arith, eq_iff,
}
use one_ops_next_gen.Fulfillment.Contracts.{Ritm, Approval, ApprovalState, ritm_state_eq}
use one_ops_next_gen.Fulfillment.Db.{Db, now}
use one_ops_next_gen.Fulfillment.Db.Approvals.{
  approval_state_eq, get_approval, update_rows, update_approval_decision,
  withdraw_other_pending_approvals, apply_approval_outcome, set_request_lifecycle, is_parked,
  is_pending_for, is_undecided, is_approval, decided_approval, withdrawn_approval, outcome_ritm,
}
use one_ops_next_gen.Fulfillment.Db.Rows.{any-update_rows, update_rows_found}
use one_ops_next_gen.Fulfillment.Approval.Decide.{
  Decision, decide_approval, decide_found, after_update, released, stamped, withdrawn_if, stop,
}

any_nothing {ℓ} : {A : Type ℓ} (rows : List A) → any (λ r. false) rows ≡ false
any_nothing [] = refl
any_nothing (r ∷ rs) = any_nothing rs

-- A request item that awaits its approval, and an approval of it that is pending.
unfoldable pub awaits : String → String → Db → Bool
awaits tenant_id ritm_id db = any (is_parked tenant_id ritm_id) db.ritms

unfoldable pub is_open_for : String → String → Db → Bool
is_open_for tenant_id ritm_id db = any (is_pending_for tenant_id ritm_id) db.approvals

written_ritm :
    (t r : String) (at : ℕ) (approved : Bool) (x : Ritm)
    → is_parked t r (outcome_ritm at approved x) ≡ false
unfolding is_parked outcome_ritm ritm_state_eq
written_ritm t r at true x = ground arith
written_ritm t r at false x = ground arith

apply_clears :
    (t r : String) (approved : Bool) (db : Db)
    → awaits t r (apply_approval_outcome t r approved db).0 ≡ false
unfolding awaits apply_approval_outcome
apply_clears t r approved db =
    any-update_rows (is_parked t r) (outcome_ritm (now db) approved) (is_parked t r) (λ x. false)
      db.ritms (written_ritm t r (now db) approved) (λ x e h. cc) (any_nothing db.ritms)

pub apply_keeps :
    (t r t' r' : String) (approved : Bool) (db : Db)
    → awaits t r db ≡ false
    → awaits t r (apply_approval_outcome t' r' approved db).0 ≡ false
unfolding awaits apply_approval_outcome
apply_keeps t r t' r' approved db e =
    any-update_rows (is_parked t' r') (outcome_ritm (now db) approved) (is_parked t r)
      (is_parked t r) db.ritms (written_ritm t r (now db) approved) (λ x _ h. h) e

apply_found :
    (t r : String) (approved : Bool) (db : Db) {request_id : String}
    → (apply_approval_outcome t r approved db).1 ≡ some request_id
    → awaits t r db ≡ true
unfolding awaits apply_approval_outcome
apply_found t r approved db h =
    elim (Option-cases (update_rows (is_parked t r) (outcome_ritm (now db) approved) db.ritms).1) [
      | inl e ↦ absurd (cc (rw e at h))
      | inr (x, e) ↦ update_rows_found (is_parked t r) (outcome_ritm (now db) approved) db.ritms e
    ]

written_approval :
    (t i : String) (at : ℕ) (approved : Bool) (by : String) (comment : Option String) (a : Approval)
    → is_undecided t i (decided_approval at approved by comment a) ≡ false
unfolding is_undecided decided_approval
written_approval t i at true by comment a = ground arith
written_approval t i at false by comment a = ground arith

update_settles :
    (t i : String) (approved : Bool) (by : String) (comment : Option String) (db : Db)
    → any (is_undecided t i) (update_approval_decision t i approved by comment db).0.approvals
      ≡ false
unfolding update_approval_decision
update_settles t i approved by comment db =
    any-update_rows (is_undecided t i) (decided_approval (now db) approved by comment)
      (is_undecided t i) (λ x. false) db.approvals
      (written_approval t i (now db) approved by comment) (λ x e h. cc) (any_nothing db.approvals)

withdraw_closes :
    (t r i : String) (db : Db)
    → any (is_undecided t i) db.approvals ≡ false
    → is_open_for t r (withdraw_other_pending_approvals t r i db) ≡ false
unfolding is_open_for withdraw_other_pending_approvals is_undecided is_approval is_pending_for
    withdrawn_approval
withdraw_closes t r i db e =
    any-update_rows (λ a. is_pending_for t r a && not (a.approval_id == i)) withdrawn_approval
      (is_pending_for t r) (is_undecided t i) db.approvals (λ a. ground arith)
      (λ a no_match h. ground arith) e

pub stamped_lem :
    (t : String) (approved : Bool) (x : Db × Option String)
    → ((stamped t approved x).0.ritms ≡ x.0.ritms)
      × ((stamped t approved x).0.approvals ≡ x.0.approvals)
      × ((stamped t approved x).1 ≡ true → (request_id : String) × (x.1 ≡ some request_id))
unfolding stamped set_request_lifecycle
stamped_lem t approved (db, none) = (refl, refl, λ h. cc)
stamped_lem t approved (db, some request_id) = (refl, refl, λ h. (request_id, refl))

pub released_lem :
    (approved : Bool) (r : String) (x : Db × Bool)
    → ((released approved r x).0.should_dispatch ≡ (approved && x.1))
      × ((released approved r x).0.ritm_id ≡ some r)
      × ((released approved r x).1 ≡ x.0)
unfolding released
released_lem approved r (db, transitioned) = (refl, refl, refl)

pub awaits_same : (t r : String) (a b : Db) → a.ritms ≡ b.ritms → awaits t r a ≡ awaits t r b
unfolding awaits
awaits_same t r a b e = ap (λ rows. any (is_parked t r) rows) e

is_open_for_same :
    (t r : String) (a b : Db) → a.approvals ≡ b.approvals → is_open_for t r a ≡ is_open_for t r b
unfolding is_open_for
is_open_for_same t r a b e = ap (λ rows. any (is_pending_for t r) rows) e

-- Each statement writes one table.
pub statements_apart :
    (t r i by : String) (approved : Bool) (comment : Option String) (db : Db)
    → ((withdraw_other_pending_approvals t r i db).ritms ≡ db.ritms)
      × ((apply_approval_outcome t r approved db).0.approvals ≡ db.approvals)
      × ((update_approval_decision t i approved by comment db).0.ritms ≡ db.ritms)
unfolding withdraw_other_pending_approvals apply_approval_outcome update_approval_decision
statements_apart t r i by approved comment db = (refl, refl, refl)

-- A request item of the tenant goes from awaiting its approval to not awaiting it, and no approval
-- of it is left pending.
unfoldable pub IsReleased : String → String → Db → Db → Type 0
IsReleased tenant_id ritm_id before after =
    (awaits tenant_id ritm_id before ≡ true)
    × (awaits tenant_id ritm_id after ≡ false)
    × (is_open_for tenant_id ritm_id after ≡ false)

after_update_releases :
    (d : Decision) (approved : Bool) (appr : Approval) (x : Db × Option String)
    → any (is_undecided d.tenant_id d.approval_id) x.0.approvals ≡ false
    → (after_update d approved appr x).0.should_dispatch ≡ true
    → (approved ≡ true)
      × ((r : String) × ((after_update d approved appr x).0.ritm_id ≡ some r)
          × IsReleased d.tenant_id r x.0 (after_update d approved appr x).1)
unfolding after_update stop IsReleased
after_update_releases d approved appr (db, none) settled h = cc
after_update_releases d false appr (db, some r) settled h =
    let y = stamped d.tenant_id false (
      apply_approval_outcome d.tenant_id r false
        (withdrawn_if false d.tenant_id r d.approval_id db)) in
    absurd (cc (h, (released_lem false r y).0))
after_update_releases d true appr (db, some r) settled h =
    let db' : Db = withdraw_other_pending_approvals d.tenant_id r d.approval_id db in
    let x : Db × Option String = apply_approval_outcome d.tenant_id r true db' in
    let (dispatch, named, final) = released_lem true r (stamped d.tenant_id true x) in
    let (ritms, approvals, moved) = stamped_lem d.tenant_id true x in
    let (request_id, found) = moved (sym dispatch ∙ h) in
    let (ritms', _, _) =
      statements_apart d.tenant_id r d.approval_id d.decided_by true d.comment db in
    let (_, approvals', _) =
      statements_apart d.tenant_id r d.approval_id d.decided_by true d.comment db' in
    let after : Db = (released true r (stamped d.tenant_id true x)).1 in
    (
      refl,
      (
        r,
        named,
        (
          sym (awaits_same d.tenant_id r db' db ritms') ∙ apply_found d.tenant_id r true db' found,
          awaits_same d.tenant_id r after x.0 (ap (λ (b : Db). b.ritms) final ∙ ritms)
              ∙ apply_clears d.tenant_id r true db',
          is_open_for_same d.tenant_id r after db'
                (ap (λ (b : Db). b.approvals) final ∙ approvals ∙ approvals')
              ∙ withdraw_closes d.tenant_id r d.approval_id db settled,
        ),
      ),
    )

is_pending :
    {s : ApprovalState}
    → approval_state_eq s ApprovalState.pending ≡ true
    → s ≡ ApprovalState.pending
is_pending {s} e = ground arith

decide_found_releases :
    (d : Decision) (approved : Bool) (db : Db) (found : Option Approval)
    → (decide_found d approved db found).0.should_dispatch ≡ true
    → (approved ≡ true)
      × ((appr : Approval) × (found ≡ some appr)
          × (appr.state ≡ ApprovalState.pending)
          × (d.decided_by ≡ appr.requested_from))
      × ((r : String) × ((decide_found d approved db found).0.ritm_id ≡ some r)
          × IsReleased d.tenant_id r db (decide_found d approved db found).1)
unfolding decide_found stop IsReleased
decide_found_releases d approved db none h = cc
decide_found_releases d approved db (some appr) h =
    elim (Bool-cases (approval_state_eq appr.state ApprovalState.pending)) [
      | inl e ↦ elim (Bool-cases (d.decided_by == appr.requested_from)) [
        | inl f ↦
            let x : Db × Option String =
              update_approval_decision d.tenant_id d.approval_id approved d.decided_by d.comment
                db in
            let (grants, (r, named, (was, is, closed))) =
              after_update_releases d approved appr x
                (update_settles d.tenant_id d.approval_id approved d.decided_by d.comment db)
                (rw (e, f) at h) in
            let (_, _, ritms) =
              statements_apart d.tenant_id r d.approval_id d.decided_by approved d.comment db in
            (
              grants,
              (appr, refl, is_pending e, (eq_iff d.decided_by appr.requested_from).0 f),
              rw (e, f)
                  (r, named, (sym (awaits_same d.tenant_id r x.0 db ritms) ∙ was, is, closed)),
            )
        | inr f ↦ absurd (cc (rw (e, f) at h))
      ]
      | inr e ↦ absurd (cc (rw e at h))
    ]

-- A call releases a held fulfilment only when it says `approved`, comes from the person whom the
-- approval was requested from, and that approval was pending when it was read; then the request
-- item awaited its approval, awaits it no longer, and none of its approvals is left pending. The
-- database may have changed in any way between the read and the transaction.
pub decide_approval_releases :
    (d : Decision) (seen db : Db)
    → (decide_approval d seen db).0.should_dispatch ≡ true
    → (d.decision ≡ "approved")
      × ((appr : Approval) × (get_approval d.tenant_id d.approval_id seen ≡ some appr)
          × (appr.state ≡ ApprovalState.pending)
          × (d.decided_by ≡ appr.requested_from))
      × ((r : String) × ((decide_approval d seen db).0.ritm_id ≡ some r)
          × IsReleased d.tenant_id r db (decide_approval d seen db).1)
unfolding decide_approval stop
decide_approval_releases d seen db h =
    elim (Bool-cases (not (d.decision == "approved") && not (d.decision == "rejected"))) [
      | inl e ↦ absurd (cc (rw e at h))
      | inr e ↦
          let (grants, row, item) =
            decide_found_releases d (d.decision == "approved") db
              (get_approval d.tenant_id d.approval_id seen) (rw e at h) in
          ((eq_iff d.decision "approved").0 grants, row, rw e item)
    ]
