-- ===== src/Quota/Budget.antt =====
-- The budget of a tenant over a whole window, with the other tenants' calls in between.
use mathlib.Core.Option.{get_or}
use one_ops_next_gen.Prelude.{
  ℕ, suc, ◌+◌, ◌-◌, String, Bool, true, false, not, ◌&&◌, List, [], ◌∷◌, ◌≡◌, refl, sym, ap, subst,
  ◌∙◌, inl, inr, arith, Dict, lookup, insert, lookup-insert, leb, eqb, if◌then◌else◌, Bool-cases,
  ◌==◌, eq_iff, eq_self,
}
use one_ops_next_gen.Quota.{QuotaGuard, limit_for, used, check_and_charge, is_spent}

-- The guard after a row of calls, and how many of them the tenant was charged for.
unfoldable pub charge_all : String → List String → QuotaGuard → ℕ × QuotaGuard
charge_all tenant [] guard = (0, guard)
charge_all tenant (caller ∷ callers) guard =
    let (charged, next) = check_and_charge caller guard in
    let (calls, last) = charge_all tenant callers next in
    ((if charged && caller == tenant then suc calls else calls), last)

-- How many of a row of calls are the tenant's.
unfoldable pub calls_of : String → List String → ℕ
calls_of tenant [] = 0
calls_of tenant (caller ∷ callers) =
    let calls = calls_of tenant callers in if caller == tenant then suc calls else calls

-- What remains of a budget, and how many of `wanted` calls it lets through.
unfoldable pub granted : (limit wanted spent : ℕ) → ℕ
granted limit wanted spent =
    if eqb limit 0 then wanted else if leb wanted (limit - spent) then wanted else limit - spent

used-insert :
    (t caller : String) (n : ℕ) (calls : Dict ℕ)
    → get_or (lookup t (insert caller n calls)) 0
      ≡ (if caller == t then n else get_or (lookup t calls) 0)
used-insert t caller n calls = elim (Bool-cases (caller == t)) [
  | inl e ↦ rw (lookup-insert, e)
  | inr e ↦ rw (lookup-insert, e)
]

-- A call changes no limit, nothing of another tenant, and of its own only the count.
record IsCharge (t caller : String) (guard : QuotaGuard) (result : Bool × QuotaGuard) : Type 0 where
  verdict : result.0 ≡ not (is_spent (limit_for caller guard) (used caller guard))
  limit : limit_for t result.1 ≡ limit_for t guard
  count : used t result.1 ≡ (if result.0 && caller == t then suc (used t guard) else used t guard)

check_and_charge-IsCharge :
    (t caller : String) (guard : QuotaGuard)
    → IsCharge t caller guard (check_and_charge caller guard)
unfolding check_and_charge used limit_for
check_and_charge-IsCharge t caller guard =
    elim (Bool-cases (is_spent (limit_for caller guard) (used caller guard))) [
      | inl spent ↦ record { verdict = rw spent; limit = rw spent; count = rw spent }
      | inr left ↦ record {
        verdict = rw left;
        limit = rw left;
        count = rw left (
            rw (used-insert t caller (used caller guard + 1) guard.used_calls)
              (elim (Bool-cases (caller == t)) [
                | inl e ↦ rw ((eq_iff caller t).0 e, eq_self) (omega arith)
                | inr e ↦ rw e
              ]));
      }
    ]

granted_none : (limit spent : ℕ) → granted limit 0 spent ≡ 0
unfolding granted
granted_none limit spent = ground arith

granted_more :
    (limit wanted spent : ℕ)
    → is_spent limit spent ≡ false
    → granted limit (suc wanted) spent ≡ suc (granted limit wanted (suc spent))
unfolding granted is_spent
granted_more limit wanted spent h = ground arith

granted_spent :
    (limit wanted spent : ℕ) → is_spent limit spent ≡ true → granted limit wanted spent ≡ 0
unfolding granted is_spent
granted_spent limit wanted spent h = ground arith

charge_step :
    (charged own : Bool) (limit spent wanted : ℕ) {limit' spent' rest : ℕ}
    → (own ≡ true → charged ≡ not (is_spent limit spent))
    → limit' ≡ limit
    → spent' ≡ (if charged && own then suc spent else spent)
    → rest ≡ granted limit' wanted spent'
    → (if charged && own then suc rest else rest)
      ≡ granted limit (if own then suc wanted else wanted) spent
charge_step true true limit spent wanted verdict l s r =
    ap suc (rw (l, s) at r) ∙ sym (granted_more limit wanted spent (ground (arith, verdict refl)))
charge_step false true limit spent wanted verdict l s r =
    let is : is_spent limit spent ≡ true = ground (arith, verdict refl) in
    (rw (l, s) at r)
    ∙ granted_spent limit wanted spent is
    ∙ sym (granted_spent limit (suc wanted) spent is)
charge_step true false limit spent wanted verdict l s r = rw (l, s) at r
charge_step false false limit spent wanted verdict l s r = rw (l, s) at r

-- Over any row of calls of any tenants, a tenant is charged for as many of its own as its limit
-- leaves after what it used before: for all of them where the limit is 0, and else for its calls or
-- what remains, whichever is less. The other tenants' calls do not matter.
pub charge_all-granted :
    (t : String) (callers : List String) (guard : QuotaGuard)
    → (charge_all t callers guard).0
      ≡ granted (limit_for t guard) (calls_of t callers) (used t guard)
unfolding charge_all calls_of
charge_all-granted t [] guard = sym (granted_none (limit_for t guard) (used t guard))
charge_all-granted t (caller ∷ callers) guard =
    let c = check_and_charge-IsCharge t caller guard in
    let own_verdict = λ (own : (caller == t) ≡ true).
      subst
        (λ x. (check_and_charge caller guard).0 ≡ not (is_spent (limit_for x guard) (used x guard)))
        ((eq_iff caller t).0 own) c.verdict in
    charge_step (check_and_charge caller guard).0 (caller == t) (limit_for t guard) (used t guard)
      (calls_of t callers) own_verdict c.limit c.count
      (charge_all-granted t callers (check_and_charge caller guard).1)
