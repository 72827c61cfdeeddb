-- ===== src/Quota.antt =====
-- `QuotaGuard` of src/oneops/llm/quota.py. A limit that is negative means the same as 0.
pub mod Budget
use mathlib.Core.Option.{get_or}
use one_ops_next_gen.Prelude.{
  ℕ, ◌+◌, String, Bool, true, false, ◌&&◌, List, [], ◌∷◌, Option, none, some, Dict, lookup, insert,
  leb, ltb, if◌then◌else◌,
}

pub record QuotaGuard : Type 0 where
  pub default_limit : ℕ
  pub limits : Dict ℕ
  pub used_calls : Dict ℕ

unfoldable pub set_tenant_limit : String → ℕ → QuotaGuard → QuotaGuard
set_tenant_limit tenant_id limit guard = record guard {
  limits = insert tenant_id limit guard.limits;
}

unfoldable pub limit_for : String → QuotaGuard → ℕ
limit_for tenant_id guard = get_or (lookup tenant_id guard.limits) guard.default_limit

unfoldable pub used : String → QuotaGuard → ℕ
used tenant_id guard = get_or (lookup tenant_id guard.used_calls) 0

-- The budget is spent; no limit is ever spent.
unfoldable pub is_spent : ℕ → ℕ → Bool
is_spent limit calls = ltb 0 limit && leb limit calls

-- Whether the call is charged, false being the `QuotaExceededError`; with the new state.
unfoldable pub check_and_charge : String → QuotaGuard → Bool × QuotaGuard
unfolding limit_for used is_spent
check_and_charge tenant_id guard =
    let limit = limit_for tenant_id guard in
    let calls = used tenant_id guard in
    if is_spent limit calls
    then (false, guard)
    else (true, record guard { used_calls = insert tenant_id (calls + 1) guard.used_calls })

unfoldable pub reset_window : QuotaGuard → QuotaGuard
reset_window guard = record guard { used_calls = [] }
