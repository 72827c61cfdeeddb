-- ===== src/Registry/Store/History.antt =====
-- That a history of src/oneops/registry/store.py never loses or edits a version, and what is served
-- after an activation.
use one_ops_next_gen.Prelude.{
  ℕ, ◌+◌, String, Bool, false, List, [], ◌∷◌, Option, none, some, lookup, eqb, ◌==◌, eq_iff,
  Bool-cases, ◌≡◌, inl, inr, refl, ap, ◌∙◌, arith, lookup-insert, lookup-erase,
}
use one_ops_next_gen.Registry.{
  RecordStatus, RegistryRecord, Versions, Envelope, version_at, set_status,
}
use one_ops_next_gen.Registry.Versions.{
  with_status, version_at-set_version, version_at-set_status, le-max_version,
}
use one_ops_next_gen.Registry.Store.{Backend, demoted}
use one_ops_next_gen.Registry.Store.Moves.{Op, step, IsMove, IsStep, step-IsStep}
use one_ops_next_gen.Registry.Store.Invariant.{demoted_cases}
use one_ops_next_gen.Registry.Store.Lifecycle.{run_calls, IsDrafted}

-- A version keeps every field but its status.
unfoldable pub IsKept : RegistryRecord → RegistryRecord → Type 0
IsKept r q = q ≡ record r { status = q.status }

status-IsKept :
    (v u : ℕ) (status : RecordStatus) (vs : Versions) (r : RegistryRecord)
    → version_at u vs ≡ some r
    → (q : RegistryRecord) × (version_at u (set_status v status vs) ≡ some q) × IsKept r q
unfolding IsKept with_status
status-IsKept v u status vs r h = elim (Bool-cases (eqb v u)) [
  | inl e ↦ (record r { status = status }, rw (version_at-set_status, e, h) refl, refl)
  | inr e ↦ (r, rw (version_at-set_status, e) h, refl)
]

IsKept-trans : (r q s : RegistryRecord) → IsKept r q → IsKept q s → IsKept r s
unfolding IsKept
IsKept-trans r q s a b = b ∙ ap (λ (x : RegistryRecord). record x { status = s.status }) a

demoted-IsKept :
    (v u : ℕ) (env : Envelope) (vs : Versions) (r : RegistryRecord)
    → demoted v env.versions env.active_version ≡ some vs
    → version_at u env.versions ≡ some r
    → (q : RegistryRecord) × (version_at u vs ≡ some q) × IsKept r q
unfolding IsKept
demoted-IsKept v u env vs r d h = elim (demoted_cases v env.versions env.active_version d) [
  | inl (same, _) ↦ (r, rw same h, refl)
  | inr (p, _, _, same) ↦ rw same (status-IsKept p u RecordStatus.retired env.versions r h)
]

move-IsKept :
    (record_id : String) (env : Envelope) {after : Envelope} (u : ℕ) (r : RegistryRecord)
    → IsMove record_id env after
    → version_at u env.versions ≡ some r
    → (q : RegistryRecord) × (version_at u after.versions ≡ some q) × IsKept r q
unfolding IsKept
move-IsKept record_id env u r (IsMove.appends n m top next own d) h =
    let low = le-max_version u m env.versions top h in
    let old : eqb (m + 1) u ≡ false = ground arith in (r, rw (version_at-set_version, old) h, refl)
move-IsKept record_id env u r (IsMove.activates v t vs found d) h =
    let (q, e, k) = demoted-IsKept v u env vs r d h in
    let (s, f, l) = status-IsKept v u RecordStatus.active vs q e in (s, f, IsKept-trans r q s k l)
move-IsKept record_id env u r (IsMove.deprecates v) h =
    status-IsKept v u RecordStatus.deprecated env.versions r h
move-IsKept record_id env u r (IsMove.retires v) h =
    status-IsKept v u RecordStatus.retired env.versions r h

-- The version that stands in the store under an id and a number.
unfoldable stored_from : ℕ → Option Envelope → Option RegistryRecord
stored_from v none = none
stored_from v (some env) = version_at v env.versions

unfoldable pub stored_version : String → ℕ → Backend → Option RegistryRecord
unfolding stored_from
stored_version record_id v b = stored_from v (lookup record_id b)

-- A call deletes no record of the id.
unfoldable IsSparing : String → Op → Type 0
IsSparing j (Op.deletes record_id) = (record_id == j) ≡ false
IsSparing j (Op.creates r) = Unit
IsSparing j (Op.updates r) = Unit
IsSparing j (Op.activates record_id v) = Unit
IsSparing j (Op.deprecates record_id v) = Unit
IsSparing j (Op.retires record_id v) = Unit

unfoldable pub IsUndeleted : String → List Op → Type 0
unfolding IsSparing
IsUndeleted j [] = Unit
IsUndeleted j (op ∷ ops) = IsSparing j op × IsUndeleted j ops

step-IsKept :
    (j : String) (v : ℕ) (r : RegistryRecord) (op : Op) (b : Backend) {after : Backend}
    → IsStep b op after
    → IsSparing j op
    → stored_version j v b ≡ some r
    → (q : RegistryRecord) × (stored_version j v after ≡ some q) × IsKept r q
unfolding stored_version IsKept IsSparing
step-IsKept j v r op b (IsStep.stays _) k h = (r, h, refl)
step-IsKept j v r op b (IsStep.begins s new first d) k h = elim (Bool-cases (s.id == j)) [
  | inl e ↦ let same : s.id ≡ j = (eq_iff s.id j).0 e in absurd (cc (rw (← same, new) at h))
  | inr e ↦ (r, rw (lookup-insert, e) h, refl)
]
step-IsKept j v r op b (IsStep.moves _ i env after found m) k h = elim (Bool-cases (i == j)) [
  | inl e ↦
      let same : i ≡ j = (eq_iff i j).0 e in
      rw (lookup-insert, e) (move-IsKept i env v r m (rw (← same, found) at h))
  | inr e ↦ (r, rw (lookup-insert, e) h, refl)
]
step-IsKept j v r op b (IsStep.ends i) k h = (r, rw (lookup-erase, k) h, refl)

-- A version that is stored stays stored whatever calls follow, as long as records are submitted as
-- drafts and the record is not deleted, and none of its fields changes but the status.
pub run_calls-IsKept :
    (model_validate : RegistryRecord → Bool) (ops : List Op) (record_id : String) (v : ℕ)
    (r : RegistryRecord) (b : Backend)
    → IsDrafted ops
    → IsUndeleted record_id ops
    → stored_version record_id v b ≡ some r
    → (q : RegistryRecord) × (stored_version record_id v (run_calls model_validate ops b) ≡ some q)
      × IsKept r q
unfolding run_calls IsDrafted IsUndeleted IsKept
run_calls-IsKept model_validate [] record_id v r b d k h = (r, h, refl)
run_calls-IsKept model_validate (op ∷ ops) record_id v r b (d, ds) (k, ks) h =
    let (q, e, f) = step-IsKept record_id v r op b (step-IsStep model_validate op b d) k h in
    let (s, g, i) =
      run_calls-IsKept model_validate ops record_id v q (step model_validate op b) ds ks e in
    (s, g, IsKept-trans r q s f i)
