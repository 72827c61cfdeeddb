-- ===== src/Registry/Store/Served.antt =====
-- What src/oneops/registry/store.py serves after an activation.
use one_ops_next_gen.Prelude.{
  ℕ, String, Bool, true, Option, none, some, lookup, eqb, Bool-cases, ◌≡◌, inl, inr, refl, arith,
  lookup-insert_self,
}
use one_ops_next_gen.Registry.{
  RecordStatus, RegistryRecord, Versions, Envelope, version_at, set_status,
}
use one_ops_next_gen.Registry.Versions.{with_status, version_at-set_status}
use one_ops_next_gen.Registry.Store.{
  Backend, Result, demoted, activate, activate_found, activate_version, promoted, parse, get,
  get_found, asked, read_version,
}
use one_ops_next_gen.Registry.Store.Invariant.{IsWellFormed, IsPointed}

-- Nothing that an envelope of the store points at is missing when it is demoted.
demotes :
    (v : ℕ) (vs : Versions) (pointer : Option ℕ) (t : RegistryRecord)
    → IsPointed vs pointer
    → version_at v vs ≡ some t
    → (after : Versions) × (demoted v vs pointer ≡ some after) × (version_at v after ≡ some t)
unfolding demoted IsPointed
demotes v vs none t p h = (vs, refl, h)
demotes v vs (some q) t p h = elim (Bool-cases (eqb q v)) [
  | inl e ↦ (vs, rw e refl, h)
  | inr e ↦
      let (r, f, s) = p q refl in
      (set_status q RecordStatus.retired vs, rw (e, f) refl, rw (version_at-set_status, e) h)
]

read_served :
    (model_validate : RegistryRecord → Bool) (env : Envelope) (v : ℕ) (r : RegistryRecord)
    → version_at v env.versions ≡ some r
    → model_validate r ≡ true
    → read_version model_validate env (some v) ≡ Result.returned r
unfolding read_version parse
read_served model_validate env v r h valid = rw (read_version, h, parse, valid) refl

-- In a well-formed envelope, a version that is stored, whether newer or older than the active one,
-- can be activated: the call succeeds when its record is valid, and a read with no version is
-- answered with that version from then on, ACTIVE and with the fields that it was stored with.
pub get-activate :
    (model_validate : RegistryRecord → Bool) (record_id : String) (v : ℕ) (b : Backend)
    (env : Envelope) (t : RegistryRecord)
    → lookup record_id b ≡ some env
    → version_at v env.versions ≡ some t
    → IsWellFormed record_id env
    → model_validate (record t { status = RecordStatus.active }) ≡ true
    → ((activate model_validate record_id v b).0
        ≡ Result.returned (record t { status = RecordStatus.active }))
      × (get model_validate record_id none (activate model_validate record_id v b).1
          ≡ Result.returned (record t { status = RecordStatus.active }))
unfolding IsWellFormed activate activate_found activate_version promoted parse get get_found asked
    read_version with_status
get-activate model_validate record_id v b env t found h (_, _, p) valid =
    let (after, d, there) = demotes v env.versions env.active_version t p h in
    let self : eqb v v ≡ true = ground arith in
    let served : version_at v (set_status v RecordStatus.active after)
        ≡ some (record t { status = RecordStatus.active }) =
      rw (version_at-set_status, self, there) refl in
    (
      rw (found, h, d, valid) refl,
      rw (found, h, d, lookup-insert_self)
          (read_served model_validate
            (record { versions = set_status v RecordStatus.active after; active_version = some v })
            v (record t { status = RecordStatus.active }) served valid),
    )
