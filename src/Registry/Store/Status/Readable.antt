-- ===== src/Registry/Store/Status/Readable.antt =====
-- How the status of a record of src/oneops/registry/store.py goes with what a read answers.
use one_ops_next_gen.Prelude.{
  ℕ, String, Bool, [], ◌∷◌, Option, none, some, lookup, if_ind, if◌then◌else◌, Option-cases, ◌≡◌,
  ◌⊎◌, inl, inr, refl, ap,
}
use one_ops_next_gen.Registry.{RecordStatus, RegistryRecord, Versions, Envelope, version_at}
use one_ops_next_gen.Registry.Store.{
  Backend, Result, Fault, get, get_found, asked, read_version, parse,
}
use one_ops_next_gen.Registry.Store.Invariant.{IsWellFormed, IsPointed}
use one_ops_next_gen.Registry.Store.Status.{
  unpointed_status, pointed_status, pointed_payload, status_from, envelope_lifecycle_status,
}

-- A record is in the ACTIVE or the DEPRECATED state.
unfoldable pub IsLive : Option RecordStatus → Type 0
IsLive s = (s ≡ some RecordStatus.active) ⊎ (s ≡ some RecordStatus.deprecated)

IsLive-none : ¬ IsLive none
unfolding IsLive
IsLive-none l = elim l [ inl e ↦ cc | inr e ↦ cc ]

IsLive-draft : ¬ IsLive (some RecordStatus.draft)
unfolding IsLive
IsLive-draft l = elim l [ inl e ↦ cc | inr e ↦ cc ]

IsLive-retired : ¬ IsLive (some RecordStatus.retired)
unfolding IsLive
IsLive-retired l = elim l [ inl e ↦ cc | inr e ↦ cc ]

live_status : (r : RegistryRecord) (s : RecordStatus) → some r.status ≡ some s → r.status ≡ s
live_status r s e = cc

IsLive-unpointed_status : (vs : Versions) → ¬ IsLive (unpointed_status vs)
unfolding unpointed_status IsLive
IsLive-unpointed_status vs =
    if_ind (λ s. ¬ IsLive s) _ IsLive-draft (if_ind (λ s. ¬ IsLive s) _ IsLive-retired IsLive-none)

status_from_unpointed : (vs : Versions) → ¬ IsLive (status_from vs none)
unfolding status_from pointed_status pointed_payload
status_from_unpointed [] = IsLive-none
status_from_unpointed (v ∷ vs) = IsLive-unpointed_status (v ∷ vs)

status_from_pointed :
    (vs : Versions) (a : ℕ) (r : RegistryRecord)
    → version_at a vs ≡ some r
    → IsLive (some r.status)
    → status_from vs (some a) ≡ some r.status
unfolding status_from pointed_status pointed_payload version_at IsLive
status_from_pointed [] a r h live = cc
status_from_pointed (v ∷ vs) a r h live = elim live [
  | inl e ↦
      rw (status_from, pointed_payload, h, pointed_status, live_status r RecordStatus.active e) refl
  | inr e ↦
      rw (status_from, pointed_payload, h, pointed_status, live_status r RecordStatus.deprecated e)
        refl
]

IsLive-envelope_lifecycle_status :
    (env : Envelope) → env.active_version ≡ none → ¬ IsLive (envelope_lifecycle_status env)
unfolding envelope_lifecycle_status
IsLive-envelope_lifecycle_status env e = rw e (status_from_unpointed env.versions)

-- In a well-formed envelope, a read with no version finds a record exactly when the status is ACTIVE
-- or DEPRECATED: then the record has that status, and the read answers it if it is valid and raises
-- `RecordValidationError` if it is not; otherwise the read raises `RecordNotFoundError`.
pub get-lifecycle_status :
    (model_validate : RegistryRecord → Bool) (record_id : String) (b : Backend) (env : Envelope)
    → lookup record_id b ≡ some env
    → IsWellFormed record_id env
    → ((r : RegistryRecord) × (get model_validate record_id none b
          ≡ (if model_validate r then Result.returned r else Result.raised Fault.record_validation))
        × (envelope_lifecycle_status env ≡ some r.status)
        × IsLive (envelope_lifecycle_status env))
      ⊎ ((get model_validate record_id none b ≡ Result.raised Fault.record_not_found)
          × (¬ IsLive (envelope_lifecycle_status env)))
unfolding IsWellFormed IsPointed get get_found asked read_version envelope_lifecycle_status IsLive
get-lifecycle_status model_validate record_id b env found (_, _, p) =
    elim (Option-cases env.active_version) [
      | inl e ↦ inr (rw (found, e) refl, IsLive-envelope_lifecycle_status env e)
      | inr (a, e) ↦
          let (r, f, s) = p a e in
          let live : IsLive (some r.status) = elim s [
            | inl g ↦ inl (ap some g)
            | inr g ↦ inr (ap some g)
          ] in
          let same : status_from env.versions env.active_version ≡ some r.status =
            rw e (status_from_pointed env.versions a r f live) in
          inl (r, rw (found, get_found, asked, e, read_version, f, parse) refl, same, rw same live)
    ]
