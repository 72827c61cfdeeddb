-- ===== src/Registry/Store/Status.antt =====
-- `_envelope_lifecycle_status` and `lifecycle_summary` of src/oneops/registry/store.py. The keys of
-- a status's count are the statuses.
pub mod Readable
use one_ops_next_gen.Prelude.{
  ℕ, suc, String, Bool, true, false, List, [], ◌∷◌, Option, none, some, lookup, if◌then◌else◌,
}
use one_ops_next_gen.Registry.{
  RecordStatus, status_eq, RegistryRecord, Versions, Envelope, version_at,
}
use one_ops_next_gen.Registry.Store.{Backend}

any_draft : Versions → Bool
any_draft [] = false
any_draft ((v, r) ∷ rest) = if status_eq r.status RecordStatus.draft then true else any_draft rest

all_retired : Versions → Bool
all_retired [] = true
all_retired ((v, r) ∷ rest) =
    if status_eq r.status RecordStatus.retired then all_retired rest else false

-- The status when no ACTIVE or DEPRECATED version is pointed at.
unfoldable pub unpointed_status : Versions → Option RecordStatus
unfolding any_draft all_retired
unpointed_status vs =
    if any_draft vs
    then some RecordStatus.draft
    else if all_retired vs
    then some RecordStatus.retired
    else none

unfoldable pub pointed_status : Versions → Option RegistryRecord → Option RecordStatus
unfolding unpointed_status
pointed_status vs none = unpointed_status vs
pointed_status vs (some payload) =
    if status_eq payload.status RecordStatus.active
    then some RecordStatus.active
    else if status_eq payload.status RecordStatus.deprecated
    then some RecordStatus.deprecated
    else unpointed_status vs

-- The payload under the pointer, if there is one.
unfoldable pub pointed_payload : Versions → Option ℕ → Option RegistryRecord
pointed_payload vs none = none
pointed_payload vs (some a) = version_at a vs

unfoldable pub status_from : Versions → Option ℕ → Option RecordStatus
unfolding pointed_status pointed_payload
status_from [] pointer = none
status_from (v ∷ vs) pointer = pointed_status (v ∷ vs) (pointed_payload (v ∷ vs) pointer)

unfoldable pub envelope_lifecycle_status : Envelope → Option RecordStatus
unfolding status_from
envelope_lifecycle_status env = status_from env.versions env.active_version

is_status : RecordStatus → Option RecordStatus → Bool
is_status s none = false
is_status s (some t) = status_eq s t

status_of_record : Option Envelope → Option RecordStatus
status_of_record none = none
status_of_record (some env) = envelope_lifecycle_status env

-- The count of one status over the ids that the backend lists.
unfoldable pub lifecycle_summary : List String → Backend → RecordStatus → ℕ
unfolding is_status status_of_record
lifecycle_summary [] b s = 0
lifecycle_summary (record_id ∷ ids) b s =
    let rest = lifecycle_summary ids b s in
    if is_status s (status_of_record (lookup record_id b)) then suc rest else rest
