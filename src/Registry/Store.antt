-- ===== src/Registry/Store.antt =====
-- `VersionedStore` of src/oneops/registry/store.py for one kind of record. The backend is the
-- `dict` from ids to envelopes that its protocol describes.
pub mod Moves
pub mod Lifecycle
pub mod History
pub mod Served
pub mod Status
pub mod Invariant
pub mod Moved
use one_ops_next_gen.Prelude.{
  ℕ, suc, ◌+◌, String, Bool, true, false, not, ◌&&◌, List, [], ◌∷◌, Option, none, some, Dict,
  lookup, insert, erase, eqb, if◌then◌else◌, all, any,
}
use one_ops_next_gen.Registry.{
  RecordStatus, status_eq, RegistryRecord, Versions, Envelope, version_at, set_version, set_status,
  max_version,
}

-- The exceptions, by their types.
pub data Fault : Type 0 where
  record_conflict : Fault
  record_not_found : Fault
  record_validation : Fault
  key_error : Fault
  value_error : Fault

pub data Result {ℓ} (A : Type ℓ) : Type ℓ where
  returned : A → Result A
  raised : Fault → Result A

abbrev pub Backend : Type 0
Backend = Dict Envelope

create_absent : RegistryRecord → Backend → Option Envelope → Result RegistryRecord × Backend
create_absent r b (some env) = (Result.raised Fault.record_conflict, b)
create_absent r b none =
    if eqb r.version 1
    then (
      Result.returned r,
      insert r.id (record { versions = (1, r) ∷ []; active_version = none }) b,
    )
    else (Result.raised Fault.record_validation, b)

unfoldable pub create : RegistryRecord → Backend → Result RegistryRecord × Backend
unfolding create_absent
create r b = create_absent r b (lookup r.id b)

append_version : RegistryRecord → Backend → Envelope → Option ℕ → Result RegistryRecord × Backend
append_version r b env none = (Result.raised Fault.value_error, b)
append_version r b env (some newest) =
    if eqb r.version (newest + 1)
    then (
      Result.returned r,
      insert r.id (record env { versions = set_version (newest + 1) r env.versions }) b,
    )
    else (Result.raised Fault.record_conflict, b)

update_found : RegistryRecord → Backend → Option Envelope → Result RegistryRecord × Backend
unfolding append_version
update_found r b none = (Result.raised Fault.record_not_found, b)
update_found r b (some env) = append_version r b env (max_version env.versions)

unfoldable pub update : RegistryRecord → Backend → Result RegistryRecord × Backend
unfolding update_found
update r b = update_found r b (lookup r.id b)

-- The versions after the prior active one has been demoted; `none` is the KeyError.
unfoldable pub demoted : ℕ → Versions → Option ℕ → Option Versions
demoted v vs none = some vs
demoted v vs (some prior) = if eqb prior v then some vs else elim (version_at prior vs) [
  | none ↦ none
  | some prev ↦ some (set_status prior RecordStatus.retired vs)
]

-- `model_validate` is what pydantic answers for a stored record, status and all.
module _ (model_validate : RegistryRecord → Bool) where
  unfoldable pub parse : RegistryRecord → Result RegistryRecord
  parse raw =
      if model_validate raw then Result.returned raw else Result.raised Fault.record_validation

  promoted :
      String
      → ℕ
      → RegistryRecord
      → Backend
      → Envelope
      → Option Versions
      → Result RegistryRecord × Backend
  unfolding parse
  promoted record_id v target b env none = (Result.raised Fault.key_error, b)
  promoted record_id v target b env (some vs) = (
    parse (record target { status = RecordStatus.active }),
    insert record_id
        (record { versions = set_status v RecordStatus.active vs; active_version = some v }) b,
  )

  activate_version :
      String → ℕ → Backend → Envelope → Option RegistryRecord → Result RegistryRecord × Backend
  unfolding promoted demoted
  activate_version record_id v b env none = (Result.raised Fault.record_not_found, b)
  activate_version record_id v b env (some target) =
      promoted record_id v target b env (demoted v env.versions env.active_version)

  activate_found : String → ℕ → Backend → Option Envelope → Result RegistryRecord × Backend
  unfolding activate_version
  activate_found record_id v b none = (Result.raised Fault.record_not_found, b)
  activate_found record_id v b (some env) =
      activate_version record_id v b env (version_at v env.versions)

  unfoldable pub activate : String → ℕ → Backend → Result RegistryRecord × Backend
  unfolding activate_found
  activate record_id v b = activate_found record_id v b (lookup record_id b)

  read_version : Envelope → Option ℕ → Result RegistryRecord
  unfolding parse
  read_version env none = Result.raised Fault.record_not_found
  read_version env (some v) = elim (version_at v env.versions) [
    | none ↦ Result.raised Fault.record_not_found
    | some payload ↦ parse payload
  ]

  -- The version that is asked for, or else the active one.
  asked : Envelope → Option ℕ → Option ℕ
  asked env none = env.active_version
  asked env (some v) = some v

  get_found : Option ℕ → Option Envelope → Result RegistryRecord
  unfolding read_version asked
  get_found version none = Result.raised Fault.record_not_found
  get_found version (some env) = read_version env (asked env version)

  unfoldable pub get : String → Option ℕ → Backend → Result RegistryRecord
  unfolding get_found
  get record_id version b = get_found version (lookup record_id b)

  optional : Result RegistryRecord → Result (Option RegistryRecord)
  optional (Result.returned r) = Result.returned (some r)
  optional (Result.raised Fault.record_not_found) = Result.returned none
  optional (Result.raised fault) = Result.raised fault

  unfoldable pub get_optional : String → Option ℕ → Backend → Result (Option RegistryRecord)
  unfolding optional
  get_optional record_id version b = optional (get record_id version b)

  kept_active :
      Result (Option RegistryRecord) → Result (List RegistryRecord) → Result (List RegistryRecord)
  kept_active (Result.raised fault) rest = Result.raised fault
  kept_active (Result.returned none) rest = rest
  kept_active (Result.returned (some r)) (Result.raised fault) = Result.raised fault
  kept_active (Result.returned (some r)) (Result.returned rs) =
      Result.returned (if status_eq r.status RecordStatus.active then r ∷ rs else rs)

  -- `list_active` over the ids that the backend lists.
  unfoldable pub list_active : List String → Backend → Result (List RegistryRecord)
  unfolding kept_active
  list_active [] b = Result.returned []
  list_active (record_id ∷ ids) b = kept_active (get_optional record_id none b) (list_active ids b)

deprecate_version : String → ℕ → Backend → Envelope → Option RegistryRecord → Option Fault × Backend
deprecate_version record_id v b env none = (some Fault.record_not_found, b)
deprecate_version record_id v b env (some r) = (
  none,
  insert record_id (record env { versions = set_status v RecordStatus.deprecated env.versions }) b,
)

deprecate_found : String → ℕ → Backend → Option Envelope → Option Fault × Backend
unfolding deprecate_version
deprecate_found record_id v b none = (some Fault.record_not_found, b)
deprecate_found record_id v b (some env) =
    deprecate_version record_id v b env (version_at v env.versions)

unfoldable pub deprecate : String → ℕ → Backend → Option Fault × Backend
unfolding deprecate_found
deprecate record_id v b = deprecate_found record_id v b (lookup record_id b)

-- The pointer after a version is retired.
unfoldable pub cleared : ℕ → Option ℕ → Option ℕ
cleared v none = none
cleared v (some a) = if eqb a v then none else some a

retire_version : String → ℕ → Backend → Envelope → Option RegistryRecord → Option Fault × Backend
unfolding cleared
retire_version record_id v b env none = (some Fault.record_not_found, b)
retire_version record_id v b env (some r) = (
  none,
  insert record_id
      (record {
        versions = set_status v RecordStatus.retired env.versions;
        active_version = cleared v env.active_version;
      })
      b,
)

retire_found : String → ℕ → Backend → Option Envelope → Option Fault × Backend
unfolding retire_version
retire_found record_id v b none = (some Fault.record_not_found, b)
retire_found record_id v b (some env) = retire_version record_id v b env (version_at v env.versions)

unfoldable pub retire : String → ℕ → Backend → Option Fault × Backend
unfolding retire_found
retire record_id v b = retire_found record_id v b (lookup record_id b)

delete_found : String → Backend → Option Envelope → Option Fault × Backend
delete_found record_id b none = (some Fault.record_not_found, b)
delete_found record_id b (some env) = (none, erase record_id b)

unfoldable pub delete : String → Backend → Option Fault × Backend
unfolding delete_found
delete record_id b = delete_found record_id b (lookup record_id b)
