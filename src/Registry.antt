-- ===== src/Registry.antt =====
-- The version envelopes of src/oneops/registry/store.py, with the statuses of registry/models.py.
pub mod Versions
pub mod Store
use one_ops_next_gen.Prelude.{
  ℕ, zero, suc, ◌+◌, String, Bool, true, false, List, [], ◌∷◌, Option, none, some, eqb, leb,
  if◌then◌else◌,
}

pub data RecordStatus : Type 0 where
  draft : RecordStatus
  active : RecordStatus
  deprecated : RecordStatus
  retired : RecordStatus

abbrev pub status_eq : RecordStatus → RecordStatus → Bool
status_eq RecordStatus.draft RecordStatus.draft = true
status_eq RecordStatus.active RecordStatus.active = true
status_eq RecordStatus.deprecated RecordStatus.deprecated = true
status_eq RecordStatus.retired RecordStatus.retired = true
status_eq _ _ = false

-- A record as the store reads it: `body` stands for the fields of its kind.
pub record RegistryRecord : Type 0 where
  pub id : String
  pub version : ℕ
  pub status : RecordStatus
  pub body : String

abbrev pub Versions : Type 0
Versions = List (ℕ × RegistryRecord)

pub record Envelope : Type 0 where
  pub versions : Versions
  pub active_version : Option ℕ

-- versions.get(str(v))
unfoldable pub version_at : ℕ → Versions → Option RegistryRecord
version_at v [] = none
version_at v ((u, r) ∷ rest) = if eqb u v then some r else version_at v rest

-- versions[str(v)] = r
unfoldable pub set_version : ℕ → RegistryRecord → Versions → Versions
set_version v r [] = (v, r) ∷ []
set_version v r ((u, q) ∷ rest) =
    let others = set_version v r rest in if eqb u v then (u, r) ∷ rest else (u, q) ∷ others

-- versions[str(v)]["status"] = status
unfoldable pub set_status : ℕ → RecordStatus → Versions → Versions
set_status v status [] = []
set_status v status ((u, r) ∷ rest) =
    let others = set_status v status rest in
    if eqb u v then (u, record r { status = status }) ∷ rest else (u, r) ∷ others

abbrev pub max_from : ℕ → Versions → ℕ
max_from m [] = m
max_from m ((u, r) ∷ rest) = max_from (if leb m u then u else m) rest

-- max of the version numbers; `none` is the error of an empty set.
unfoldable pub max_version : Versions → Option ℕ
max_version [] = none
max_version ((u, r) ∷ rest) = some (max_from u rest)
