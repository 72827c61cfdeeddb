-- ===== src/Registry/Store/Moves.antt =====
-- The step relation of one envelope of src/oneops/registry/store.py, and that each operation of
-- the store takes one of its steps, creates or deletes an envelope, or changes nothing.
use one_ops_next_gen.Prelude.{
  ℕ, ◌+◌, String, Bool, [], ◌∷◌, Option, none, some, lookup, insert, erase, eqb, Bool-cases, ◌≡◌,
  inl, inr, refl, arith,
}
use one_ops_next_gen.Registry.{
  RecordStatus, RegistryRecord, Versions, Envelope, version_at, set_version, set_status,
  max_version,
}
use one_ops_next_gen.Registry.Store.{
  Backend, create, create_absent, update, update_found, append_version, activate, activate_found,
  activate_version, promoted, demoted, deprecate, deprecate_found, deprecate_version, retire,
  retire_found, retire_version, cleared, delete, delete_found,
}

-- A call that may change the store.
pub data Op : Type 0 where
  creates : RegistryRecord → Op
  updates : RegistryRecord → Op
  activates : String → ℕ → Op
  deprecates : String → ℕ → Op
  retires : String → ℕ → Op
  deletes : String → Op

-- A record is submitted as a draft.
abbrev pub IsDraftOp : Op → Type 0
IsDraftOp (Op.creates r) = r.status ≡ RecordStatus.draft
IsDraftOp (Op.updates r) = r.status ≡ RecordStatus.draft
IsDraftOp (Op.activates record_id v) = Unit
IsDraftOp (Op.deprecates record_id v) = Unit
IsDraftOp (Op.retires record_id v) = Unit
IsDraftOp (Op.deletes record_id) = Unit

unfoldable pub step : (RegistryRecord → Bool) → Op → Backend → Backend
step model_validate (Op.creates r) b = (create r b).1
step model_validate (Op.updates r) b = (update r b).1
step model_validate (Op.activates record_id v) b = (activate model_validate record_id v b).1
step model_validate (Op.deprecates record_id v) b = (deprecate record_id v b).1
step model_validate (Op.retires record_id v) b = (retire record_id v b).1
step model_validate (Op.deletes record_id) b = (delete record_id b).1

pub data IsMove (record_id : String) (env : Envelope) : Envelope → Type 0 where
  appends :
      (r : RegistryRecord) (m : ℕ)
      → max_version env.versions ≡ some m
      → r.version ≡ m + 1
      → r.id ≡ record_id
      → r.status ≡ RecordStatus.draft
      → IsMove record_id env (record env { versions = set_version (m + 1) r env.versions })
  activates :
      (v : ℕ) (t : RegistryRecord) (vs : Versions)
      → version_at v env.versions ≡ some t
      → demoted v env.versions env.active_version ≡ some vs
      → IsMove record_id env
          (record { versions = set_status v RecordStatus.active vs; active_version = some v })
  deprecates :
      (v : ℕ)
      → IsMove record_id env
          (record env { versions = set_status v RecordStatus.deprecated env.versions })
  retires :
      (v : ℕ)
      → IsMove record_id env (record {
        versions = set_status v RecordStatus.retired env.versions;
        active_version = cleared v env.active_version;
      })

-- What a call does to the store.
pub data IsStep (b : Backend) : Op → Backend → Type 0 where
  stays : (op : Op) → IsStep b op b
  begins :
      (r : RegistryRecord)
      → lookup r.id b ≡ none
      → r.version ≡ 1
      → r.status ≡ RecordStatus.draft
      → IsStep b
          (Op.creates r)
          (insert r.id (record { versions = (1, r) ∷ []; active_version = none }) b)
  moves :
      (op : Op) (record_id : String) (env after : Envelope)
      → lookup record_id b ≡ some env
      → IsMove record_id env after
      → IsStep b op (insert record_id after b)
  ends : (record_id : String) → IsStep b (Op.deletes record_id) (erase record_id b)

create-IsStep :
    (r : RegistryRecord) (b : Backend) (found : Option Envelope)
    → lookup r.id b ≡ found
    → r.status ≡ RecordStatus.draft
    → IsStep b (Op.creates r) (create_absent r b found).1
unfolding create_absent
create-IsStep r b (some env) h d = (IsStep.stays _)
create-IsStep r b none h d = elim (Bool-cases (eqb r.version 1)) [
  | inl e ↦ rw e (IsStep.begins r h (ground arith) d)
  | inr e ↦ rw e (IsStep.stays _)
]

update-IsStep :
    (r : RegistryRecord) (b : Backend) (found : Option Envelope)
    → lookup r.id b ≡ found
    → r.status ≡ RecordStatus.draft
    → IsStep b (Op.updates r) (update_found r b found).1
unfolding update_found append_version
update-IsStep r b none h d = (IsStep.stays _)
update-IsStep r b (some env) h d = go (max_version env.versions) refl
  where
    go :
        (m : Option ℕ)
        → max_version env.versions ≡ m
        → IsStep b (Op.updates r) (append_version r b env m).1
    go none e = (IsStep.stays _)
    go (some m) e = (elim (Bool-cases (eqb r.version (m + 1))) [
      | inl f ↦ rw f (IsStep.moves _ r.id env _ h (IsMove.appends r m e (ground arith) refl d))
      | inr f ↦ rw f (IsStep.stays _)
    ])

activate-IsStep :
    (model_validate : RegistryRecord → Bool) (record_id : String) (v : ℕ) (b : Backend)
    (found : Option Envelope)
    → lookup record_id b ≡ found
    → IsStep b (Op.activates record_id v) (activate_found model_validate record_id v b found).1
unfolding activate_found activate_version promoted
activate-IsStep model_validate record_id v b none h = (IsStep.stays _)
activate-IsStep model_validate record_id v b (some env) h = go (version_at v env.versions) refl
  where
    promote :
        (t : RegistryRecord) (vs : Option Versions)
        → version_at v env.versions ≡ some t
        → demoted v env.versions env.active_version ≡ vs
        → IsStep b (Op.activates record_id v) (promoted model_validate record_id v t b env vs).1
    promote t none e f = (IsStep.stays _)
    promote t (some vs) e f = (IsStep.moves _ record_id env _ h (IsMove.activates v t vs e f))

    go :
        (t : Option RegistryRecord)
        → version_at v env.versions ≡ t
        → IsStep b
            (Op.activates record_id v)
            (activate_version model_validate record_id v b env t).1
    go none e = (IsStep.stays _)
    go (some t) e = (promote t _ e refl)

deprecate-IsStep :
    (record_id : String) (v : ℕ) (b : Backend) (found : Option Envelope)
    → lookup record_id b ≡ found
    → IsStep b (Op.deprecates record_id v) (deprecate_found record_id v b found).1
unfolding deprecate_found deprecate_version
deprecate-IsStep record_id v b none h = (IsStep.stays _)
deprecate-IsStep record_id v b (some env) h =
    elim (version_at v env.versions)
      as (λ t. IsStep b (Op.deprecates record_id v) (deprecate_version record_id v b env t).1) [
        | none ↦ (IsStep.stays _)
        | some r ↦ IsStep.moves _ record_id env _ h (IsMove.deprecates v)
      ]

retire-IsStep :
    (record_id : String) (v : ℕ) (b : Backend) (found : Option Envelope)
    → lookup record_id b ≡ found
    → IsStep b (Op.retires record_id v) (retire_found record_id v b found).1
unfolding retire_found retire_version
retire-IsStep record_id v b none h = (IsStep.stays _)
retire-IsStep record_id v b (some env) h =
    elim (version_at v env.versions)
      as (λ t. IsStep b (Op.retires record_id v) (retire_version record_id v b env t).1) [
        | none ↦ (IsStep.stays _)
        | some r ↦ IsStep.moves _ record_id env _ h (IsMove.retires v)
      ]

delete-IsStep :
    (record_id : String) (b : Backend) (found : Option Envelope)
    → IsStep b (Op.deletes record_id) (delete_found record_id b found).1
unfolding delete_found
delete-IsStep record_id b none = (IsStep.stays _)
delete-IsStep record_id b (some env) = IsStep.ends record_id

pub step-IsStep :
    (model_validate : RegistryRecord → Bool) (op : Op) (b : Backend)
    → IsDraftOp op
    → IsStep b op (step model_validate op b)
unfolding step create update activate deprecate retire delete
step-IsStep model_validate (Op.creates r) b d = create-IsStep r b (lookup r.id b) refl d
step-IsStep model_validate (Op.updates r) b d = update-IsStep r b (lookup r.id b) refl d
step-IsStep model_validate (Op.activates record_id v) b d =
    activate-IsStep model_validate record_id v b (lookup record_id b) refl
step-IsStep model_validate (Op.deprecates record_id v) b d =
    deprecate-IsStep record_id v b (lookup record_id b) refl
step-IsStep model_validate (Op.retires record_id v) b d =
    retire-IsStep record_id v b (lookup record_id b) refl
step-IsStep model_validate (Op.deletes record_id) b d =
    delete-IsStep record_id b (lookup record_id b)
