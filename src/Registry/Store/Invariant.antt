-- ===== src/Registry/Store/Invariant.antt =====
-- What holds of every envelope that the calls of src/oneops/registry/store.py build.
use one_ops_next_gen.Prelude.{
  ℕ, String, false, Option, none, some, eqb, Bool-cases, Option-cases, ◌≡◌, ◌⊎◌, inl, inr, refl,
  sym, ap, ◌∙◌, arith,
}
use one_ops_next_gen.Registry.{
  RecordStatus, RegistryRecord, Versions, Envelope, version_at, set_status,
}
use one_ops_next_gen.Registry.Versions.{set_status_cases}
use one_ops_next_gen.Registry.Store.{demoted, cleared}

-- Every version stands under its own number, in the envelope of its own id.
unfoldable pub IsNumbered : String → Versions → Type 0
IsNumbered record_id vs =
    (v : ℕ) (r : RegistryRecord) → version_at v vs ≡ some r → (r.version ≡ v) × (r.id ≡ record_id)

-- No version but the one that is pointed at is ACTIVE.
unfoldable pub IsOnlyActive : Versions → Option ℕ → Type 0
IsOnlyActive vs pointer =
    (v : ℕ) (r : RegistryRecord)
    → version_at v vs ≡ some r
    → r.status ≡ RecordStatus.active
    → pointer ≡ some v

-- The version that is pointed at exists, and is ACTIVE or DEPRECATED.
unfoldable pub IsPointed : Versions → Option ℕ → Type 0
IsPointed vs pointer =
    (a : ℕ)
    → pointer ≡ some a
    → (r : RegistryRecord) × (version_at a vs ≡ some r)
      × ((r.status ≡ RecordStatus.active) ⊎ (r.status ≡ RecordStatus.deprecated))

unfoldable pub IsWellFormed : String → Envelope → Type 0
unfolding IsNumbered IsOnlyActive IsPointed
IsWellFormed record_id env =
    IsNumbered record_id env.versions
    × IsOnlyActive env.versions env.active_version
    × IsPointed env.versions env.active_version

pub draft≢active : RecordStatus.draft ≡ RecordStatus.active → ⊥
draft≢active e = cc

pub active≢retired : RecordStatus.active ≡ RecordStatus.retired → ⊥
active≢retired e = cc

pub set_status-IsNumbered :
    (record_id : String) (v : ℕ) (status : RecordStatus) (vs : Versions)
    → IsNumbered record_id vs
    → IsNumbered record_id (set_status v status vs)
unfolding IsNumbered
set_status-IsNumbered record_id v status vs n u r h = elim (set_status_cases v u status vs h) [
  | inl (e, (q, f, g)) ↦
      let (a, b) = n u q f in
      (ap (λ (x : RegistryRecord). x.version) g ∙ a, ap (λ (x : RegistryRecord). x.id) g ∙ b)
  | inr (e, f) ↦ n u r f
]

-- A status other than ACTIVE makes no version ACTIVE.
pub set_status-IsOnlyActive :
    (v : ℕ) (status : RecordStatus) (vs : Versions) (pointer : Option ℕ)
    → (status ≡ RecordStatus.active → ⊥)
    → IsOnlyActive vs pointer
    → IsOnlyActive (set_status v status vs) pointer
unfolding IsOnlyActive
set_status-IsOnlyActive v status vs pointer ne o u r h a = elim (set_status_cases v u status vs h) [
  | inl (e, (q, f, g)) ↦ absurd (ne (sym (ap (λ (x : RegistryRecord). x.status) g) ∙ a))
  | inr (e, f) ↦ o u r f a
]

-- After the demotion, no version but the one to activate is ACTIVE, and that one is untouched.
pub demoted_cases :
    (v : ℕ) (vs : Versions) (pointer : Option ℕ) {after : Versions}
    → demoted v vs pointer ≡ some after
    → (after ≡ vs) × ((pointer ≡ none) ⊎ (pointer ≡ some v))
      ⊎ ((p : ℕ) × (pointer ≡ some p)
          × (eqb p v ≡ false)
          × (after ≡ set_status p RecordStatus.retired vs))
unfolding demoted
demoted_cases v vs none h = inl (cc, inl refl)
demoted_cases v vs (some p) h = elim (Bool-cases (eqb p v)) [
  | inl e ↦ inl (cc (rw (demoted, e) at h), inr (ap some (ground arith)))
  | inr e ↦ elim (Option-cases (version_at p vs)) [
    | inl f ↦ absurd (cc (rw (demoted, e, f) at h))
    | inr (q, f) ↦ inr (p, refl, e, cc (rw (demoted, e, f) at h))
  ]
]

pub cleared_cases :
    (v a : ℕ) (pointer : Option ℕ)
    → cleared v pointer ≡ some a
    → (pointer ≡ some a) × (eqb v a ≡ false)
unfolding cleared
cleared_cases v a none h = cc
cleared_cases v a (some p) h = elim (Bool-cases (eqb p v)) [
  | inl e ↦ cc (rw (cleared, e) at h)
  | inr e ↦ let same : p ≡ a = cc (rw (cleared, e) at h) in (ap some same, ground arith)
]
