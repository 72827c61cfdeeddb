-- ===== src/Registry/Versions.antt =====
-- What is found among the versions of an envelope of src/oneops/registry/store.py.
use one_ops_next_gen.Prelude.{
  ℕ, ◌≤◌, leb, true, false, [], ◌∷◌, Option, none, some, eqb, if◌then◌else◌, Bool-cases, ◌≡◌, ◌⊎◌,
  inl, inr, refl, Option-cases, arith,
}
use one_ops_next_gen.Registry.{
  RecordStatus, RegistryRecord, Versions, version_at, set_version, set_status, max_version,
  max_from,
}

unfoldable pub with_status : RecordStatus → Option RegistryRecord → Option RegistryRecord
with_status status none = none
with_status status (some r) = some (record r { status = status })

pub version_at-set_version :
    (v u : ℕ) (r : RegistryRecord) (vs : Versions)
    → version_at u (set_version v r vs) ≡ (if eqb v u then some r else version_at u vs)
unfolding version_at set_version
version_at-set_version v u r [] = refl
version_at-set_version v u r ((w, q) ∷ rest) = ground (arith, version_at-set_version v u r rest)

pub version_at-set_status :
    (v u : ℕ) (status : RecordStatus) (vs : Versions)
    → version_at u (set_status v status vs)
      ≡ (if eqb v u then with_status status (version_at u vs) else version_at u vs)
unfolding version_at set_status with_status
version_at-set_status v u status [] = elim (Bool-cases (eqb v u)) [
  | inl e ↦ rw e refl
  | inr e ↦ rw e refl
]
version_at-set_status v u status ((w, r) ∷ rest) =
    let ih = version_at-set_status v u status rest in
    elim (Bool-cases (eqb w v)) [
      | inl e ↦ elim (Bool-cases (eqb v u)) [
        | inl f ↦ let here : eqb w u ≡ true = ground arith in rw (e, f, version_at, here) refl
        | inr f ↦ let other : eqb w u ≡ false = ground arith in rw (e, f, version_at, other) refl
      ]
      | inr e ↦ elim (Bool-cases (eqb w u)) [
        | inl f ↦ let other : eqb v u ≡ false = ground arith in rw (e, version_at, f, other) refl
        | inr f ↦ rw (e, version_at, f) ih
      ]
    ]

-- A version that is found after a status is written was found before, with the same fields.
pub set_status_cases :
    (v u : ℕ) (status : RecordStatus) (vs : Versions) {r : RegistryRecord}
    → version_at u (set_status v status vs) ≡ some r
    → ((v ≡ u)
        × ((q : RegistryRecord) × (version_at u vs ≡ some q) × (r ≡ record q { status = status })))
      ⊎ ((eqb v u ≡ false) × (version_at u vs ≡ some r))
unfolding with_status
set_status_cases v u status vs h = elim (Bool-cases (eqb v u)) [
  | inl e ↦ elim (Option-cases (version_at u vs)) [
    | inl f ↦ absurd (cc (rw (version_at-set_status, e, f, with_status) at h))
    | inr (q, f) ↦
        inl (ground arith, (q, f, cc (rw (version_at-set_status, e, f, with_status) at h)))
  ]
  | inr e ↦ inr (e, rw (version_at-set_status, e) at h)
]

max_from_ge : (m : ℕ) (vs : Versions) → m ≤ max_from m vs
max_from_ge m [] = omega arith
max_from_ge m ((u, r) ∷ rest) = ground (arith, max_from_ge u rest, max_from_ge m rest)

le-max_from :
    (m v : ℕ) (vs : Versions) {r : RegistryRecord} → version_at v vs ≡ some r → v ≤ max_from m vs
unfolding version_at
le-max_from m v [] h = cc
le-max_from m v ((u, r) ∷ rest) h = elim (Bool-cases (eqb u v)) [
  | inl e ↦ ground (arith, max_from_ge u rest, max_from_ge m rest)
  | inr e ↦ le-max_from (if leb m u then u else m) v rest (rw (version_at, e) at h)
]

-- No version is above the largest.
pub le-max_version :
    (v m : ℕ) (vs : Versions) {r : RegistryRecord}
    → max_version vs ≡ some m
    → version_at v vs ≡ some r
    → v ≤ m
unfolding version_at max_version
le-max_version v m [] e h = cc
le-max_version v m ((u, r) ∷ rest) e h = elim (Bool-cases (eqb u v)) [
  | inl f ↦ let top : max_from u rest ≡ m = cc in ground (arith, max_from_ge u rest)
  | inr f ↦
      let top : max_from u rest ≡ m = cc in
      let low = le-max_from u v rest (rw (version_at, f) at h) in omega arith
]
