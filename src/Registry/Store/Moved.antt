-- ===== src/Registry/Store/Moved.antt =====
-- That each step of an envelope of src/oneops/registry/store.py keeps it well formed.
use one_ops_next_gen.Prelude.{
  ℕ, ◌+◌, String, true, false, [], ◌∷◌, none, some, eqb, Bool-cases, ◌≡◌, ◌⊎◌, inl, inr, refl, sym,
  ap, ◌∙◌, arith,
}
use one_ops_next_gen.Registry.{
  RecordStatus, RegistryRecord, Versions, Envelope, version_at, set_version, set_status,
  max_version,
}
use one_ops_next_gen.Registry.Versions.{
  with_status, version_at-set_version, version_at-set_status, set_status_cases, le-max_version,
}
use one_ops_next_gen.Registry.Store.{demoted, cleared}
use one_ops_next_gen.Registry.Store.Moves.{IsMove}
use one_ops_next_gen.Registry.Store.Invariant.{
  IsNumbered, IsOnlyActive, IsPointed, IsWellFormed, draft≢active, active≢retired,
  set_status-IsNumbered, set_status-IsOnlyActive, demoted_cases, cleared_cases,
}

activates-IsWellFormed :
    (record_id : String) (env : Envelope) (v : ℕ) (t : RegistryRecord) (after : Versions)
    → version_at v env.versions ≡ some t
    → demoted v env.versions env.active_version ≡ some after
    → IsWellFormed record_id env
    → IsWellFormed record_id
        (record { versions = set_status v RecordStatus.active after; active_version = some v })
unfolding IsWellFormed IsNumbered IsOnlyActive IsPointed with_status
activates-IsWellFormed record_id env v t after found d (n, o, p) =
    elim (demoted_cases v env.versions env.active_version d) [
      | inl (same, pointer) ↦ go (rw same n) (rw same found) (λ u r h a. elim pointer [
        | inl e ↦ absurd (cc (e, o u r (rw same at h) a))
        | inr e ↦ cc (e, o u r (rw same at h) a)
      ])
      | inr (q, pointer, other, demotion) ↦
          go (rw demotion (set_status-IsNumbered record_id q RecordStatus.retired env.versions n))
            (rw (demotion, version_at-set_status, other) found)
            (λ u r h a.
              elim (set_status_cases q u RecordStatus.retired env.versions (rw demotion at h)) [
                | inl (e, (x, f, g)) ↦
                    absurd (active≢retired (sym a ∙ ap (λ (x : RegistryRecord). x.status) g))
                | inr (e, f) ↦
                    let clash : some q ≡ some u = sym pointer ∙ o u r f a in
                    let same : q ≡ u = cc in absurd (ground arith)
              ])
    ]
  where
    go :
        IsNumbered record_id after
        → version_at v after ≡ some t
        → ((u : ℕ) (r : RegistryRecord)
            → version_at u after ≡ some r
            → r.status ≡ RecordStatus.active
            → v ≡ u)
        → IsWellFormed record_id
            (record { versions = set_status v RecordStatus.active after; active_version = some v })
    go numbered there only = (
      set_status-IsNumbered record_id v RecordStatus.active after numbered,
      λ u r h a. elim (set_status_cases v u RecordStatus.active after h) [
        | inl (e, _) ↦ ap some e
        | inr (e, f) ↦ ap some (only u r f a)
      ],
      λ a e.
          let same : v ≡ a = cc in
          let self : eqb v a ≡ true = ground arith in
          (
            record t { status = RecordStatus.active },
            rw (version_at-set_status, self, ← same, there) refl,
            inl refl,
          ),
    )

appends-IsWellFormed :
    (record_id : String) (env : Envelope) (r : RegistryRecord) (m : ℕ)
    → max_version env.versions ≡ some m
    → r.version ≡ m + 1
    → r.id ≡ record_id
    → r.status ≡ RecordStatus.draft
    → IsWellFormed record_id env
    → IsWellFormed record_id (record env { versions = set_version (m + 1) r env.versions })
unfolding IsWellFormed IsNumbered IsOnlyActive IsPointed
appends-IsWellFormed record_id env r m top next own d (n, o, p) = (
  λ u q h. elim (at u q h) [ inl (e, f) ↦ (cc, cc) | inr f ↦ n u q f ],
  λ u q h a. elim (at u q h) [ inl (e, f) ↦ absurd (cc) | inr f ↦ o u q f a ],
  λ a e.
      let (q, f, s) = p a e in
      let low = le-max_version a m env.versions top f in
      let old : eqb (m + 1) a ≡ false = ground arith in (q, rw (version_at-set_version, old) f, s),
)
  where
    at :
        (u : ℕ) (q : RegistryRecord)
        → version_at u (set_version (m + 1) r env.versions) ≡ some q
        → ((m + 1 ≡ u) × (r ≡ q)) ⊎ (version_at u env.versions ≡ some q)
    at u q h = elim (Bool-cases (eqb (m + 1) u)) [
      | inl e ↦ inl (ground arith, cc (rw (version_at-set_version, e) at h))
      | inr e ↦ inr (rw (version_at-set_version, e) at h)
    ]

deprecates-IsWellFormed :
    (record_id : String) (env : Envelope) (v : ℕ)
    → IsWellFormed record_id env
    → IsWellFormed record_id
        (record env { versions = set_status v RecordStatus.deprecated env.versions })
unfolding IsWellFormed IsPointed with_status
deprecates-IsWellFormed record_id env v (n, o, p) = (
  set_status-IsNumbered record_id v RecordStatus.deprecated env.versions n,
  set_status-IsOnlyActive v RecordStatus.deprecated env.versions env.active_version (λ e. cc) o,
  λ a e.
      let (q, f, s) = p a e in
      elim (Bool-cases (eqb v a)) [
        | inl g ↦ (
          record q { status = RecordStatus.deprecated },
          rw (version_at-set_status, g, f) refl,
          inr refl,
        )
        | inr g ↦ (q, rw (version_at-set_status, g) f, s)
      ],
)

retires-IsWellFormed :
    (record_id : String) (env : Envelope) (v : ℕ)
    → IsWellFormed record_id env
    → IsWellFormed record_id (record {
      versions = set_status v RecordStatus.retired env.versions;
      active_version = cleared v env.active_version;
    })
unfolding IsWellFormed IsOnlyActive IsPointed cleared
retires-IsWellFormed record_id env v (n, o, p) = (
  set_status-IsNumbered record_id v RecordStatus.retired env.versions n,
  λ u r h a. elim (set_status_cases v u RecordStatus.retired env.versions h) [
    | inl (e, (q, f, g)) ↦ absurd (active≢retired (sym a ∙ ap (λ (x : RegistryRecord). x.status) g))
    | inr (e, f) ↦ let other : eqb u v ≡ false = ground arith in rw (o u r f a, cleared, other) refl
  ],
  λ a e.
      let (pointer, g) = cleared_cases v a env.active_version e in
      let (q, f, s) = p a pointer in (q, rw (version_at-set_status, g) f, s),
)

pub begun-IsWellFormed :
    (r : RegistryRecord)
    → r.version ≡ 1
    → r.status ≡ RecordStatus.draft
    → IsWellFormed r.id (record { versions = (1, r) ∷ []; active_version = none })
unfolding IsWellFormed IsNumbered IsOnlyActive IsPointed version_at
begun-IsWellFormed r first d = (
  λ u q h. elim (Bool-cases (eqb 1 u)) [
    | inl e ↦
        let same : r ≡ q = cc (rw (version_at, e) at h) in
        let one : 1 ≡ u = ground arith in
        (
          sym (ap (λ (x : RegistryRecord). x.version) same) ∙ first ∙ one,
          sym (ap (λ (x : RegistryRecord). x.id) same),
        )
    | inr e ↦ cc (rw (version_at, e) at h)
  ],
  λ u q h a. elim (Bool-cases (eqb 1 u)) [
    | inl e ↦
        let same : r ≡ q = cc (rw (version_at, e) at h) in
        absurd (draft≢active (sym d ∙ ap (λ (x : RegistryRecord). x.status) same ∙ a))
    | inr e ↦ cc (rw (version_at, e) at h)
  ],
  λ a e. absurd cc,
)

pub move-IsWellFormed :
    (record_id : String) (env : Envelope) {after : Envelope}
    → IsMove record_id env after
    → IsWellFormed record_id env
    → IsWellFormed record_id after
move-IsWellFormed record_id env (IsMove.appends r m top next own d) w =
    appends-IsWellFormed record_id env r m top next own d w
move-IsWellFormed record_id env (IsMove.activates v t vs found d) w =
    activates-IsWellFormed record_id env v t vs found d w
move-IsWellFormed record_id env (IsMove.deprecates v) w = deprecates-IsWellFormed record_id env v w
move-IsWellFormed record_id env (IsMove.retires v) w = retires-IsWellFormed record_id env v w
