-- ===== src/Fulfillment/Db/Moved.antt =====
-- What an UPDATE of `transition_task_state` (db.py) does to each row, told without its code.
use one_ops_next_gen.Prelude.{
  ℕ, ◌+◌, String, Bool, true, false, ◌&&◌, List, [], ◌∷◌, Option, none, some, ◌≡◌, ◌≢◌, refl, ap,
  ◌⊎◌, inl, inr, arith, Memᴰ, Memᴰ-cons, Bool-cases, eq_iff, subst, sym, if◌then◌else◌, Rows,
}
use one_ops_next_gen.Fulfillment.Contracts.{Task, TaskState, task_state_eq, task_state_eq_iff}
use one_ops_next_gen.Fulfillment.Db.{
  Change, coalesce, coalesce_or, is_none, is_claimed, moved_task, update_tasks,
}

-- The row that a caller has read: its tenant and id, its state and its version.
unfoldable pub IsHeld : String → String → TaskState → ℕ → Task → Type 0
IsHeld tenant_id task_id from_state version t =
    (t.tenant_id ≡ tenant_id)
    × (t.task_id ≡ task_id)
    × (t.state ≡ from_state)
    × (t.version ≡ version)

-- A column is set to a value that is given, and kept where none is.
unfoldable pub IsGiven {ℓ} : {A : Type ℓ} → Option A → Option A → Option A → Type ℓ
IsGiven none old new = new ≡ old
IsGiven (some a) old new = new ≡ some a

-- A time column is set once.
unfoldable pub IsStamped : ℕ → Option ℕ → Option ℕ → Type 0
IsStamped at none new = new ≡ some at
IsStamped at (some time) new = new ≡ some time

unfoldable pub IsCounted : Option ℕ → ℕ → ℕ → Type 0
IsCounted none old new = new ≡ old
IsCounted (some n) old new = new ≡ n

-- What a row becomes.
pub record IsMoved (at : ℕ) (to_state : TaskState) (change : Change) (t u : Task) : Type 0 where
  pub identity : (u.tenant_id ≡ t.tenant_id) × (u.task_id ≡ t.task_id) × (u.ritm_id ≡ t.ritm_id)
  pub state : u.state ≡ to_state
  pub version : u.version ≡ t.version + 1
  pub updated : u.updated_at ≡ at
  pub started : to_state ≡ TaskState.in_progress → IsStamped at t.started_at u.started_at
  pub not_started : to_state ≢ TaskState.in_progress → u.started_at ≡ t.started_at
  pub finished :
      (to_state ≡ TaskState.done) ⊎ (to_state ≡ TaskState.failed) ⊎ (to_state ≡ TaskState.skipped)
      → u.finished_at ≡ some at
  pub output : IsGiven change.output_payload t.output_payload u.output_payload
  pub message : IsGiven change.error_message t.error_message u.error_message
  pub code : IsGiven change.error_code t.error_code u.error_code
  pub retries : IsCounted change.retry_count t.retry_count u.retry_count

coalesce-IsGiven {ℓ} : {A : Type ℓ} (given old : Option A) → IsGiven given old (coalesce given old)
unfolding IsGiven
coalesce-IsGiven none old = refl
coalesce-IsGiven (some a) old = refl

coalesce_or-IsCounted : (given : Option ℕ) (old : ℕ) → IsCounted given old (coalesce_or given old)
unfolding IsCounted
coalesce_or-IsCounted none old = refl
coalesce_or-IsCounted (some n) old = refl

stamp-IsStamped :
    (at : ℕ) (test : Bool) (old : Option ℕ)
    → test ≡ true
    → IsStamped at old (if test && is_none old then some at else old)
unfolding IsStamped
stamp-IsStamped at test none e = rw e refl
stamp-IsStamped at test (some time) e = rw e refl

-- A column that no test sets.
stamp_kept :
    (at : ℕ) (s : TaskState) (old : Option ℕ)
    → s ≢ TaskState.in_progress
    → (if task_state_eq s TaskState.in_progress && is_none old then some at else old) ≡ old
stamp_kept at s old other = elim (Bool-cases (task_state_eq s TaskState.in_progress)) [
  | inl e ↦ absurd (other ((task_state_eq_iff s TaskState.in_progress).0 e))
  | inr e ↦ rw e refl
]

moved_task-IsMoved :
    (at : ℕ) (to_state : TaskState) (change : Change) (t : Task)
    → IsMoved at to_state change t (moved_task at to_state change t)
unfolding moved_task
moved_task-IsMoved at to_state change t = record {
  identity = (refl, refl, refl);
  state = refl;
  version = refl;
  updated = refl;
  started = λ e.
      stamp-IsStamped at _ t.started_at ((task_state_eq_iff to_state TaskState.in_progress).1 e);
  not_started = stamp_kept at to_state t.started_at;
  finished = λ h. elim h [ inl e ↦ rw e refl | inr (inl e) ↦ rw e refl | inr (inr e) ↦ rw e refl ];
  output = coalesce-IsGiven change.output_payload t.output_payload;
  message = coalesce-IsGiven change.error_message t.error_message;
  code = coalesce-IsGiven change.error_code t.error_code;
  retries = coalesce_or-IsCounted change.retry_count t.retry_count;
}

-- The row that is held is moved, and every other row stays as it is.
unfoldable pub IsStep :
    ℕ → String → String → TaskState → TaskState → ℕ → Change → Task → Task → Type 0
IsStep at tenant_id task_id from_state to_state version change t u =
    (IsHeld tenant_id task_id from_state version t × IsMoved at to_state change t u)
    ⊎ ((¬ IsHeld tenant_id task_id from_state version t) × (u ≡ t))

module _ (tenant_id task_id : String) (from_state : TaskState) (version : ℕ) where
  -- The four conditions of the WHERE clause.
  pub is_claimed-IsHeld :
      (t : Task)
      → is_claimed tenant_id task_id from_state version t ≡ true
      → IsHeld tenant_id task_id from_state version t
  unfolding is_claimed IsHeld
  is_claimed-IsHeld t h = (
    ground (arith, eq_iff t.tenant_id tenant_id, h),
    ground (arith, eq_iff t.task_id task_id, h),
    (task_state_eq_iff t.state from_state).0 (ground (arith, h)),
    ground (arith, h),
  )

  IsHeld-is_claimed :
      (t : Task)
      → IsHeld tenant_id task_id from_state version t
      → is_claimed tenant_id task_id from_state version t ≡ true
  unfolding is_claimed IsHeld
  IsHeld-is_claimed t (a, b, c, d) =
      rw
        (
          (eq_iff t.tenant_id tenant_id).1 a,
          (eq_iff t.task_id task_id).1 b,
          (task_state_eq_iff t.state from_state).1 c,
        )
        (ground arith)

  not-IsHeld :
      (t : Task)
      → is_claimed tenant_id task_id from_state version t ≡ false
      → ¬ IsHeld tenant_id task_id from_state version t
  not-IsHeld t e h = cc (sym e, IsHeld-is_claimed t h)

  pub update_tasks-Rows :
      (at : ℕ) (to_state : TaskState) (change : Change) (ts : List Task)
      → Rows
          (IsStep at tenant_id task_id from_state to_state version change)
          ts
          (update_tasks
            (is_claimed tenant_id task_id from_state version)
            (moved_task at to_state change)
            ts).0
  unfolding update_tasks IsStep
  update_tasks-Rows at to_state change [] = Rows.nil
  update_tasks-Rows at to_state change (t ∷ ts) =
      let rest = update_tasks-Rows at to_state change ts in
      elim (Bool-cases (is_claimed tenant_id task_id from_state version t)) [
        | inl e ↦
            rw e (
              Rows.cons (inl (is_claimed-IsHeld t e, moved_task-IsMoved at to_state change t)) rest)
        | inr e ↦ rw e (Rows.cons (inr (not-IsHeld t e, refl)) rest)
      ]

  -- A row that is held answers the UPDATE.
  pub update_tasks-IsHeld :
      (at : ℕ) (to_state : TaskState) (change : Change) (ts : List Task)
      → ((t : Task) × Memᴰ t ts
          × IsHeld tenant_id task_id from_state version t
          × ((update_tasks
                (is_claimed tenant_id task_id from_state version)
                (moved_task at to_state change)
                ts).1
              ≡ some (version + 1)))
        ⊎ (((t : Task) → Memᴰ t ts → ¬ IsHeld tenant_id task_id from_state version t)
            × ((update_tasks
                  (is_claimed tenant_id task_id from_state version)
                  (moved_task at to_state change)
                  ts)
                ≡ (ts, none)))
  unfolding update_tasks IsHeld moved_task
  update_tasks-IsHeld at to_state change [] = inr (λ t m. elim m [ ], refl)
  update_tasks-IsHeld at to_state change (t ∷ ts) =
      elim (Bool-cases (is_claimed tenant_id task_id from_state version t)) [
        | inl e ↦ inl (
          t,
          Memᴰ.head refl,
          is_claimed-IsHeld t e,
          rw e (ap some (ap (λ n. n + 1) (is_claimed-IsHeld t e).3)),
        )
        | inr e ↦ elim (update_tasks-IsHeld at to_state change ts) [
          | inl (u, m, held, found) ↦ inl (u, Memᴰ.tail m, held, rw e found)
          | inr (nobody, idle) ↦ inr (
            λ u m h. elim (Memᴰ-cons m) [
              | inl same ↦
                  not-IsHeld t e (subst (IsHeld tenant_id task_id from_state version) same h)
              | inr rest ↦ nobody u rest h
            ],
            rw (e, idle) refl,
          )
        ]
      ]
