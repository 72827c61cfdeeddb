-- ===== src/Fulfillment/Db/Locking.antt =====
-- The optimistic lock of `transition_task_state` (db.py): who may move a row, and what else moves.
use one_ops_next_gen.Prelude.{
  ℕ, suc, ◌+◌, String, Bool, true, false, List, [], ◌∷◌, none, some, ◌≡◌, ◌≢◌, refl, sym, ap, ◌∙◌,
  ap, ◌⊎◌, inl, inr, arith, Memᴰ, filter, Bool-cases, eq_iff, ◌==◌, Rows,
}
use one_ops_next_gen.Fulfillment.Contracts.{Task, TaskState}
use one_ops_next_gen.Fulfillment.Db.{
  Db, now, list_tasks_for_ritm, is_of_ritm, order_freshest, Change, is_claimed, moved_task,
  update_tasks, transition_task_state,
}
use one_ops_next_gen.Fulfillment.Db.Moved.{
  IsHeld, is_claimed-IsHeld, IsStep, update_tasks-Rows, update_tasks-IsHeld,
}

module _ (test : Task → Bool) (set : Task → Task) where
  -- The answer of an UPDATE is `none` exactly when no row passes, and then nothing is written.
  update_tasks_idle :
      (ts : List Task) → (update_tasks test set ts).1 ≡ none → (update_tasks test set ts).0 ≡ ts
  unfolding update_tasks
  update_tasks_idle [] h = refl
  update_tasks_idle (t ∷ ts) h = ground (arith, update_tasks_idle ts)

  -- What an UPDATE leaves of the rows that a test keeps, if it takes none of those and makes none.
  pub filter-update_tasks :
      (keep : Task → Bool)
      → ((t : Task) → test t ≡ true → (keep t ≡ false) × (keep (set t) ≡ false))
      → (ts : List Task) → filter keep (update_tasks test set ts).0 ≡ filter keep ts
  unfolding update_tasks
  filter-update_tasks keep apart [] = refl
  filter-update_tasks keep apart (t ∷ ts) = elim (Bool-cases (test t)) [
    | inl e ↦ ground (arith, e, apart t e, filter-update_tasks keep apart ts)
    | inr e ↦ ground (arith, e, filter-update_tasks keep apart ts)
  ]

  -- The answer of a second UPDATE, if its test passes no row that the first has taken or made.
  update_tasks-update_tasks :
      (other : Task → Bool) (put put' : Task → Task)
      → ((t : Task) → test t ≡ true → (other t ≡ false) × (other (set t) ≡ false))
      → ((t : Task) → (put t).version ≡ (put' t).version)
      → (ts : List Task)
      → (update_tasks other put (update_tasks test set ts).0).1 ≡ (update_tasks other put' ts).1
  unfolding update_tasks
  update_tasks-update_tasks other put put' apart same [] = refl
  update_tasks-update_tasks other put put' apart same (t ∷ ts) = elim (Bool-cases (test t)) [
    | inl e ↦
        ground (arith, e, apart t e, same t, update_tasks-update_tasks other put put' apart same ts)
    | inr e ↦ ground (arith, e, same t, update_tasks-update_tasks other put put' apart same ts)
  ]

  update_tasks-none :
      (other : Task → Bool) (put : Task → Task)
      → ((t : Task) → test t ≡ other t)
      → ((t : Task) → test t ≡ true → other (set t) ≡ false)
      → (ts : List Task) → (update_tasks other put (update_tasks test set ts).0).1 ≡ none
  unfolding update_tasks
  update_tasks-none other put same past [] = refl
  update_tasks-none other put same past (t ∷ ts) = elim (Bool-cases (test t)) [
    | inl e ↦ ground (arith, e, past t e, update_tasks-none other put same past ts)
    | inr e ↦ ground (arith, e, same t, update_tasks-none other put same past ts)
  ]

-- Another tenant or another id is another row, also once the row has moved.
is_claimed_apart :
    (tenant_id task_id tenant_id' task_id' : String) (s s' : TaskState) (v v' : ℕ) (t u : Task)
    → (tenant_id ≢ tenant_id') ⊎ (task_id ≢ task_id')
    → u.tenant_id ≡ t.tenant_id
    → u.task_id ≡ t.task_id
    → is_claimed tenant_id task_id s v t ≡ true
    → is_claimed tenant_id' task_id' s' v' u ≡ false
unfolding IsHeld
is_claimed_apart tenant_id task_id tenant_id' task_id' s s' v v' t u apart et ei h =
    elim (Bool-cases (is_claimed tenant_id' task_id' s' v' u)) [
      | inr other ↦ other
      | inl both ↦
          let a = is_claimed-IsHeld tenant_id task_id s v t h in
          let b = is_claimed-IsHeld tenant_id' task_id' s' v' u both in
          elim apart [
            | inl tenant ↦ absurd (tenant (sym a.0 ∙ sym et ∙ b.0))
            | inr id ↦ absurd (id (sym a.1 ∙ sym ei ∙ b.1))
          ]
    ]

pub transition_task_state_lock :
    (tenant_id task_id : String) (from_state to_state : TaskState) (version : ℕ) (change : Change)
    (db : Db)
    → let (db', found) =
        transition_task_state tenant_id task_id from_state to_state version change db in
      Rows (IsStep (now db) tenant_id task_id from_state to_state version change) db.tasks db'.tasks
      × (((t : Task) × Memᴰ t db.tasks
            × IsHeld tenant_id task_id from_state version t
            × (found ≡ some (version + 1)))
          ⊎ (((t : Task) → Memᴰ t db.tasks → ¬ IsHeld tenant_id task_id from_state version t)
              × (found ≡ none)
              × (db'.tasks ≡ db.tasks)))
      × (db'.ritms ≡ db.ritms)
      × (db'.approvals ≡ db.approvals)
unfolding transition_task_state
transition_task_state_lock tenant_id task_id from_state to_state version change db = (
  update_tasks-Rows tenant_id task_id from_state version (now db) to_state change db.tasks,
  elim (update_tasks-IsHeld tenant_id task_id from_state version (now db) to_state change
      db.tasks) [
        | inl found ↦ inl found
        | inr (nobody, idle) ↦ inr (nobody, ap (λ x. x.1) idle, ap (λ x. x.0) idle)
      ],
  refl,
  refl,
)

-- Of two workers that have read one row, in whatever state and version, and move it one after the
-- other, the second gets `None` and moves nothing, whatever each of them wanted to write.
pub transition_task_state_race :
    (tenant_id task_id : String) (from_state first second : TaskState) (version : ℕ)
    (change change' : Change) (db : Db)
    → let db' = (transition_task_state tenant_id task_id from_state first version change db).0 in
      let (db'', found) =
        transition_task_state tenant_id task_id from_state second version change' db' in
      (found ≡ none) × (db''.tasks ≡ db'.tasks)
unfolding transition_task_state
transition_task_state_race tenant_id task_id from_state first second version change change' db =
    let none_found =
      update_tasks-none (is_claimed tenant_id task_id from_state version)
        (moved_task (now db) first change) (is_claimed tenant_id task_id from_state version)
        (moved_task (db.now_at (suc db.statement)) second change') (λ t. refl) (λ t h. ground arith)
        db.tasks in
    (none_found, update_tasks_idle _ _ _ none_found)

-- Interleaving: whether a transition commits, and with which version, does not depend on a
-- transition of another task, or of another tenant's task, that came before it.
pub transition_task_state_independent :
    (tenant_id task_id tenant_id' task_id' : String)
    (from_state to_state from_state' to_state' : TaskState) (version version' : ℕ)
    (change change' : Change) (db : Db)
    → (tenant_id ≢ tenant_id') ⊎ (task_id ≢ task_id')
    → let db' = (transition_task_state tenant_id task_id from_state to_state version change db).0 in
      (transition_task_state tenant_id' task_id' from_state' to_state' version' change' db').1
      ≡ (transition_task_state tenant_id' task_id' from_state' to_state' version' change' db).1
unfolding transition_task_state
transition_task_state_independent tenant_id task_id tenant_id' task_id' from_state to_state
      from_state' to_state' version version' change change' db apart =
    update_tasks-update_tasks _ _ (is_claimed tenant_id' task_id' from_state' version')
      (moved_task (db.now_at (suc db.statement)) to_state' change')
      (moved_task (now db) to_state' change')
      (λ t h. (
        is_claimed_apart tenant_id task_id tenant_id' task_id' from_state from_state' version
            version' t t apart refl refl h,
        is_claimed_apart tenant_id task_id tenant_id' task_id' from_state from_state' version
            version' t (moved_task (now db) to_state change t) apart refl refl h,
      ))
      (λ t. refl) db.tasks

is_of_ritm_apart :
    (tenant_id task_id tenant_id' ritm_id' : String) (s : TaskState) (v : ℕ) (t : Task)
    → tenant_id ≢ tenant_id'
    → is_claimed tenant_id task_id s v t ≡ true
    → is_of_ritm tenant_id' ritm_id' t ≡ false
unfolding is_of_ritm IsHeld
is_of_ritm_apart tenant_id task_id tenant_id' ritm_id' s v t apart h =
    elim (Bool-cases (t.tenant_id == tenant_id')) [
      | inl same ↦
          absurd (apart (sym (is_claimed-IsHeld tenant_id task_id s v t h).0 ∙ (eq_iff _ _).0 same))
      | inr other ↦ rw other
    ]

-- A transition of one tenant's task leaves the tasks that every request item of another tenant
-- lists exactly as they are.
pub transition_task_state_isolated :
    (tenant_id task_id tenant_id' ritm_id' : String) (from_state to_state : TaskState) (version : ℕ)
    (change : Change) (db : Db)
    → tenant_id ≢ tenant_id'
    → list_tasks_for_ritm tenant_id' ritm_id'
        (transition_task_state tenant_id task_id from_state to_state version change db).0
      ≡ list_tasks_for_ritm tenant_id' ritm_id' db
unfolding transition_task_state list_tasks_for_ritm
transition_task_state_isolated tenant_id task_id tenant_id' ritm_id' from_state to_state version
      change db apart =
    ap order_freshest (
      filter-update_tasks _ _ (is_of_ritm tenant_id' ritm_id')
        (λ t h.
          let other = is_of_ritm_apart tenant_id task_id tenant_id' ritm_id' _ _ t apart h in
          (other, other))
        db.tasks)
