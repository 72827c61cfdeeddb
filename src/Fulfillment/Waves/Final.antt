-- ===== src/Fulfillment/Waves/Final.antt =====
-- What a run of a request item may do to the rows of itsm.task: no run moves a row that is done,
-- failed, skipped or blocked, and none touches a row of another tenant.
use one_ops_next_gen.Prelude.{
  ℕ, zero, suc, String, Bool, true, false, List, [], ◌∷◌, Option, none, some, ◌≡◌, ◌≢◌, refl, subst,
  sym, ap, ◌∙◌, inl, inr, arith, Memᴰ, mem-filter, mem_of_contains, contains, Bool-cases, if_ind,
  ◌==◌, eq_iff,
}
use one_ops_next_gen.Fulfillment.Contracts.{Task, TaskState, task_state_eq, Ritm}
use one_ops_next_gen.Fulfillment.Plan.{
  is_waiting, is_in_flight, ready_task_ids, states_of, is_terminal, RitmOutcome,
}
use one_ops_next_gen.Fulfillment.Plan.Ready.{ready_task_ids_sound}
use one_ops_next_gen.Fulfillment.Db.{
  Db, order_freshest, is_of_ritm, get_ritm, list_tasks_for_ritm, transition_ritm_state,
  finalise_run,
}
use one_ops_next_gen.Fulfillment.Db.Locking.{filter-update_tasks}
use one_ops_next_gen.Fulfillment.Db.Listing.{
  HasKeys, mem-update_tasks_kept, update_tasks-HasKeys, mem-list_tasks_for_ritm,
}
use one_ops_next_gen.Fulfillment.Plan.Cascade.{transitively_blocked_task_ids_lem}
use one_ops_next_gen.Fulfillment.Waves.{
  run_ready_wave, skip_tasks, apply_cascade_skips, recover_orphans, finalise, ready_tasks, Outcome,
  unless_idle, initialise, run_initialised, waves, execute_plan_locked, execute_plan,
  init_ritm_and_recover, is_orphan, start_ritm, max_waves,
}
use one_ops_next_gen.Fulfillment.Waves.Guarded.{
  Guarded, Guarded-trans, Guarded-of_same, Guarded-refl, transition-Guarded,
  execute_one_task-Guarded,
}
use one_ops_next_gen.Fulfillment.Executor.{Env, execute_one_task}

abbrev AllWaiting : String → List Task → Type 0
AllWaiting tenant_id ts =
    (t : Task) → Memᴰ t ts → (t.tenant_id ≡ tenant_id) × (is_in_flight t.state ≡ true)

is_waiting-in_flight : (s : TaskState) → is_waiting s ≡ true → is_in_flight s ≡ true
is_waiting-in_flight s h = ground arith

module _ (env : Env) (tenant_id : String) where
  run_ready_wave-Guarded :
      (ts : List Task) (db : Db)
      → AllWaiting tenant_id ts
      → Guarded tenant_id db (run_ready_wave env ts db)
  unfolding run_ready_wave
  run_ready_wave-Guarded [] db h = Guarded-refl db
  run_ready_wave-Guarded (t ∷ ts) db h =
      let (tenant, fly) = h t (Memᴰ.head refl) in
      Guarded-trans
        (subst (λ x. Guarded x db (execute_one_task env t db).0) tenant
          (execute_one_task-Guarded env t db fly))
        (run_ready_wave-Guarded ts (execute_one_task env t db).0 (λ u m. h u (Memᴰ.tail m)))

  skip_tasks-Guarded :
      (l : List (String × TaskState × ℕ)) (db : Db)
      → ((x : String × TaskState × ℕ) → Memᴰ x l → is_in_flight x.1 ≡ true)
      → Guarded tenant_id db (skip_tasks tenant_id l db)
  unfolding skip_tasks
  skip_tasks-Guarded [] db h = Guarded-refl db
  skip_tasks-Guarded ((id, state, version) ∷ l) db h =
      Guarded-trans
        (transition-Guarded id state TaskState.skipped version _ db (h _ (Memᴰ.head refl)))
        (skip_tasks-Guarded l _ (λ x m. h x (Memᴰ.tail m)))

  apply_cascade_skips-Guarded :
      (tasks : List Task) (db : Db) → Guarded tenant_id db (apply_cascade_skips tenant_id tasks db)
  unfolding apply_cascade_skips
  apply_cascade_skips-Guarded tasks db =
      let (l, e, c) = transitively_blocked_task_ids_lem tasks in
      rw e (
        skip_tasks-Guarded l db (λ x m.
          let (t, n, same, waits, _) = c.sound x m in
          ap (λ (y : String × TaskState × ℕ). is_in_flight y.1) same
          ∙ is_waiting-in_flight t.state waits))

  not_orphan :
      (ritm_id : String) (at minutes : ℕ) (u : Task)
      → is_in_flight u.state ≡ false
      → is_orphan tenant_id ritm_id at minutes u ≡ false
  unfolding is_orphan task_state_eq
  not_orphan ritm_id at minutes u h = ground arith

  orphan_apart :
      (ritm_id tenant_id' ritm_id' : String) (at minutes : ℕ) (t : Task)
      → tenant_id ≢ tenant_id'
      → is_orphan tenant_id ritm_id at minutes t ≡ true
      → is_of_ritm tenant_id' ritm_id' t ≡ false
  unfolding is_orphan is_of_ritm
  orphan_apart ritm_id tenant_id' ritm_id' at minutes t apart h =
      elim (Bool-cases (t.tenant_id == tenant_id')) [
        | inr other ↦ rw other
        | inl same ↦
            let own : t.tenant_id ≡ tenant_id =
              (eq_iff t.tenant_id tenant_id).0 (ground (arith, h)) in
            absurd (apart (sym own ∙ (eq_iff _ _).0 same))
      ]

  recover_orphans-Guarded :
      (ritm_id : String) (db : Db) → Guarded tenant_id db (recover_orphans env tenant_id ritm_id db)
  unfolding recover_orphans list_tasks_for_ritm
  recover_orphans-Guarded ritm_id db = record {
    kept = λ u final m. mem-update_tasks_kept _ _ u db.tasks (not_orphan ritm_id _ _ u final) m;
    keyed = λ k. update_tasks-HasKeys _ _ db.tasks (λ t. (refl, refl)) k;
    isolated = λ tenant_id' ritm_id' apart. ap order_freshest (
        filter-update_tasks _ _ (is_of_ritm tenant_id' ritm_id')
          (λ t h.
            let other = orphan_apart ritm_id tenant_id' ritm_id' _ _ t apart h in (other, other))
          db.tasks);
  }

  finalise-tasks :
      (ritm_id : String) (outcome : RitmOutcome) (tasks : List Task) (db : Db)
      → (finalise tenant_id ritm_id outcome tasks db).0.tasks ≡ db.tasks
  unfolding finalise transition_ritm_state finalise_run
  finalise-tasks ritm_id outcome tasks db = ground arith

  start_ritm-tasks :
      (ritm_id : String) (ritm : Ritm) (db : Db)
      → (start_ritm tenant_id ritm_id ritm db).tasks ≡ db.tasks
  unfolding start_ritm transition_ritm_state
  start_ritm-tasks ritm_id ritm db = ground arith

  -- Every row of a wave was read as pending or ready, since an id names one row.
  ready_tasks-AllWaiting :
      (ritm_id : String) (db : Db)
      → HasKeys db.tasks
      → AllWaiting tenant_id (ready_tasks (list_tasks_for_ritm tenant_id ritm_id db))
  unfolding ready_tasks
  ready_tasks-AllWaiting ritm_id db keys t m =
      let rows = list_tasks_for_ritm tenant_id ritm_id db in
      let (listed, ready) =
        mem-filter (λ (u : Task). contains u.task_id (ready_task_ids rows)) t rows m in
      let (u, listed', named, waits, _) =
        ready_task_ids_sound rows t.task_id
          (mem_of_contains t.task_id (ready_task_ids rows) ready) in
      let (row, tenant, _) = mem-list_tasks_for_ritm t tenant_id ritm_id db listed in
      let (row', tenant', _) = mem-list_tasks_for_ritm u tenant_id ritm_id db listed' in
      let same = keys u t row' row (tenant' ∙ sym tenant) named in
      (
        tenant,
        ap (λ (v : Task). is_in_flight v.state) (sym same) ∙ is_waiting-in_flight u.state waits,
      )

  abbrev After : Db → Db × Option Outcome → Type 0
  After db after = Guarded tenant_id db after.0

  unless_idle-After :
      (db : Db) (wave : List Task) (status rest : Db × Option Outcome)
      → After db status
      → After db rest
      → After db (unless_idle wave status rest)
  unfolding unless_idle
  unless_idle-After db [] _ _ s r = s
  unless_idle-After db (t ∷ ts) _ _ s r = r

  waves-Guarded :
      (n : ℕ) (ritm_id : String) (db : Db)
      → HasKeys db.tasks
      → Guarded tenant_id db (waves n env tenant_id ritm_id db).0
  unfolding waves
  waves-Guarded zero ritm_id db keys =
      Guarded-of_same (finalise-tasks ritm_id RitmOutcome.failed [] db)
  waves-Guarded (suc n) ritm_id db keys =
      let skipped = apply_cascade_skips tenant_id (list_tasks_for_ritm tenant_id ritm_id db) db in
      let tasks = list_tasks_for_ritm tenant_id ritm_id skipped in
      let cascade = apply_cascade_skips-Guarded (list_tasks_for_ritm tenant_id ritm_id db) db in
      let keys' = cascade.keyed keys in
      let wave =
        run_ready_wave-Guarded (ready_tasks tasks) skipped
          (ready_tasks-AllWaiting ritm_id skipped keys') in
      let rest =
        waves-Guarded n ritm_id (run_ready_wave env (ready_tasks tasks) skipped)
          (wave.keyed keys') in
      Guarded-trans cascade (
        if_ind (After skipped) (is_terminal (states_of tasks)).0
          (Guarded-of_same (finalise-tasks ritm_id _ tasks skipped))
          (unless_idle-After skipped (ready_tasks tasks) _ _ (Guarded-refl skipped)
            (Guarded-trans wave rest)))

  initialised-Guarded :
      (ritm_id : String) (db : Db) (ritm : Option Ritm)
      → HasKeys db.tasks
      → After db
          (run_initialised env tenant_id ritm_id db (initialise env tenant_id ritm_id db ritm))
  unfolding initialise run_initialised
  initialised-Guarded ritm_id db none keys = Guarded-refl db
  initialised-Guarded ritm_id db (some ritm) keys =
      let started = Guarded-of_same (start_ritm-tasks ritm_id ritm db) in
      let recovered = recover_orphans-Guarded ritm_id (start_ritm tenant_id ritm_id ritm db) in
      let first = Guarded-trans started recovered in
      Guarded-trans first (waves-Guarded max_waves ritm_id _ (first.keyed keys))

-- A run of a request item, whatever the adapter answers, whether or not it gets the lock, and however
-- far it comes, leaves every row of itsm.task that is done, failed, skipped or blocked exactly as
-- it is, keeps the primary key, and leaves what any other tenant lists exactly as it is. The rows
-- are to have the primary key at the start.
pub execute_plan-Guarded :
    (env : Env) (lock_ok : Bool) (tenant_id ritm_id : String) (db : Db)
    → HasKeys db.tasks
    → Guarded tenant_id db (execute_plan env lock_ok tenant_id ritm_id db).0
unfolding execute_plan execute_plan_locked init_ritm_and_recover
execute_plan-Guarded env lock_ok tenant_id ritm_id db keys =
    if_ind (After env tenant_id db) lock_ok
      (initialised-Guarded env tenant_id ritm_id db (get_ritm tenant_id ritm_id db) keys)
      (Guarded-refl db)
