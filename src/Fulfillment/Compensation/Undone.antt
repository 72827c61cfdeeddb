-- ===== src/Fulfillment/Compensation/Undone.antt =====
-- What a compensation undoes, and what it leaves behind.
use mathlib.Core.List.{Perm, IsChain}
use one_ops_next_gen.Authz.DecisionCache.{text_le}
use one_ops_next_gen.Fulfillment.Compensation.Outcomes.{HasFields, IsEntry, compensate_each-Rows}
use one_ops_next_gen.Prelude.{
  Rows, text_total, String, Bool, true, false, ◌&&◌, List, [], ◌∷◌, Option, none, some, ◌≡◌, ◌↔◌,
  refl, sym, ap, ◌∙◌, inl, inr, arith, filter, mem-filter, mem-filter_of_mem, Memᴰ, Bool-cases, eqb,
  if_ind,
}
use one_ops_next_gen.Authz.DecisionCache.Sorted.{mem-sorted, sorted-perm, sorted-IsAscending}
use one_ops_next_gen.Fulfillment.Contracts.{
  Task, TaskState, Ritm, RitmState, ritm_state_eq, ritm_state_eq_iff,
}
use one_ops_next_gen.Fulfillment.Plan.{is_done}
use one_ops_next_gen.Fulfillment.Db.{
  Db, list_tasks_for_ritm, get_ritm, find_ritm, is_ritm, update_ritms, moved_ritm,
  transition_ritm_state, now,
}
use one_ops_next_gen.Fulfillment.Executor.{Env}
use one_ops_next_gen.Fulfillment.Compensation.{
  Undoing, completed_tasks, later_first, cancel_ritm, after_undoing, compensate_ritm,
}

-- The first row that passes a test is what an update of that row makes it.
find-update_ritms :
    (p q : Ritm → Bool) (set : Ritm → Ritm) (rs : List Ritm) (r : Ritm)
    → ((x : Ritm) → p x ≡ false → q x ≡ false)
    → ((x : Ritm) → p (set x) ≡ p x)
    → find_ritm p rs ≡ some r
    → q r ≡ true
    → find_ritm p (update_ritms q set rs).0 ≡ some (set r)
unfolding find_ritm update_ritms
find-update_ritms p q set [] r only same h hq = cc
find-update_ritms p q set (x ∷ rs) r only same h hq = elim (Bool-cases (p x)) [
  | inl e ↦
      let here : x ≡ r = cc (rw (e, find_ritm) at h) in
      let moved : q x ≡ true = ap q here ∙ hq in
      rw (moved, find_ritm, same, e) (ap (λ y. some (set y)) here)
  | inr e ↦
      rw (only x e, find_ritm, e)
        (find-update_ritms p q set rs r only same (rw (e, find_ritm) at h) hq)
]

find_ritm_passes :
    (p : Ritm → Bool) (rs : List Ritm) (r : Ritm) → find_ritm p rs ≡ some r → p r ≡ true
unfolding find_ritm
find_ritm_passes p [] r h = cc
find_ritm_passes p (x ∷ rs) r h = elim (Bool-cases (p x)) [
  | inl e ↦ let here : x ≡ r = cc (rw (e, find_ritm) at h) in sym (ap p here) ∙ e
  | inr e ↦ find_ritm_passes p rs r (rw (e, find_ritm) at h)
]

cancelled_ritm :
    (tenant_id ritm_id : String) (found : Option Ritm) (db : Db) (r : Ritm)
    → get_ritm tenant_id ritm_id db ≡ found
    → get_ritm tenant_id ritm_id (cancel_ritm tenant_id ritm_id found db) ≡ some r
    → r.state ≡ RitmState.cancelled
unfolding cancel_ritm get_ritm transition_ritm_state is_ritm moved_ritm
cancelled_ritm tenant_id ritm_id none db r e h = cc
cancelled_ritm tenant_id ritm_id (some ritm) db r e h =
    elim (Bool-cases (ritm_state_eq ritm.state RitmState.cancelled)) [
      | inl already ↦
          let same : r ≡ ritm = cc (rw already at h) in
          ap (λ (x : Ritm). x.state) same
          ∙ (ritm_state_eq_iff ritm.state RitmState.cancelled).0 already
      | inr fresh ↦
          let p = is_ritm tenant_id ritm_id in
          let q =
            λ (x : Ritm). p x && (ritm_state_eq x.state ritm.state && eqb x.version ritm.version) in
          let hits : q ritm ≡ true =
            let listed = find_ritm_passes p db.ritms ritm e in
            let same = (ritm_state_eq_iff ritm.state ritm.state).1 refl in
            rw (listed, same) (ground arith) in
          let found =
            find-update_ritms p q (moved_ritm (now db) RitmState.cancelled none none) db.ritms ritm
              (λ x n. ground (arith, n)) (λ x. refl) e hits in
          cc (sym found ∙ (rw fresh at h))
    ]

is_done_iff : (s : TaskState) → is_done s ≡ true → s ≡ TaskState.done
is_done_iff s h = ground (arith, h)

mem-completed_tasks :
    (tasks : List Task) (t : Task)
    → Memᴰ t (completed_tasks tasks) ↔ (Memᴰ t tasks × (t.state ≡ TaskState.done))
unfolding completed_tasks
mem-completed_tasks tasks t =
    let done_row = λ (x : Task). is_done x.state in
    let (to, from) = mem-sorted later_first t (filter done_row tasks) in
    (
      λ m. let (n, d) = mem-filter done_row t tasks (to m) in (n, is_done_iff t.state d),
      λ h. let (n, d) = h in from (mem-filter_of_mem done_row t tasks n (ap is_done d)),
    )

cancel_ritm-tasks :
    (tenant_id ritm_id : String) (found : Option Ritm) (db : Db)
    → (cancel_ritm tenant_id ritm_id found db).tasks ≡ db.tasks
unfolding cancel_ritm transition_ritm_state
cancel_ritm-tasks tenant_id ritm_id none db = refl
cancel_ritm-tasks tenant_id ritm_id (some ritm) db =
    if_ind (λ (x : Db). x.tasks ≡ db.tasks) (ritm_state_eq ritm.state RitmState.cancelled) refl refl

later_total : (a b : Task) → later_first a b ≡ false → later_first b a ≡ true
later_total a b h = text_total b.template_task_id a.template_task_id h

-- What a compensation has done, by its results and the database that it leaves.
pub record IsUndone (env : Env) (tenant_id ritm_id : String) (db : Db)
    (results : List (String × Undoing)) (db' : Db) : Type 0 where
  pub undone : List Task
  pub exactly_done :
      (t : Task)
      → Memᴰ t undone
        ↔ (Memᴰ t (list_tasks_for_ritm tenant_id ritm_id db) × (t.state ≡ TaskState.done))
  pub once_each :
      Perm undone (filter (λ t. is_done t.state) (list_tasks_for_ritm tenant_id ritm_id db))
  pub last_first :
      IsChain (λ (a b : Task). text_le b.template_task_id a.template_task_id ≡ true) undone
  pub entries : Rows (IsEntry env) undone results
  pub tasks : db'.tasks ≡ db.tasks
  pub cancelled :
      (r : Ritm) → get_ritm tenant_id ritm_id db' ≡ some r → r.state ≡ RitmState.cancelled

-- A compensation ends, whatever the adapter answers, if no row that is done has a bare text as its
-- output. Its results are those of the rows of the request item that are done, as often as they are
-- listed, in an order in which no template id comes before a later one: for each of them the
-- compensating tool was called with the id that the row had left, or there is the reason why it was
-- not. It has changed no row of itsm.task; and the request item, if there is one, is cancelled,
-- whatever its state was.
pub compensate_ritm_lem :
    (env : Env) (tenant_id ritm_id : String) (db : Db)
    → ((t : Task)
        → Memᴰ t (list_tasks_for_ritm tenant_id ritm_id db)
        → t.state ≡ TaskState.done
        → HasFields t)
    → (results : List (String × Undoing)) × (db' : Db) × (compensate_ritm env tenant_id ritm_id db
        ≡ some (results, db'))
      × IsUndone env tenant_id ritm_id db results db'
unfolding compensate_ritm after_undoing completed_tasks
compensate_ritm_lem env tenant_id ritm_id db h =
    let tasks = list_tasks_for_ritm tenant_id ritm_id db in
    let found = get_ritm tenant_id ritm_id db in
    let (results, e, entries) =
      compensate_each-Rows env (completed_tasks tasks)
        (λ t m. let (n, d) = (mem-completed_tasks tasks t).0 m in h t n d) in
    (
      results,
      cancel_ritm tenant_id ritm_id found db,
      rw e refl,
      record {
        undone = completed_tasks tasks;
        exactly_done = mem-completed_tasks tasks;
        once_each = sorted-perm later_first (filter (λ t. is_done t.state) tasks);
        last_first =
            sorted-IsAscending later_first later_total (filter (λ t. is_done t.state) tasks);
        entries = entries;
        tasks = cancel_ritm-tasks tenant_id ritm_id found db;
        cancelled = λ r m. cancelled_ritm tenant_id ritm_id found db r refl m;
      },
    )
