-- ===== src/Scenarios/FulfillmentRuns.antt =====
-- Runs of the fulfilment use case.
use one_ops_next_gen.Prelude.{
  ℕ, String, true, false, List, [], ◌∷◌, none, some, ◌≡◌, ◌≢◌, ◌↔◌, inl, inr, refl, sym, ap, ◌∙◌,
  Memᴰ, Memᴰ-cons, contains, eq_iff, lookup, insert, any, all,
}
use one_ops_next_gen.Fulfillment.Contracts.{Task, TaskState}
use one_ops_next_gen.Fulfillment.Plan.{
  RitmOutcome, is_terminal, is_waiting, is_settled, is_in_flight, is_done, is_failed,
  ready_task_ids, poisoned_templates, failed_templates, is_ready, deps_ok, by_template,
  transitively_blocked_task_ids,
}
use one_ops_next_gen.Fulfillment.Plan.Poison.{Poisoned, poisoned_templates-iff-Poisoned}
use one_ops_next_gen.Fulfillment.Plan.Ready.{
  IsSettledDep, ready_task_ids_sound, ready_task_ids_complete,
}
use one_ops_next_gen.Fulfillment.Plan.Terminal.{is_terminal_outcome, is_terminal-parked}
use one_ops_next_gen.Fulfillment.Plan.Cascade.{IsCascade, transitively_blocked_task_ids_lem}
use one_ops_next_gen.Fulfillment.Db.{Db, no_change, transition_task_state, list_tasks_for_ritm}
use one_ops_next_gen.Fulfillment.Db.Locking.{
  transition_task_state_race, transition_task_state_independent, transition_task_state_isolated,
}
use one_ops_next_gen.Fulfillment.Db.Listing.{HasKeys}
use one_ops_next_gen.Fulfillment.Executor.{settle, execute_one_task, claim_task}
use one_ops_next_gen.Fulfillment.Executor.Steps.{
  IsSettled, settle_verdict, approval_gate_default_type,
}
use one_ops_next_gen.Fulfillment.Waves.{execute_plan}
use one_ops_next_gen.Fulfillment.Waves.Guarded.{Guarded}
use one_ops_next_gen.Fulfillment.Waves.Final.{execute_plan-Guarded}
use one_ops_next_gen.Fulfillment.Waves.Report.{IsHonest, execute_plan-IsHonest}
use one_ops_next_gen.Scenarios.Fixtures.{
  a_task, grant_access, mail_user, two_tasks, gate, db_of, breaks_off, env,
}

abbrev db : Db
db = db_of two_tasks

two_tasks-HasKeys : HasKeys two_tasks
two_tasks-HasKeys t u mt mu et ei = elim (Memᴰ-cons mt) [
  | inl a ↦ elim (Memᴰ-cons mu) [
    | inl b ↦ a ∙ sym b
    | inr n ↦ elim (Memᴰ-cons n) [
      | inl b ↦ cc (
          (eq_iff "T1" "T2").1
            (sym (ap (λ (x : Task). x.task_id) a) ∙ ei ∙ ap (λ (x : Task). x.task_id) b))
      | inr m ↦ elim m [ ]
    ]
  ]
  | inr n ↦ elim (Memᴰ-cons n) [
    | inl a ↦ elim (Memᴰ-cons mu) [
      | inl b ↦ cc (
          (eq_iff "T2" "T1").1
            (sym (ap (λ (x : Task). x.task_id) a) ∙ ei ∙ ap (λ (x : Task). x.task_id) b))
      | inr m ↦ elim (Memᴰ-cons m) [ inl b ↦ a ∙ sym b | inr o ↦ elim o [ ] ]
    ]
    | inr m ↦ elim m [ ]
  ]
]

execute_plan-Guarded_example : Guarded "acme" db (execute_plan env true "acme" "RITM1" db).0
execute_plan-Guarded_example = execute_plan-Guarded env true "acme" "RITM1" db two_tasks-HasKeys

execute_plan-IsHonest_example : IsHonest "acme" "RITM1" (execute_plan env true "acme" "RITM1" db)
execute_plan-IsHonest_example = execute_plan-IsHonest env true "acme" "RITM1" db

is_terminal_outcome_example :
    let states = TaskState.done ∷ TaskState.failed ∷ [] in
    (((is_terminal states).1 ≡ RitmOutcome.running) ↔ (any is_in_flight states ≡ true))
    × (((is_terminal states).1 ≡ RitmOutcome.fulfilled)
        ↔ ((any is_in_flight states ≡ false) × (all is_settled states ≡ true)))
    × (((is_terminal states).1 ≡ RitmOutcome.partial) ↔ (
        (any is_in_flight states ≡ false)
        × (any is_done states ≡ true)
        × (any is_failed states ≡ true)))
    × ((is_terminal states).1 ≢ RitmOutcome.blocked)
is_terminal_outcome_example = is_terminal_outcome (TaskState.done ∷ TaskState.failed ∷ [])

is_terminal-parked_example :
    (is_terminal (TaskState.done ∷ TaskState.blocked ∷ []) ≡ (true, RitmOutcome.failed))
    × (any is_failed (TaskState.done ∷ TaskState.blocked ∷ []) ≡ false)
is_terminal-parked_example =
    is_terminal-parked (TaskState.done ∷ TaskState.blocked ∷ []) refl (Memᴰ.tail (Memᴰ.head refl))

-- The first task has failed.
abbrev broken : List Task
broken = a_task "T1" (some "grant_access") [] [] TaskState.failed ∷ mail_user ∷ []

transitively_blocked_task_ids_lem_example :
    (l : List (String × TaskState × ℕ)) × (transitively_blocked_task_ids broken ≡ some l)
    × IsCascade broken (failed_templates broken) l
transitively_blocked_task_ids_lem_example = transitively_blocked_task_ids_lem broken

poisoned_templates-iff-Poisoned_example :
    (p : List String) × (poisoned_templates broken ("T1" ∷ []) ≡ some p)
    × ((x : String) → (contains x p ≡ true) ↔ Poisoned broken ("T1" ∷ []) x)
poisoned_templates-iff-Poisoned_example = poisoned_templates-iff-Poisoned broken ("T1" ∷ [])

-- The first task is done, so that the second is ready.
abbrev half_done : List Task
half_done = a_task "T1" (some "grant_access") [] [] TaskState.done ∷ mail_user ∷ []

half_done_ready : Memᴰ "T2" (ready_task_ids half_done)
unfolding ready_task_ids is_ready deps_ok lookup by_template insert
half_done_ready = Memᴰ.head refl

only_dep : (dep : String) → Memᴰ dep ("T1" ∷ []) → dep ≡ "T1"
only_dep dep m = elim (Memᴰ-cons m) [ inl e ↦ e | inr n ↦ elim n [ ] ]

row_settled :
    (u : Task) → Memᴰ u half_done → Memᴰ u.template_task_id ("T1" ∷ []) → is_settled u.state ≡ true
row_settled u m d = elim (Memᴰ-cons m) [
  | inl e ↦ ap (λ (x : Task). is_settled x.state) e
  | inr n ↦ elim (Memᴰ-cons n) [
    | inl e ↦ cc (
        (eq_iff "T2" "T1").1
          (sym (ap (λ (x : Task). x.template_task_id) e) ∙ only_dep u.template_task_id d))
    | inr o ↦ elim o [ ]
  ]
]

ready_task_ids_sound_example :
    (t : Task) × Memᴰ t half_done
    × (t.task_id ≡ "T2")
    × (is_waiting t.state ≡ true)
    × ((dep : String) → Memᴰ dep t.depends_on → IsSettledDep half_done dep)
ready_task_ids_sound_example = ready_task_ids_sound half_done "T2" half_done_ready

ready_task_ids_complete_example : Memᴰ "T2" (ready_task_ids half_done)
ready_task_ids_complete_example =
    ready_task_ids_complete half_done mail_user (Memᴰ.tail (Memᴰ.head refl)) refl
      (λ dep m. (
        a_task "T1" (some "grant_access") [] [] TaskState.done,
        Memᴰ.head refl,
        sym (only_dep dep m),
      ))
      row_settled

-- Two workers claim the first task.
transition_task_state_race_example :
    let db' =
      (transition_task_state "acme" "T1" TaskState.pending TaskState.in_progress 1 no_change
        db).0 in
    let (db'', found) =
      transition_task_state "acme" "T1" TaskState.pending TaskState.in_progress 1 no_change db' in
    (found ≡ none) × (db''.tasks ≡ db'.tasks)
transition_task_state_race_example =
    transition_task_state_race "acme" "T1" TaskState.pending TaskState.in_progress
      TaskState.in_progress 1 no_change no_change db

transition_task_state_independent_example :
    let db' =
      (transition_task_state "acme" "T1" TaskState.pending TaskState.in_progress 1 no_change
        db).0 in
    (transition_task_state "acme" "T2" TaskState.pending TaskState.skipped 1 no_change db').1
    ≡ (transition_task_state "acme" "T2" TaskState.pending TaskState.skipped 1 no_change db).1
transition_task_state_independent_example =
    transition_task_state_independent "acme" "T1" "acme" "T2" TaskState.pending
      TaskState.in_progress TaskState.pending TaskState.skipped 1 1 no_change no_change db
      (inr (λ e. cc ((eq_iff "T1" "T2").1 e)))

transition_task_state_isolated_example :
    list_tasks_for_ritm "globex" "RITM1"
      (transition_task_state "acme" "T1" TaskState.pending TaskState.in_progress 1 no_change db).0
    ≡ list_tasks_for_ritm "globex" "RITM1" db
transition_task_state_isolated_example =
    transition_task_state_isolated "acme" "T1" "globex" "RITM1" TaskState.pending
      TaskState.in_progress 1 no_change db (λ e. cc ((eq_iff "acme" "globex").1 e))

-- The first task, once it is claimed.
abbrev claimed_access : Task
claimed_access = record grant_access { state = TaskState.in_progress; version = 2 }

settle_verdict_example :
    IsSettled grant_access 2 breaks_off
      (db_of (claimed_access ∷ mail_user ∷ []))
      (settle grant_access 2 breaks_off (db_of (claimed_access ∷ mail_user ∷ [])))
settle_verdict_example =
    settle_verdict grant_access 2 breaks_off (db_of (claimed_access ∷ mail_user ∷ []))

gate_claimed : (claim_task gate (db_of (gate ∷ []))).1 ≡ some 2
unfolding claim_task transition_task_state
gate_claimed = refl

approval_gate_default_type_example :
    (execute_one_task env gate (db_of (gate ∷ []))
      ≡ ((claim_task gate (db_of (gate ∷ []))).0, none))
    × ((execute_one_task env gate (db_of (gate ∷ []))).0.approvals ≡ [])
unfolding lookup
approval_gate_default_type_example =
    approval_gate_default_type env gate (db_of (gate ∷ [])) refl refl gate_claimed
