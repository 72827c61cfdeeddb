-- ===== src/Fulfillment/Plan.antt =====
-- The plan inspection helpers of src/oneops/use_cases/uc08_fulfillment/executor.py: which tasks of
-- a request item are ready, which are poisoned by a failure, and whether the item is finished.
pub mod Ready
pub mod Poison
pub mod Terminal
pub mod Cascade
use one_ops_next_gen.Prelude.{
  ℕ, zero, suc, ◌+◌, String, Bool, true, false, not, ◌&&◌, ◌||◌, List, [], ◌∷◌, ◌++◌, map, Option,
  none, some, Dict, lookup, insert, length, any, all, filter, contains, if◌then◌else◌,
}
use one_ops_next_gen.Fulfillment.Contracts.{Task, TaskState, task_state_eq}

-- t["state"] in ("pending", "ready")
abbrev pub is_waiting : TaskState → Bool
is_waiting TaskState.pending = true
is_waiting TaskState.ready = true
is_waiting _ = false

-- state in ("done", "skipped")
abbrev pub is_settled : TaskState → Bool
is_settled TaskState.done = true
is_settled TaskState.skipped = true
is_settled _ = false

-- state in ("pending", "ready", "in_progress")
abbrev pub is_in_flight : TaskState → Bool
is_in_flight TaskState.in_progress = true
is_in_flight s = is_waiting s

-- state in ("blocked", "done", "skipped")
abbrev pub is_blocked_or_settled : TaskState → Bool
is_blocked_or_settled TaskState.blocked = true
is_blocked_or_settled s = is_settled s

abbrev pub is_done : TaskState → Bool
is_done TaskState.done = true
is_done _ = false

abbrev pub is_failed : TaskState → Bool
is_failed TaskState.failed = true
is_failed _ = false

-- {t["template_task_id"]: t for t in tasks}: a later row replaces an earlier one.
by_template_onto : Dict Task → List Task → Dict Task
by_template_onto d [] = d
by_template_onto d (t ∷ ts) = by_template_onto (insert t.template_task_id t d) ts

unfoldable pub by_template : List Task → Dict Task
unfolding by_template_onto
by_template = by_template_onto []

settled_row : Option Task → Bool
settled_row none = false
settled_row (some row) = is_settled row.state

unfoldable pub deps_ok : Dict Task → Task → Bool
unfolding settled_row
deps_ok by_tmpl t = all (λ dep. settled_row (lookup dep by_tmpl)) t.depends_on

unfoldable pub is_ready : Dict Task → Task → Bool
is_ready by_tmpl t = is_waiting t.state && deps_ok by_tmpl t

unfoldable pub ready_task_ids : List Task → List String
ready_task_ids tasks = map (λ t. t.task_id) (filter (is_ready (by_template tasks)) tasks)

-- One pass of the `for` loop of `_poisoned_templates` over the rows: the set, and `changed`.
unfoldable pub poison_pass : List Task → List String → Bool → List String × Bool
poison_pass [] poisoned changed = (poisoned, changed)
poison_pass (t ∷ ts) poisoned changed =
    let fresh =
      not (contains t.template_task_id poisoned)
      && any (λ dep. contains dep poisoned) t.depends_on in
    poison_pass ts (if fresh then t.template_task_id ∷ poisoned else poisoned) (fresh || changed)

-- The `while changed` loop; `none` means that the fuel ran out.
unfoldable pub poison_loop : ℕ → List Task → List String → Option (List String)
unfolding poison_pass
poison_loop zero tasks poisoned = none
poison_loop (suc fuel) tasks poisoned =
    let (poisoned', changed) = poison_pass tasks poisoned false in
    let rest = poison_loop fuel tasks poisoned' in if changed then rest else some poisoned'

unfoldable pub poisoned_templates : List Task → List String → Option (List String)
unfolding poison_loop
poisoned_templates tasks seed = poison_loop (suc (length tasks)) tasks seed

unfoldable pub failed_templates : List Task → List String
failed_templates tasks = map (λ t. t.template_task_id) (filter (λ t. is_failed t.state) tasks)

-- (task_id, state, version) of each waiting row below a failure.
skips : List Task → Option (List String) → Option (List (String × TaskState × ℕ))
skips tasks none = none
skips tasks (some poisoned) = some (
    map (λ t. (t.task_id, t.state, t.version))
      (filter (λ t. is_waiting t.state && contains t.template_task_id poisoned) tasks))

-- The test `if not failed_tmpl` before the loop.
skips_below : List Task → List String → Option (List (String × TaskState × ℕ))
unfolding skips poisoned_templates
skips_below tasks [] = some []
skips_below tasks (x ∷ xs) = skips tasks (poisoned_templates tasks (x ∷ xs))

unfoldable pub transitively_blocked_task_ids : List Task → Option (List (String × TaskState × ℕ))
unfolding skips_below failed_templates
transitively_blocked_task_ids tasks = skips_below tasks (failed_templates tasks)

-- The second part of `_is_terminal`'s answer; `running` is the empty text.
pub data RitmOutcome : Type 0 where
  fulfilled partial failed blocked running : RitmOutcome

unfoldable pub is_terminal : List TaskState → Bool × RitmOutcome
is_terminal states =
    if any is_in_flight states
    then (if all is_blocked_or_settled states then (true, blocked) else (false, running))
    else if all is_settled states
    then (true, fulfilled)
    else if any is_done states && any is_failed states
    then (true, partial)
    else (true, failed)

unfoldable pub states_of : List Task → List TaskState
states_of = map (λ t. t.state)

unfoldable pub count_state : TaskState → List Task → ℕ
unfolding task_state_eq
count_state s tasks = length (filter (λ t. task_state_eq t.state s) tasks)
