-- ===== src/Fulfillment/Db.antt =====
-- The persistence of the fulfilment use case: src/oneops/use_cases/uc08_fulfillment/db.py. A table
-- is a list of rows; each statement is a function on the database, run at a time of its own.
pub mod Moved
pub mod Locking
pub mod Listing
pub mod Approvals
pub mod Rows
use one_ops_next_gen.Prelude.{
  ℕ, suc, ◌+◌, String, Bool, true, false, not, ◌&&◌, ◌||◌, List, [], ◌∷◌, ◌++◌, map, Option, none,
  some, filter, leb, ltb, eqb, contains, if◌then◌else◌, ◌==◌,
}
use one_ops_next_gen.Fulfillment.Contracts.{
  Json, Task, TaskState, Ritm, RitmState, Approval, ApprovalState, ApprovalGateState, task_state_eq,
  ritm_state_eq,
}
use one_ops_next_gen.Fulfillment.Plan.{RitmOutcome}

-- A row of itsm.fulfillment_run.
pub record Run : Type 0 where
  pub tenant_id : String
  pub run_id : String
  pub ritm_id : String
  pub started_at : ℕ
  pub finished_at : Option ℕ
  pub outcome : Option RitmOutcome

-- A row of itsm.request, as far as the approval gate writes it.
pub record Request : Type 0 where
  pub tenant_id : String
  pub request_id : String
  pub status : String
  pub stage : String

-- `now_at n` is the value of `now()` in the n-th statement, whatever the server's clock says.
pub record Db : Type 0 where
  pub tasks : List Task
  pub ritms : List Ritm
  pub approvals : List Approval
  pub runs : List Run
  pub requests : List Request
  pub now_at : ℕ → ℕ
  pub statement : ℕ

abbrev pub now : Db → ℕ
now db = db.now_at db.statement

-- SQL's COALESCE of a parameter and a column.
abbrev pub coalesce {ℓ} : {A : Type ℓ} → Option A → Option A → Option A
coalesce none old = old
coalesce (some a) old = some a

abbrev pub coalesce_or {ℓ} : {A : Type ℓ} → Option A → A → A
coalesce_or none old = old
coalesce_or (some a) old = a

-- The optional parameters of `transition_task_state`.
pub record Change : Type 0 where
  pub output_payload : Option Json
  pub error_message : Option String
  pub error_code : Option String
  pub retry_count : Option ℕ

abbrev pub no_change : Change
no_change = record {
  output_payload = none;
  error_message = none;
  error_code = none;
  retry_count = none;
}

abbrev is_finished : TaskState → Bool
is_finished TaskState.done = true
is_finished TaskState.failed = true
is_finished TaskState.skipped = true
is_finished _ = false

abbrev is_none {ℓ} : {A : Type ℓ} → Option A → Bool
is_none none = true
is_none (some _) = false

-- WHERE tenant_id = $1 AND task_id = $2 AND state = $3 AND version = $9
unfoldable pub is_claimed : String → String → TaskState → ℕ → Task → Bool
is_claimed tenant_id task_id from_state version t =
    t.tenant_id == tenant_id
    && (t.task_id == task_id && (task_state_eq t.state from_state && eqb t.version version))

-- The SET clause.
unfoldable pub moved_task : ℕ → TaskState → Change → Task → Task
unfolding task_state_eq
moved_task at to_state change t = record t {
  state = to_state;
  output_payload = coalesce change.output_payload t.output_payload;
  error_message = coalesce change.error_message t.error_message;
  error_code = coalesce change.error_code t.error_code;
  retry_count = coalesce_or change.retry_count t.retry_count;
  started_at =
      if task_state_eq to_state TaskState.in_progress && is_none t.started_at
      then some at
      else t.started_at;
  finished_at = if is_finished to_state then some at else t.finished_at;
  ready_at =
      if task_state_eq to_state TaskState.ready && is_none t.ready_at then some at else t.ready_at;
  updated_at = at;
  version = t.version + 1;
}

-- UPDATE over the rows that pass the test, RETURNING the new version of the first.
unfoldable pub update_tasks : (Task → Bool) → (Task → Task) → List Task → List Task × Option ℕ
update_tasks test set [] = ([], none)
update_tasks test set (t ∷ ts) =
    let (rest, found) = update_tasks test set ts in
    if test t then (set t ∷ rest, some (set t).version) else (t ∷ rest, found)

unfoldable pub transition_task_state :
    String → String → TaskState → TaskState → ℕ → Change → Db → Db × Option ℕ
unfolding update_tasks is_claimed moved_task
transition_task_state tenant_id task_id from_state to_state version change db =
    let (rows, found) =
      update_tasks (is_claimed tenant_id task_id from_state version)
        (moved_task (now db) to_state change) db.tasks in
    (record db { tasks = rows; statement = suc db.statement }, found)

-- ORDER BY updated_at DESC; rows of one time keep the order of the table.
insert_freshest : Task → List Task → List Task
insert_freshest t [] = t ∷ []
insert_freshest t (u ∷ us) =
    let rest = insert_freshest t us in
    if ltb t.updated_at u.updated_at then u ∷ rest else t ∷ u ∷ us

unfoldable pub order_freshest : List Task → List Task
unfolding insert_freshest
order_freshest [] = []
order_freshest (t ∷ ts) = insert_freshest t (order_freshest ts)

unfoldable pub is_of_ritm : String → String → Task → Bool
is_of_ritm tenant_id ritm_id t = t.tenant_id == tenant_id && t.ritm_id == ritm_id

unfoldable pub list_tasks_for_ritm : String → String → Db → List Task
unfolding order_freshest is_of_ritm
list_tasks_for_ritm tenant_id ritm_id db =
    order_freshest (filter (is_of_ritm tenant_id ritm_id) db.tasks)

unfoldable pub is_ritm : String → String → Ritm → Bool
is_ritm tenant_id ritm_id r = r.tenant_id == tenant_id && r.ritm_id == ritm_id

unfoldable pub find_ritm : (Ritm → Bool) → List Ritm → Option Ritm
find_ritm test [] = none
find_ritm test (r ∷ rs) = if test r then some r else find_ritm test rs

unfoldable pub get_ritm : String → String → Db → Option Ritm
unfolding find_ritm is_ritm
get_ritm tenant_id ritm_id db = find_ritm (is_ritm tenant_id ritm_id) db.ritms

abbrev is_closed : RitmState → Bool
is_closed RitmState.cancelled = true
is_closed RitmState.rejected = true
is_closed RitmState.fulfilled = true
is_closed _ = false

-- The SET clause of `transition_ritm_state`.
unfoldable pub moved_ritm : ℕ → RitmState → Option ℕ → Option ℕ → Ritm → Ritm
unfolding ritm_state_eq
moved_ritm at to_state completed_tasks failed_tasks r = record r {
  state = to_state;
  completed_tasks = coalesce_or completed_tasks r.completed_tasks;
  failed_tasks = coalesce_or failed_tasks r.failed_tasks;
  started_at =
      if ritm_state_eq to_state RitmState.in_progress && is_none r.started_at
      then some at
      else r.started_at;
  fulfilled_at = if ritm_state_eq to_state RitmState.fulfilled then some at else r.fulfilled_at;
  closed_at = if is_closed to_state then some at else r.closed_at;
  updated_at = at;
  version = r.version + 1;
}

unfoldable pub update_ritms : (Ritm → Bool) → (Ritm → Ritm) → List Ritm → List Ritm × Option Ritm
update_ritms test set [] = ([], none)
update_ritms test set (r ∷ rs) =
    let (rest, found) = update_ritms test set rs in
    if test r then (set r ∷ rest, some (set r)) else (r ∷ rest, found)

unfoldable pub transition_ritm_state :
    String → String → RitmState → RitmState → ℕ → Option ℕ → Option ℕ → Db → Db
unfolding update_ritms is_ritm moved_ritm
transition_ritm_state tenant_id ritm_id from_state to_state version completed failed db =
    record db {
      ritms =
          (update_ritms
            (λ r.
              is_ritm tenant_id ritm_id r
              && (ritm_state_eq r.state from_state && eqb r.version version))
            (moved_ritm (now db) to_state completed failed) db.ritms).0;
      statement = suc db.statement;
    }

-- The CHECK constraint on itsm.approval.approval_type
-- (database/catalog_fulfillment/03_fulfillment.sql).
abbrev pub approval_types : List String
approval_types = "substitution" ∷ "budget" ∷ "manager" ∷ "security" ∷ "catalog_owner" ∷ []

-- `none` is the error that the constraint raises; `fresh` is the new `APP` id.
unfoldable pub insert_approval :
    String → String → String → Option String → String → String → String → Db → Option Db
insert_approval fresh tenant_id ritm_id task_id approval_type reason requested_from db =
    if contains approval_type approval_types
    then some (record db {
      approvals =
          db.approvals
          ++ record {
            tenant_id = tenant_id;
            approval_id = fresh;
            ritm_id = ritm_id;
            task_id = task_id;
            approval_type = approval_type;
            reason = reason;
            requested_from = requested_from;
            state = ApprovalState.pending;
            decision = none;
            decided_by = none;
            decision_comment = none;
            decided_at = none;
            version = 1;
          }
            ∷ [];
      statement = suc db.statement;
    })
    else none

-- SELECT run_id … ORDER BY started_at DESC LIMIT 1
newer : Run → Option Run → Option Run
newer r none = some r
newer r (some other) = if ltb r.started_at other.started_at then some other else some r

unfoldable pub latest_run : String → String → List Run → Option Run
unfolding newer
latest_run tenant_id ritm_id [] = none
latest_run tenant_id ritm_id (r ∷ rs) =
    let rest = latest_run tenant_id ritm_id rs in
    if r.tenant_id == tenant_id && r.ritm_id == ritm_id then newer r rest else rest

finished_run : String → String → RitmOutcome → ℕ → Run → Run
finished_run tenant_id run_id outcome at r =
    if r.tenant_id == tenant_id && r.run_id == run_id
    then record r { outcome = some outcome; finished_at = some at }
    else r

unfoldable pub finalise_run : String → String → RitmOutcome → Db → Db
unfolding finished_run
finalise_run tenant_id run_id outcome db = record db {
  runs = map (finished_run tenant_id run_id outcome (now db)) db.runs;
  statement = suc db.statement;
}
