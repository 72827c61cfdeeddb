-- ===== src/Fulfillment/Compensation/Outcomes.antt =====
-- What `_compensate_one_task` of executor.py owes to one task, told without its code.
use one_ops_next_gen.Prelude.{
  String, Bool, true, false, List, [], ◌∷◌, Option, none, some, ◌≡◌, ◌≢◌, refl, sym, ap, ◌∙◌, inl,
  inr, Memᴰ, Bool-cases, Dict, lookup, Rows,
}
use one_ops_next_gen.Fulfillment.Contracts.{Json, Fields, Task}
use one_ops_next_gen.Fulfillment.Executor.{Env, IdempotencyKey, Reply}
use one_ops_next_gen.Fulfillment.Compensation.{
  Undoing, compensate_one_task, with_undoing, compensate_each, Binding, undo_by, undo_by_handle,
  undo_bound, undo_tool, get_field, field_of, output_of, call_undo, handle_of, is_truthy,
  compensation_registry, was_called,
}

-- An adapter's method.
abbrev Method : Type 0
Method = String → IdempotencyKey → Dict Json → Reply

-- The task's tool has a compensating tool in the registry.
unfoldable pub IsBound : Task → Binding → Type 0
IsBound t b =
    (tool_id : String) × (t.tool_id ≡ some tool_id)
    × (lookup tool_id compensation_registry ≡ some b)

-- The id of what the task has made: a value that is true for Python, under the binding's field.
unfoldable pub IsHandle : Task → Binding → Json → Type 0
IsHandle t b id =
    (fields : Fields) × (output_of t.output_payload ≡ Json.object fields)
    × (field_of b.id_source fields ≡ some id)
    × (is_truthy id ≡ true)

-- How a call of the compensating tool went: as the adapter says, and badly if it raises.
unfoldable pub IsReplied : Reply → Bool → Type 0
IsReplied (Reply.answers seconds response) ok = ok ≡ response.success
IsReplied Reply.raises_timeout ok = ok ≡ false
IsReplied Reply.raises ok = ok ≡ false

-- What is to become of a task: nothing where its tool has no compensating tool; an error where the
-- adapter has no such method, or the task has left no id; otherwise a call of that method with that
-- id, for the task's tenant and under the key of this compensation.
pub data IsUndoing (env : Env) (t : Task) : Undoing → Type 0 where
  nothing : ((b : Binding) → ¬ IsBound t b) → IsUndoing env t Undoing.skipped_no_op
  no_method :
      (b : Binding)
      → IsBound t b
      → env.adapter b.tool ≡ none
      → IsUndoing env t (Undoing.missing_method b.tool)
  no_handle :
      (b : Binding) (method : Method)
      → IsBound t b
      → env.adapter b.tool ≡ some method
      → ((id : Json) → ¬ IsHandle t b id)
      → IsUndoing env t (Undoing.missing_handle b.tool b.id_source)
  undone :
      (b : Binding) (method : Method) (id : Json) (ok : Bool)
      → IsBound t b
      → env.adapter b.tool ≡ some method
      → IsHandle t b id
      → IsReplied
          (method t.tenant_id
            (IdempotencyKey.compensate t.ritm_id t.task_id)
            ((b.id_kwarg, id) ∷ []))
          ok
      → IsUndoing env t (Undoing.called b.tool ok)

-- The task's output is no bare text, which has no fields to ask for.
unfoldable pub HasFields : Task → Type 0
HasFields t = (s : String) → output_of t.output_payload ≢ Json.text s

-- One entry of the results.
unfoldable pub IsEntry : Env → Task → String × Undoing → Type 0
IsEntry env t (id, u) = (id ≡ t.task_id) × IsUndoing env t u

-- A handle is the value under the field, and that value is true.
IsHandle-field :
    (t : Task) (b : Binding) (fields : Fields) (id : Json)
    → output_of t.output_payload ≡ Json.object fields
    → IsHandle t b id
    → (field_of b.id_source fields ≡ some id) × (is_truthy id ≡ true)
unfolding IsHandle
IsHandle-field t b fields id o (fs, o', e, full) =
    let same : fs ≡ fields = cc (sym o' ∙ o) in (sym (ap (field_of b.id_source) same) ∙ e, full)

Undoes : Env → Task → Option Undoing → Type 0
Undoes env t o = (u : Undoing) × (o ≡ some u) × IsUndoing env t u

module _ (env : Env) (t : Task) (b : Binding) (bound : IsBound t b) (method : Method)
    (found : env.adapter b.tool ≡ some method) where
  undo_call :
      (id : Json)
      → IsHandle t b id
      → (reply : Reply)
      → method t.tenant_id (IdempotencyKey.compensate t.ritm_id t.task_id) ((b.id_kwarg, id) ∷ [])
        ≡ reply
      → IsUndoing env t (was_called b.tool reply)
  unfolding was_called IsReplied
  undo_call id h (Reply.answers seconds response) e =
      IsUndoing.undone b method id response.success bound found h (rw e refl)
  undo_call id h Reply.raises_timeout e =
      IsUndoing.undone b method id false bound found h (rw e refl)
  undo_call id h Reply.raises e = IsUndoing.undone b method id false bound found h (rw e refl)

  -- With the value that stands under the field.
  undo_value :
      (fields : Fields) (value : Option Json)
      → output_of t.output_payload ≡ Json.object fields
      → field_of b.id_source fields ≡ value
      → IsUndoing env t (call_undo b t method (handle_of value))
  unfolding call_undo handle_of IsHandle
  undo_value fields none o e =
      IsUndoing.no_handle b method bound found
        (λ id k. cc (e, (IsHandle-field t b fields id o k).0))
  undo_value fields (some id) o e = elim (Bool-cases (is_truthy id)) [
    | inl full ↦ rw full (undo_call id (fields, o, e, full) _ refl)
    | inr empty ↦ rw empty (
        IsUndoing.no_handle b method bound found (λ id' k.
          let (named, full) = IsHandle-field t b fields id' o k in
          let same : id ≡ id' = cc (sym e ∙ named) in cc (sym empty ∙ ap is_truthy same ∙ full)))
  ]

  undo_output :
      HasFields t
      → (j : Json) → output_of t.output_payload ≡ j
      → Undoes env t (undo_by_handle b t method (get_field b.id_source j))
  unfolding undo_by_handle get_field HasFields Undoes IsHandle
  undo_output h Json.null o =
      (_, refl, IsUndoing.no_handle b method bound found (λ id (fs, o', e', n). cc))
  undo_output h (Json.text s) o = absurd (h s o)
  undo_output h (Json.object fields) o =
      (_, refl, undo_value fields (field_of b.id_source fields) o refl)

compensate_one_task-Undoes :
    (env : Env) (t : Task) → HasFields t → Undoes env t (compensate_one_task env t)
unfolding compensate_one_task undo_tool undo_bound undo_by Undoes IsBound
compensate_one_task-Undoes env t h = by_tool t.tool_id refl
  where
    by_method :
        (b : Binding) (o : Option Method)
        → IsBound t b
        → env.adapter b.tool ≡ o
        → Undoes env t (undo_by b t o)
    by_method b none bound e = (_, refl, IsUndoing.no_method b bound e)
    by_method b (some method) bound e =
        undo_output env t b bound method e h (output_of t.output_payload) refl

    by_binding :
        (tool_id : String) (o : Option Binding)
        → t.tool_id ≡ some tool_id
        → lookup tool_id compensation_registry ≡ o
        → Undoes env t (undo_bound env t o)
    by_binding tool_id none named e = (
      _,
      refl,
      IsUndoing.nothing (λ b (id, named', e').
          let same : tool_id ≡ id = cc (sym named ∙ named') in
          cc (sym e ∙ ap (λ x. lookup x compensation_registry) same ∙ e')),
    )
    by_binding tool_id (some b) named e = by_method b (env.adapter b.tool) (tool_id, named, e) refl

    by_tool : (o : Option String) → t.tool_id ≡ o → Undoes env t (undo_tool env t o)
    by_tool none named = (_, refl, IsUndoing.nothing (λ b (id, named', e'). cc))
    by_tool (some tool_id) named =
        by_binding tool_id (lookup tool_id compensation_registry) named refl

-- Each task of a list gets its entry.
pub compensate_each-Rows :
    (env : Env) (ts : List Task)
    → ((t : Task) → Memᴰ t ts → HasFields t)
    → (results : List (String × Undoing)) × (compensate_each env ts ≡ some results)
      × Rows (IsEntry env) ts results
unfolding compensate_each with_undoing Undoes IsEntry
compensate_each-Rows env [] h = ([], refl, Rows.nil)
compensate_each-Rows env (t ∷ ts) h =
    let (u, e, fits) = compensate_one_task-Undoes env t (h t (Memᴰ.head refl)) in
    let (rest, e', all_fit) = compensate_each-Rows env ts (λ x m. h x (Memᴰ.tail m)) in
    ((t.task_id, u) ∷ rest, rw (e, e') refl, Rows.cons (refl, fits) all_fit)
