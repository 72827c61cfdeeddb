-- ===== src/Registry/Store/Lifecycle.antt =====
-- Whole histories of the store of src/oneops/registry/store.py.
use one_ops_next_gen.Prelude.{
  String, Bool, List, [], ◌∷◌, some, lookup, insert, ◌≡◌, inl, inr, subst, lookup-insert_cases,
  lookup-erase_cases,
}
use one_ops_next_gen.Registry.{RegistryRecord, Envelope}
use one_ops_next_gen.Registry.Store.{Backend}
use one_ops_next_gen.Registry.Store.Moves.{Op, IsDraftOp, step, IsStep, step-IsStep}
use one_ops_next_gen.Registry.Store.Invariant.{IsWellFormed}
use one_ops_next_gen.Registry.Store.Moved.{begun-IsWellFormed, move-IsWellFormed}

unfoldable pub run_calls : (RegistryRecord → Bool) → List Op → Backend → Backend
run_calls model_validate [] b = b
run_calls model_validate (op ∷ ops) b = run_calls model_validate ops (step model_validate op b)

unfoldable pub IsDrafted : List Op → Type 0
IsDrafted [] = Unit
IsDrafted (op ∷ ops) = IsDraftOp op × IsDrafted ops

IsSound : Backend → Type 0
IsSound b =
    (record_id : String) (env : Envelope)
    → lookup record_id b ≡ some env
    → IsWellFormed record_id env

-- What an envelope of another id meets, and what a new one does.
insert-IsSound :
    (j : String) (after : Envelope) (b : Backend)
    → IsWellFormed j after
    → IsSound b
    → IsSound (insert j after b)
unfolding IsSound
insert-IsSound j after b w s record_id env h = elim (lookup-insert_cases j record_id after b h) [
  | inl (same, e) ↦ subst (λ (x : String × Envelope). IsWellFormed x.0 x.1) (λ i. (same i, e i)) w
  | inr old ↦ s record_id env old
]

step-IsSound :
    (op : Op) (b : Backend) {after : Backend} → IsStep b op after → IsSound b → IsSound after
unfolding IsSound
step-IsSound op b (IsStep.stays _) s = s
step-IsSound op b (IsStep.begins r new first d) s =
    insert-IsSound r.id _ b (begun-IsWellFormed r first d) s
step-IsSound op b (IsStep.moves _ j env after found m) s =
    insert-IsSound j after b (move-IsWellFormed j env m (s j env found)) s
step-IsSound op b (IsStep.ends j) s =
    λ record_id env h. s record_id env (lookup-erase_cases j record_id b h)

steps-IsSound :
    (model_validate : RegistryRecord → Bool) (ops : List Op) (b : Backend)
    → IsDrafted ops
    → IsSound b
    → IsSound (run_calls model_validate ops b)
unfolding run_calls IsDrafted
steps-IsSound model_validate [] b d s = s
steps-IsSound model_validate (op ∷ ops) b (d, ds) s =
    steps-IsSound model_validate ops (step model_validate op b) ds
      (step-IsSound op b (step-IsStep model_validate op b d) s)

-- Whatever calls are made on an empty store, as long as records are submitted as drafts, in every
-- envelope each version stands under its own number and id, no version but the active one is
-- ACTIVE, and the active one exists and is ACTIVE or DEPRECATED.
pub run_calls-IsWellFormed :
    (model_validate : RegistryRecord → Bool) (ops : List Op) (record_id : String) (env : Envelope)
    → IsDrafted ops
    → lookup record_id (run_calls model_validate ops []) ≡ some env
    → IsWellFormed record_id env
unfolding IsSound lookup
run_calls-IsWellFormed model_validate ops record_id env d h =
    steps-IsSound model_validate ops [] d (λ j e found. cc) record_id env h
