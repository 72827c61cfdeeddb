-- ===== src/Router/Conditions.antt =====
-- Activation conditions: `ActivationCondition` of src/oneops/registry/models.py, the signals of
-- src/oneops/router/signals.py, and `evaluate` of src/oneops/router/conditions.py.
pub mod Groups
pub mod Knowledge
use one_ops_next_gen.Prelude.{
  ℕ, String, Bool, true, false, not, ◌&&◌, ◌||◌, List, [], ◌∷◌, map, Option, none, some, any,
  filter, contains, if◌then◌else◌, ◌==◌,
}

-- `Ternary`
pub data Ternary : Type 0 where
  pass : Ternary
  fail : Ternary
  indeterminate : Ternary

-- `ConditionSignal`
pub data ConditionSignal : Type 0 where
  intent_in : ConditionSignal
  entity_present : ConditionSignal
  entity_service_in : ConditionSignal
  focus_required : ConditionSignal
  tenant_capability : ConditionSignal
  role_in : ConditionSignal

-- `ActivationCondition`, as `_check_shape` lets it through: a leaf has a signal and no clauses, a
-- group has clauses and no signal.
mutual
  pub data Condition : Type 0 where
    leaf : (signal : ConditionSignal) (values : List String) (negate : Bool) → Condition
    all_of : (negate : Bool) (clauses : Clauses) → Condition
    any_of : (negate : Bool) (clauses : Clauses) → Condition

  pub data Clauses : Type 0 where
    no_more : Clauses
    clause : Condition → Clauses → Clauses

-- `RequestSignals`; sets are lists.
pub record RequestSignals : Type 0 where
  pub role : String
  pub tenant_id : String
  pub present_entities : List (String × String)
  pub tenant_capabilities : List String
  pub has_active_focus : Bool
  pub intents : Option (List String)

unfoldable pub is_filled : String → Bool
is_filled s = not (s == "")

service : String × String → String
service (entity, svc) = svc

-- `entity_services`
unfoldable pub entity_services : RequestSignals → List String
unfolding is_filled service
entity_services signals = filter is_filled (map service signals.present_entities)

-- `has_entity`
unfoldable pub has_entity : RequestSignals → Bool
has_entity signals = some_entity signals.present_entities
  where
    some_entity : List (String × String) → Bool
    some_entity [] = false
    some_entity (e ∷ es) = true

unfoldable pub with_intents : RequestSignals → List String → RequestSignals
with_intents signals intents = record signals { intents = some intents }

unfoldable pub flip : Ternary → Ternary
flip Ternary.pass = Ternary.fail
flip Ternary.fail = Ternary.pass
flip Ternary.indeterminate = Ternary.indeterminate

unfoldable pub of_bool : Bool → Ternary
of_bool passed = if passed then Ternary.pass else Ternary.fail

-- bool(xs & ys)
unfoldable pub meets : List String → List String → Bool
meets xs ys = any (λ x. contains x ys) xs

intent_verdict : List String → Option (List String) → Ternary
unfolding of_bool meets
intent_verdict values none = Ternary.indeterminate
intent_verdict values (some intents) = of_bool (meets intents values)

-- The leaf's verdict before `negate`.
unfoldable pub eval_signal : ConditionSignal → List String → RequestSignals → Ternary
unfolding intent_verdict of_bool meets has_entity entity_services
eval_signal ConditionSignal.intent_in values signals = intent_verdict values signals.intents
eval_signal ConditionSignal.entity_present values signals = of_bool (has_entity signals)
eval_signal ConditionSignal.entity_service_in values signals =
    of_bool (meets (entity_services signals) values)
eval_signal ConditionSignal.focus_required values signals = of_bool signals.has_active_focus
eval_signal ConditionSignal.tenant_capability values signals =
    of_bool (meets signals.tenant_capabilities values)
eval_signal ConditionSignal.role_in values signals = of_bool (contains signals.role values)

unfoldable pub eval_leaf : ConditionSignal → List String → Bool → RequestSignals → Ternary
unfolding eval_signal flip
eval_leaf signal values negate signals =
    let result = eval_signal signal values signals in if negate then flip result else result

unfoldable pub is_pass : Ternary → Bool
is_pass Ternary.pass = true
is_pass _ = false

unfoldable pub is_fail : Ternary → Bool
is_fail Ternary.fail = true
is_fail _ = false

unfoldable pub is_indeterminate : Ternary → Bool
is_indeterminate Ternary.indeterminate = true
is_indeterminate _ = false

unfoldable pub all_verdict : List Ternary → Ternary
unfolding is_fail is_indeterminate
all_verdict results =
    if any is_fail results
    then Ternary.fail
    else if any is_indeterminate results
    then Ternary.indeterminate
    else Ternary.pass

unfoldable pub any_verdict : List Ternary → Ternary
unfolding is_pass is_indeterminate
any_verdict results =
    if any is_pass results
    then Ternary.pass
    else if any is_indeterminate results
    then Ternary.indeterminate
    else Ternary.fail

unfoldable mutual
  unfolding eval_leaf all_verdict any_verdict

  pub evaluate : Condition → RequestSignals → Ternary
  evaluate (Condition.leaf signal values negate) signals = eval_leaf signal values negate signals
  evaluate (Condition.all_of negate clauses) signals = all_verdict (evaluate_all clauses signals)
  evaluate (Condition.any_of negate clauses) signals = any_verdict (evaluate_all clauses signals)

  pub evaluate_all : Clauses → RequestSignals → List Ternary
  evaluate_all Clauses.no_more signals = []
  evaluate_all (Clauses.clause c clauses) signals =
      evaluate c signals ∷ evaluate_all clauses signals

unfoldable pub survives_filter : Condition → RequestSignals → Bool
unfolding evaluate is_fail
survives_filter c signals = not (is_fail (evaluate c signals))
