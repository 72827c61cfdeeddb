-- ===== src/Router/Conditions/Knowledge.antt =====
-- What a condition may say before the intent is classified.
use one_ops_next_gen.Prelude.{
  String, Bool, true, false, List, [], ◌∷◌, none, any, ◌≡◌, refl, ap, ◌∙◌, ◌⊎◌, inl, inr,
  Bool-cases, arith,
}
use one_ops_next_gen.Router.Conditions.{
  Ternary, ConditionSignal, Condition, Clauses, RequestSignals, with_intents, flip, eval_signal,
  eval_leaf, all_verdict, any_verdict, evaluate, evaluate_all, survives_filter, is_fail, is_pass,
  is_indeterminate, intent_verdict,
}

-- The second verdict knows at least what the first knows.
unfoldable pub Refines : Ternary → Ternary → Type 0
Refines before after = (before ≡ Ternary.indeterminate) ⊎ (before ≡ after)

-- Verdict by verdict.
data AllRefine : List Ternary → List Ternary → Type 0 where
  nil : AllRefine [] []
  cons :
      {x y : Ternary} {xs ys : List Ternary}
      → Refines x y
      → AllRefine xs ys
      → AllRefine (x ∷ xs) (y ∷ ys)

flip-Refines : (x y : Ternary) → Refines x y → Refines (flip x) (flip y)
unfolding Refines flip
flip-Refines x y (inl e) = inl (ap flip e)
flip-Refines x y (inr e) = inr (ap flip e)

eval_signal-Refines :
    (signal : ConditionSignal) (values : List String) (signals : RequestSignals)
    (intents : List String)
    → signals.intents ≡ none
    → Refines
        (eval_signal signal values signals)
        (eval_signal signal values (with_intents signals intents))
unfolding eval_signal Refines with_intents
eval_signal-Refines ConditionSignal.intent_in values signals intents h =
    inl (ap (intent_verdict values) h)
eval_signal-Refines ConditionSignal.entity_present values signals intents h = inr refl
eval_signal-Refines ConditionSignal.entity_service_in values signals intents h = inr refl
eval_signal-Refines ConditionSignal.focus_required values signals intents h = inr refl
eval_signal-Refines ConditionSignal.tenant_capability values signals intents h = inr refl
eval_signal-Refines ConditionSignal.role_in values signals intents h = inr refl

eval_leaf-Refines :
    (signal : ConditionSignal) (values : List String) (negate : Bool) (signals : RequestSignals)
    (intents : List String)
    → signals.intents ≡ none
    → Refines
        (eval_leaf signal values negate signals)
        (eval_leaf signal values negate (with_intents signals intents))
unfolding eval_leaf
eval_leaf-Refines signal values true signals intents h =
    flip-Refines _ _ (eval_signal-Refines signal values signals intents h)
eval_leaf-Refines signal values false signals intents h =
    eval_signal-Refines signal values signals intents h

-- A verdict that some members have is one that the better known members have too.
any-AllRefine :
    (p : Ternary → Bool)
    → p Ternary.indeterminate ≡ false
    → {xs ys : List Ternary} → AllRefine xs ys
    → any p xs ≡ true
    → any p ys ≡ true
unfolding Refines
any-AllRefine p unsure AllRefine.nil h = h
any-AllRefine p unsure (AllRefine.cons {x} {y} {xs} {ys} r rs) h = elim (Bool-cases (any p xs)) [
  | inl later ↦ ground (arith, any-AllRefine p unsure rs later)
  | inr here ↦
      let q : p x ≡ true = ground arith in
      elim r [ inl unknown ↦ cc (ap p unknown) | inr same ↦ ground (arith, ap p same) ]
]

AllRefine-eq : {xs ys : List Ternary} → AllRefine xs ys → any is_indeterminate xs ≡ false → xs ≡ ys
unfolding is_indeterminate Refines
AllRefine-eq AllRefine.nil h = refl
AllRefine-eq (AllRefine.cons {x} {y} {xs} {ys} r rs) h =
    let later = AllRefine-eq rs (ground arith) in
    elim r [
      | inl unknown ↦ absurd (ground (arith, ap is_indeterminate unknown))
      | inr same ↦ rw (same, later)
    ]

all_verdict-Refines :
    {xs ys : List Ternary} → AllRefine xs ys → Refines (all_verdict xs) (all_verdict ys)
unfolding all_verdict Refines is_fail
all_verdict-Refines {xs} {ys} rs = elim (Bool-cases (any is_indeterminate xs)) [
  | inr known ↦ inr (ap all_verdict (AllRefine-eq rs known))
  | inl unknown ↦ elim (Bool-cases (any is_fail xs)) [
    | inl fails ↦ inr (rw (fails, any-AllRefine is_fail refl rs fails))
    | inr passes ↦ inl (rw (passes, unknown))
  ]
]

any_verdict-Refines :
    {xs ys : List Ternary} → AllRefine xs ys → Refines (any_verdict xs) (any_verdict ys)
unfolding any_verdict Refines is_pass
any_verdict-Refines {xs} {ys} rs = elim (Bool-cases (any is_indeterminate xs)) [
  | inr known ↦ inr (ap any_verdict (AllRefine-eq rs known))
  | inl unknown ↦ elim (Bool-cases (any is_pass xs)) [
    | inl passes ↦ inr (rw (passes, any-AllRefine is_pass refl rs passes))
    | inr fails ↦ inl (rw (fails, unknown))
  ]
]

mutual
  unfolding evaluate

  evaluate-Refines :
      (c : Condition) (signals : RequestSignals) (intents : List String)
      → signals.intents ≡ none
      → Refines (evaluate c signals) (evaluate c (with_intents signals intents))
  evaluate-Refines (Condition.leaf signal values negate) signals intents h =
      eval_leaf-Refines signal values negate signals intents h
  evaluate-Refines (Condition.all_of negate clauses) signals intents h =
      all_verdict-Refines (evaluate_all-Refines clauses signals intents h)
  evaluate-Refines (Condition.any_of negate clauses) signals intents h =
      any_verdict-Refines (evaluate_all-Refines clauses signals intents h)

  evaluate_all-Refines :
      (clauses : Clauses) (signals : RequestSignals) (intents : List String)
      → signals.intents ≡ none
      → AllRefine
          (evaluate_all clauses signals)
          (evaluate_all clauses (with_intents signals intents))
  evaluate_all-Refines Clauses.no_more signals intents h = AllRefine.nil
  evaluate_all-Refines (Clauses.clause c clauses) signals intents h =
      AllRefine.cons (evaluate-Refines c signals intents h)
        (evaluate_all-Refines clauses signals intents h)

-- The filter before the classification of the intent never drops a candidate wrongly: a condition
-- that fails then fails whatever intents are classified, and a candidate whose condition would pass
-- with some classification survives. No intents are to be known yet.
pub survives_filter_any_intents :
    (c : Condition) (signals : RequestSignals) (intents : List String)
    → signals.intents ≡ none
    → (survives_filter c signals ≡ false → survives_filter c (with_intents signals intents) ≡ false)
      × (evaluate c (with_intents signals intents) ≡ Ternary.pass
          → survives_filter c signals ≡ true)
unfolding survives_filter Refines is_fail
survives_filter_any_intents c signals intents h = elim (evaluate-Refines c signals intents h) [
  | inl unknown ↦
      (λ dropped. cc (rw (unknown, is_fail) at dropped), λ passes. rw (unknown, is_fail))
  | inr same ↦ (λ dropped. rw (← same) dropped, λ passes. rw (same ∙ passes))
]
