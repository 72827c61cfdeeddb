-- ===== src/Scenarios/RoutingRuns.antt =====
-- Runs of the activation conditions and of the exclusions.
use one_ops_next_gen.Prelude.{
  ℕ, String, true, false, List, [], ◌∷◌, none, some, ◌≡◌, refl, lookup, Memᴰ, Dict,
}
use one_ops_next_gen.Router.Conditions.{
  Ternary, ConditionSignal, Condition, Clauses, RequestSignals, with_intents, evaluate,
  survives_filter,
}
use one_ops_next_gen.Router.Conditions.Knowledge.{survives_filter_any_intents}
use one_ops_next_gen.Router.Exclusions.{ExclusionRef, Agent, apply_exclusions, back_priority}
use one_ops_next_gen.Router.Exclusions.Survivors.{apply_exclusions_agree, apply_exclusions_tie}

abbrev signals : RequestSignals
signals = record {
  role = "agent";
  tenant_id = "acme";
  present_entities = ("INC1", "incident") ∷ [];
  tenant_capabilities = [];
  has_active_focus = false;
  intents = none;
}

abbrev clauses : Clauses
clauses = Clauses.clause (Condition.leaf ConditionSignal.entity_present [] false) (
    Clauses.clause (Condition.leaf ConditionSignal.intent_in ("summarize" ∷ []) false)
      Clauses.no_more)

survives_filter_any_intents_example :
    (survives_filter (Condition.all_of false clauses) signals ≡ false
      → survives_filter (Condition.all_of false clauses) (with_intents signals ("summarize" ∷ []))
        ≡ false)
    × (evaluate (Condition.all_of false clauses) (with_intents signals ("summarize" ∷ []))
          ≡ Ternary.pass
        → survives_filter (Condition.all_of false clauses) signals ≡ true)
survives_filter_any_intents_example =
    survives_filter_any_intents (Condition.all_of false clauses) signals ("summarize" ∷ []) refl

abbrev excludes : String → ℕ → ExclusionRef
excludes agent_id priority = record { agent_id = agent_id; priority = priority }

abbrev agent_of : List ExclusionRef → Agent
agent_of refs = record { excludes = refs; depends_on = [] }

-- The triage agent outranks the summary agent; the two search agents tie.
abbrev agents : Dict Agent
agents =
    ("triage", agent_of (excludes "summary" 9 ∷ []))
    ∷ ("summary", agent_of (excludes "triage" 1 ∷ []))
    ∷ ("search", agent_of (excludes "lookup" 5 ∷ []))
    ∷ ("lookup", agent_of (excludes "search" 5 ∷ []))
    ∷ []

triage_kept : apply_exclusions agents ("summary" ∷ "triage" ∷ []) ≡ some ("triage" ∷ [])
unfolding apply_exclusions lookup
triage_kept = refl

apply_exclusions_agree_example :
    Memᴰ {A = String} "triage" ("summary" ∷ "triage" ∷ [])
    × ¬ (Memᴰ {A = String} "summary" ("triage" ∷ []))
unfolding lookup
apply_exclusions_agree_example =
    apply_exclusions_agree agents ("summary" ∷ "triage" ∷ []) ("triage" ∷ []) triage_kept "triage"
      (agent_of (excludes "summary" 9 ∷ [])) (excludes "summary" 9) (Memᴰ.head refl) refl
      (Memᴰ.head refl)

both_lost : apply_exclusions agents ("search" ∷ "lookup" ∷ []) ≡ some []
unfolding apply_exclusions lookup
both_lost = refl

apply_exclusions_tie_example : ¬ (Memᴰ {A = String} "search" []) × ¬ (Memᴰ {A = String} "lookup" [])
unfolding lookup back_priority
apply_exclusions_tie_example =
    apply_exclusions_tie agents ("search" ∷ "lookup" ∷ []) [] both_lost "search" "lookup"
      (agent_of (excludes "lookup" 5 ∷ [])) (agent_of (excludes "search" 5 ∷ []))
      (excludes "lookup" 5) (excludes "search" 5) (Memᴰ.head refl) (Memᴰ.tail (Memᴰ.head refl)) refl
      refl (Memᴰ.head refl) (Memᴰ.head refl) refl refl refl refl
