-- ===== src/Router/Exclusions.antt =====
-- `_apply_exclusions` of src/oneops/router/plan.py, with `ExclusionRef` and what it reads of the
-- agents in the registry.
pub mod Survivors
use one_ops_next_gen.Prelude.{
  ℕ, suc, String, Bool, true, false, not, List, [], ◌∷◌, ◌++◌, Option, none, some, Dict, lookup,
  leb, if◌then◌else◌, contains, filter, ◌==◌,
}

-- `ExclusionRef`
pub record ExclusionRef : Type 0 where
  pub agent_id : String
  pub priority : ℕ

-- The part of an `AgentRecord` that the assembly of a plan reads.
pub record Agent : Type 0 where
  pub excludes : List ExclusionRef
  pub depends_on : List String

-- One more than the priority at which the agent excludes the other, 0 standing for the -1 of an
-- agent that does not.
unfoldable pub back_priority : String → List ExclusionRef → ℕ
back_priority agent_id [] = 0
back_priority agent_id (e ∷ es) =
    let rest = back_priority agent_id es in if e.agent_id == agent_id then suc e.priority else rest

-- Higher priority keeps; the agent whose exclusion is looked at keeps a tie.
unfoldable pub loser : String → ExclusionRef → Agent → String
unfolding back_priority
loser agent_id exc other =
    if leb (back_priority agent_id other.excludes) (suc exc.priority)
    then exc.agent_id
    else agent_id

-- With the agents dropped by the later exclusions. `none` is the registry's error on an unknown id.
unfoldable pub drop_one :
    String → ExclusionRef → Option Agent → Option (List String) → Option (List String)
unfolding loser
drop_one agent_id exc (some other) (some later) = some (loser agent_id exc other ∷ later)
drop_one agent_id exc none later = none
drop_one agent_id exc (some other) none = none

unfoldable pub dropped_by :
    Dict Agent → List String → String → List ExclusionRef → Option (List String)
unfolding drop_one
dropped_by agents selected agent_id [] = some []
dropped_by agents selected agent_id (exc ∷ excludes) =
    let later = dropped_by agents selected agent_id excludes in
    if contains exc.agent_id selected
    then drop_one agent_id exc (lookup exc.agent_id agents) later
    else later

unfoldable pub both : Option (List String) → Option (List String) → Option (List String)
both (some xs) (some ys) = some (xs ++ ys)
both none ys = none
both (some xs) none = none

unfoldable pub dropped_of : Dict Agent → List String → String → Option Agent → Option (List String)
unfolding dropped_by
dropped_of agents selected agent_id none = none
dropped_of agents selected agent_id (some agent) =
    dropped_by agents selected agent_id agent.excludes

-- The agents that the loop drops.
unfoldable pub dropped : Dict Agent → List String → List String → Option (List String)
unfolding dropped_of both
dropped agents selected [] = some []
dropped agents selected (agent_id ∷ ids) =
    both (dropped_of agents selected agent_id (lookup agent_id agents))
      (dropped agents selected ids)

unfoldable pub keep : List String → Option (List String) → Option (List String)
keep ids none = none
keep ids (some lost) = some (filter (λ a. not (contains a lost)) ids)

unfoldable pub apply_exclusions : Dict Agent → List String → Option (List String)
unfolding dropped keep
apply_exclusions agents agent_ids = keep agent_ids (dropped agents agent_ids agent_ids)
