-- ===== src/Router/Assembly.antt =====
-- `assemble_plan` of src/oneops/router/plan.py and what it calls. A step id "step_k" is the number
-- k. `none` is an exception: the registry's error on an unknown id, a KeyError, the ValueError of a
-- cycle or of an empty plan, or the recursion limit. The parameters of the agents, which are copied
-- into the steps, are left out.
pub mod Built
pub mod Earlier
pub mod Forward
use one_ops_next_gen.Prelude.{
  ℕ, zero, suc, String, Bool, true, false, not, ◌&&◌, List, [], ◌∷◌, ◌++◌, map, Option, none, some,
  Dict, lookup, insert, contains, filter, any, eqb, if◌then◌else◌, ◌==◌,
}
use one_ops_next_gen.Router.Exclusions.{Agent, apply_exclusions}
use one_ops_next_gen.Router.Plan.{expand_with_deps}
use one_ops_next_gen.Router.Subqueries.{RouteBinding, SubQueryRoute, topo_subqueries}

-- A binding of a step is never required.
pub record ParameterBinding : Type 0 where
  pub from_step : ℕ
  pub from_field : String
  pub to_param : String

pub record PlanStep : Type 0 where
  pub step_id : ℕ
  pub agent_id : String
  pub depends_on : List ℕ
  pub parameter_bindings : List ParameterBinding
  pub dependency_types : List (ℕ × String)

-- dict.get(k, [])
abbrev pub steps_of : String → Dict (List ℕ) → List ℕ
steps_of sq_id by_subquery = elim (lookup sq_id by_subquery) [ none ↦ [] | some ids ↦ ids ]

unfoldable pub upstream_of : Dict (List ℕ) → List String → List ℕ
upstream_of by_subquery [] = []
upstream_of by_subquery (sq_id ∷ rest) = steps_of sq_id by_subquery ++ upstream_of by_subquery rest

-- The ids of the needed agents, counted on from n.
unfoldable pub local_ids : ℕ → Dict ℕ → List String → Dict ℕ
local_ids n ids [] = ids
local_ids n ids (a ∷ rest) = local_ids (suc n) (insert a (suc n) ids) rest

abbrev pub last_of {ℓ} : {A : Type ℓ} → List A → Option A
last_of [] = none
last_of (x ∷ []) = some x
last_of (x ∷ y ∷ rest) = last_of (y ∷ rest)

bound_to : RouteBinding → Option ℕ → List ParameterBinding → List ParameterBinding
bound_to b none rest = rest
bound_to b (some from_step) rest =
    record { from_step = from_step; from_field = b.from_field; to_param = b.to_param } ∷ rest

unfoldable pub resolve_route_bindings : Dict (List ℕ) → List RouteBinding → List ParameterBinding
unfolding bound_to
resolve_route_bindings by_subquery [] = []
resolve_route_bindings by_subquery (b ∷ bs) =
    bound_to b (last_of (steps_of b.from_sq by_subquery)) (resolve_route_bindings by_subquery bs)

also {ℓ} : {A : Type ℓ} → Option A → Option (List A) → Option (List A)
also (some x) (some xs) = some (x ∷ xs)
also none xs = none
also (some x) none = none

-- [local_step_id[d] for d in agent.depends_on]
unfoldable pub dep_ids : Dict ℕ → List String → Option (List ℕ)
unfolding also
dep_ids ids [] = some []
dep_ids ids (d ∷ ds) = also (lookup d ids) (dep_ids ids ds)

is_agent : String → Option String → Bool
is_agent a none = false
is_agent a (some b) = a == b

-- The dependencies with the sources of the bindings that are not among them.
unfoldable pub with_sources : List ParameterBinding → List ℕ → List ℕ
with_sources bindings deps =
    deps
    ++ filter (λ d. not (any (λ e. eqb e d) deps))
        (map (λ (b : ParameterBinding). b.from_step) bindings)

step_for :
    List ℕ
    → Option String
    → List ParameterBinding
    → String
    → Option ℕ
    → Option (List ℕ)
    → Option PlanStep
unfolding is_agent with_sources
step_for upstream primary bindings a none deps = none
step_for upstream primary bindings a (some id) none = none
step_for upstream primary bindings a (some id) (some deps) =
    let is_primary = is_agent a primary in
    some (record {
      step_id = id;
      agent_id = a;
      depends_on =
          if is_primary then with_sources bindings (deps ++ upstream) else deps ++ upstream;
      parameter_bindings = if is_primary then bindings else [];
      dependency_types =
          if is_primary then map (λ (b : ParameterBinding). (b.from_step, "soft")) bindings else [];
    })

step_of_agent :
    Dict ℕ
    → List ℕ
    → Option String
    → List ParameterBinding
    → String
    → Option Agent
    → Option PlanStep
unfolding step_for
step_of_agent ids upstream primary bindings a none = none
step_of_agent ids upstream primary bindings a (some agent) =
    step_for upstream primary bindings a (lookup a ids) (dep_ids ids agent.depends_on)

unfoldable pub build_route_steps :
    Dict Agent
    → Dict ℕ
    → List ℕ
    → Option String
    → List ParameterBinding
    → List String
    → Option (List PlanStep)
unfolding step_of_agent also
build_route_steps agents ids upstream primary bindings [] = some []
build_route_steps agents ids upstream primary bindings (a ∷ rest) =
    also (step_of_agent ids upstream primary bindings a (lookup a agents))
      (build_route_steps agents ids upstream primary bindings rest)

-- What the loop of `assemble_plan` writes.
pub record Assembly : Type 0 where
  pub counter : ℕ
  pub steps : List PlanStep
  pub by_subquery : Dict (List ℕ)

abbrev pub count_on : ℕ → List String → ℕ
count_on n [] = n
count_on n (a ∷ rest) = count_on (suc n) rest

add_steps : SubQueryRoute → List String → Assembly → Option (List PlanStep) → Option Assembly
add_steps route needed s none = none
add_steps route needed s (some steps) = some (record {
  counter = count_on s.counter needed;
  steps = s.steps ++ steps;
  by_subquery =
      insert route.sub_query_id (map (λ (e : String × ℕ). e.1) (local_ids s.counter [] needed))
        s.by_subquery;
})

add_needed : Dict Agent → SubQueryRoute → Assembly → Option (List String) → Option Assembly
unfolding add_steps
add_needed agents route s none = none
add_needed agents route s (some needed) = add_steps route needed s (
    build_route_steps agents (local_ids s.counter [] needed)
      (upstream_of s.by_subquery route.depends_on_subqueries) (last_of needed)
      (resolve_route_bindings s.by_subquery route.bindings) needed)

expand_surviving : ℕ → Dict Agent → Option (List String) → Option (List String)
expand_surviving fuel agents none = none
expand_surviving fuel agents (some surviving) = expand_with_deps fuel agents surviving

unfoldable pub add_route : ℕ → Dict Agent → SubQueryRoute → Assembly → Option Assembly
unfolding add_needed expand_surviving
add_route fuel agents route s =
    add_needed agents route s
      (expand_surviving fuel agents (apply_exclusions agents route.agent_ids))

add_next : (Assembly → Option Assembly) → Option Assembly → Option Assembly
add_next rest none = none
add_next rest (some s) = rest s

unfoldable pub add_routes : ℕ → Dict Agent → List SubQueryRoute → Assembly → Option Assembly
unfolding add_next
add_routes fuel agents [] s = some s
add_routes fuel agents (r ∷ rs) s = add_next (add_routes fuel agents rs) (add_route fuel agents r s)

plan_of : Option Assembly → Option (List PlanStep)
plan_of none = none
plan_of (some s) = some s.steps

assemble_ordered : ℕ → Dict Agent → Option (List SubQueryRoute) → Option (List PlanStep)
unfolding plan_of
assemble_ordered fuel agents none = none
assemble_ordered fuel agents (some routes) =
    plan_of (add_routes fuel agents routes (record { counter = 0; steps = []; by_subquery = [] }))

unfoldable pub carries : SubQueryRoute → Bool
carries r = elim r.agent_ids [ [] ↦ false | _ ∷ _ ↦ true ]

assemble_carried : ℕ → Dict Agent → List SubQueryRoute → Option (List PlanStep)
unfolding assemble_ordered
assemble_carried fuel agents [] = none
assemble_carried fuel agents (r ∷ rs) = assemble_ordered fuel agents (topo_subqueries fuel (r ∷ rs))

unfoldable pub assemble_plan : ℕ → Dict Agent → List SubQueryRoute → Option (List PlanStep)
unfolding assemble_carried carries
assemble_plan fuel agents routes = assemble_carried fuel agents (filter carries routes)
