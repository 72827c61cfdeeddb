-- ===== src/Scenarios/PlanRuns.antt =====
-- An agent that needs another, selected together with a third.
use one_ops_next_gen.Prelude.{
  any, if_ind, insert, map, Option, none, ℕ, ◌<◌, String, true, List, [], ◌∷◌, some, Dict, lookup,
  contains, Memᴰ, Memᴰ-cons, if◌then◌else◌, ◌==◌, Bool-cases, ◌≡◌, inl, inr, refl, sym, subst,
  arith,
}
use one_ops_next_gen.Router.Exclusions.{Agent, apply_exclusions}
use one_ops_next_gen.Router.Plan.{
  expand_with_deps, visit, visit_all, visit_next, visit_new, append_visited, ordered_of,
}
use one_ops_next_gen.Router.Plan.Order.{IsOrdered}
use one_ops_next_gen.Router.Subqueries.{RouteBinding, SubQueryRoute, topo_subqueries, route_of}
use one_ops_next_gen.Router.Assembly.{
  PlanStep, carries, assemble_plan, add_routes, add_route, build_route_steps, local_ids, dep_ids,
  upstream_of, resolve_route_bindings,
}
use one_ops_next_gen.Router.Assembly.Built.{IsNumberedFrom}
use one_ops_next_gen.Router.Subqueries.Ends.{IsForward}
use one_ops_next_gen.Router.Assembly.Forward.{IsRegistered, assemble_plan-IsNumberedFrom}
use one_ops_next_gen.Router.Plan.Expand.{IsAcyclic, IsKnown, expand_with_deps-IsOrdered}

abbrev needing : List String → Agent
needing ids = record { excludes = []; depends_on = ids }

abbrev agents : Dict Agent
agents = ("triage", needing ("context" ∷ [])) ∷ ("context", needing []) ∷ []

abbrev rank : String → ℕ
rank a = if "triage" == a then 1 else 0

acyclic : IsAcyclic agents rank
unfolding IsAcyclic IsKnown lookup
acyclic a agent found d m = elim (Bool-cases ("triage" == a)) [
  | inl e ↦
      let same : needing ("context" ∷ []) ≡ agent = cc (rw (lookup, e) at found) in
      elim (Memᴰ-cons (subst (λ (x : Agent). Memᴰ d x.depends_on) (sym same) m)) [
        | inl is_context ↦ rw (is_context, e) ((needing [], refl), omega arith)
        | inr n ↦ elim n [ ]
      ]
  | inr e ↦ elim (Bool-cases ("context" == a)) [
    | inl f ↦
        let same : needing [] ≡ agent = cc (rw (lookup, e, f) at found) in
        elim (subst (λ (x : Agent). Memᴰ d x.depends_on) (sym same) m) [ ]
    | inr f ↦ cc (rw (lookup, e, f) at found)
  ]
]

selected : (a : String) → Memᴰ a ("triage" ∷ []) → IsKnown agents a × (rank a < 2)
unfolding IsKnown lookup
selected a m = elim (Memᴰ-cons m) [
  | inl is_triage ↦ rw is_triage ((needing ("context" ∷ []), refl), omega arith)
  | inr n ↦ elim n [ ]
]

needed_by_triage : expand_with_deps 2 agents ("triage" ∷ []) ≡ some ("context" ∷ "triage" ∷ [])
unfolding expand_with_deps visit visit_all visit_next visit_new append_visited ordered_of lookup
needed_by_triage = refl

expand_with_deps-IsOrdered_example :
    (needed : List String) × (expand_with_deps 2 agents ("triage" ∷ []) ≡ some needed)
    × IsOrdered agents needed
    × ((a : String) → Memᴰ a ("triage" ∷ []) → contains a needed ≡ true)
expand_with_deps-IsOrdered_example =
    expand_with_deps-IsOrdered agents rank ("triage" ∷ []) 2 acyclic selected

abbrev route : String → String → List String → List RouteBinding → SubQueryRoute
route id agent deps bindings = record {
  sub_query_id = id;
  agent_ids = agent ∷ [];
  depends_on_subqueries = deps;
  bindings = bindings;
}

-- The second sub-query, which is listed first, waits for the first and takes a field of its answer.
abbrev routes : List SubQueryRoute
routes =
    route "sq2" "triage" ("sq1" ∷ [])
      (record { from_sq = "sq1"; from_field = "id"; to_param = "incident" } ∷ [])
    ∷ route "sq1" "context" [] []
    ∷ []

abbrev sq_rank : String → ℕ
sq_rank id = if "sq2" == id then 1 else 0

forward : IsForward routes sq_rank
unfolding IsForward
forward r m d n = elim (Memᴰ-cons m) [
  | inl first ↦
      let deps : Memᴰ d ("sq1" ∷ []) =
        subst (λ (x : SubQueryRoute). Memᴰ d x.depends_on_subqueries) first n in
      elim (Memᴰ-cons deps) [
        | inl is_sq1 ↦ rw (first, is_sq1) (omega arith)
        | inr no_more ↦ elim no_more [ ]
      ]
  | inr m' ↦ elim (Memᴰ-cons m') [
    | inl second ↦ elim (subst (λ (x : SubQueryRoute). Memᴰ d x.depends_on_subqueries) second n) [ ]
    | inr no_more ↦ elim no_more [ ]
  ]
]

low_rank : (a : String) → IsKnown agents a → rank a < 2
low_rank a known = if_ind (λ k. k < 2) ("triage" == a) (omega arith) (omega arith)

triage_known : IsKnown agents "triage"
unfolding IsKnown lookup
triage_known = (needing ("context" ∷ []), refl)

context_known : IsKnown agents "context"
unfolding IsKnown lookup
context_known = (needing [], refl)

registered :
    (r : SubQueryRoute) → Memᴰ r routes → (sq_rank r.sub_query_id < 2) × IsRegistered agents r
unfolding IsRegistered
registered r m = elim (Memᴰ-cons m) [
  | inl first ↦ rw first (
    omega arith,
    λ a n. elim (Memᴰ-cons n) [ inl e ↦ rw e triage_known | inr no_more ↦ elim no_more [ ] ],
  )
  | inr m' ↦ elim (Memᴰ-cons m') [
    | inl second ↦ rw second (
      omega arith,
      λ a n. elim (Memᴰ-cons n) [ inl e ↦ rw e context_known | inr no_more ↦ elim no_more [ ] ],
    )
    | inr no_more ↦ elim no_more [ ]
  ]
]

routed : any carries routes ≡ true
unfolding carries
routed = refl

assemble_plan-IsNumberedFrom_example :
    (steps : List PlanStep) × (assemble_plan 2 agents routes ≡ some steps) × IsNumberedFrom 0 steps
assemble_plan-IsNumberedFrom_example =
    assemble_plan-IsNumberedFrom agents rank sq_rank 2 routes acyclic low_rank routed forward
      registered

waits_of : Option (List PlanStep) → List (List ℕ)
waits_of none = []
waits_of (some steps) = map (λ (s : PlanStep). s.depends_on) steps

-- The context is asked twice; the second time, and the triage, wait for the first sub-query.
waits : waits_of (assemble_plan 2 agents routes) ≡ [] ∷ (1 ∷ []) ∷ (2 ∷ 1 ∷ []) ∷ []
unfolding waits_of assemble_plan topo_subqueries visit_all route_of add_routes add_route
    apply_exclusions lookup expand_with_deps build_route_steps local_ids insert dep_ids upstream_of
    resolve_route_bindings
waits = refl
