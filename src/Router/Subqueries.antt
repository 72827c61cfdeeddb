-- ===== src/Router/Subqueries.antt =====
-- `SubQueryRoute` and `_topo_subqueries` of src/oneops/router/plan.py. `none` is the ValueError of a
-- cycle, or the recursion limit.
pub mod Ends
use one_ops_next_gen.Prelude.{
  ℕ, zero, suc, String, Bool, true, false, not, ◌&&◌, List, [], ◌∷◌, ◌++◌, map, Option, none, some,
  Dict, lookup, insert, contains, filter, any, eqb, if◌then◌else◌, ◌==◌,
}
use one_ops_next_gen.Router.Plan.{visit_all}

pub record RouteBinding : Type 0 where
  pub from_sq : String
  pub from_field : String
  pub to_param : String

pub record SubQueryRoute : Type 0 where
  pub sub_query_id : String
  pub agent_ids : List String
  pub depends_on_subqueries : List String
  pub bindings : List RouteBinding

-- {r.sub_query_id: r for r in routes}: the last of an id stands.
unfoldable pub route_of : String → List SubQueryRoute → Option SubQueryRoute
route_of sq_id [] = none
route_of sq_id (r ∷ rs) = elim (route_of sq_id rs) [
  | some later ↦ some later
  | none ↦ if r.sub_query_id == sq_id then some r else none
]

pub record Order : Type 0 where
  pub visited : List String
  pub active : List String
  pub ordered : List SubQueryRoute

leave_route : String → SubQueryRoute → Option Order → Option Order
leave_route sq_id route none = none
leave_route sq_id route (some o) = some (record {
  visited = sq_id ∷ o.visited;
  active = filter (λ a. not (a == sq_id)) o.active;
  ordered = o.ordered ++ (route ∷ []);
})

enter_route : (String → Order → Option Order) → String → Order → Option SubQueryRoute → Option Order
unfolding leave_route
enter_route visit sq_id o none = some o
enter_route visit sq_id o (some route) =
    let left =
      leave_route sq_id route
        (visit_all visit route.depends_on_subqueries (record o { active = sq_id ∷ o.active })) in
    if contains sq_id o.active then none else left

unfoldable pub visit_route : ℕ → List SubQueryRoute → String → Order → Option Order
unfolding enter_route
visit_route zero routes sq_id o = none
visit_route (suc fuel) routes sq_id o =
    let entered = enter_route (visit_route fuel routes) sq_id o (route_of sq_id routes) in
    if contains sq_id o.visited then some o else entered

routes_of : Option Order → Option (List SubQueryRoute)
routes_of none = none
routes_of (some o) = some o.ordered

unfoldable pub topo_subqueries : ℕ → List SubQueryRoute → Option (List SubQueryRoute)
unfolding visit_route routes_of
topo_subqueries fuel routes = routes_of (
    visit_all (visit_route fuel routes) (map (λ (r : SubQueryRoute). r.sub_query_id) routes)
      (record { visited = []; active = []; ordered = [] }))
