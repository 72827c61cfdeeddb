-- ===== src/Router/Plan.antt =====
-- `_expand_with_deps` of src/oneops/router/plan.py. The recursion of its `visit` is on fuel; `none`
-- is the registry's error on an unknown id, or the recursion limit.
pub mod Order
pub mod Expand
use one_ops_next_gen.Prelude.{
  ℕ, zero, suc, String, Bool, true, false, List, [], ◌∷◌, ◌++◌, Option, none, some, Dict, lookup,
  contains, if◌then◌else◌,
}
use one_ops_next_gen.Router.Exclusions.{Agent}

-- What the closure `visit` writes.
pub record Walk : Type 0 where
  pub seen : List String
  pub ordered : List String

unfoldable pub visit_next {ℓ} : {W : Type ℓ} → (W → Option W) → Option W → Option W
visit_next visit none = none
visit_next visit (some w) = visit w

unfoldable pub visit_all {ℓ} : {W : Type ℓ} → (String → W → Option W) → List String → W → Option W
unfolding visit_next
visit_all visit [] w = some w
visit_all visit (d ∷ ds) w = visit_next (visit_all visit ds) (visit d w)

unfoldable pub append_visited : String → Option Walk → Option Walk
append_visited agent_id none = none
append_visited agent_id (some w) = some (record w { ordered = w.ordered ++ (agent_id ∷ []) })

unfoldable pub visit_new :
    (String → Walk → Option Walk) → String → Walk → Option Agent → Option Walk
unfolding visit_all append_visited
visit_new visit agent_id w none = none
visit_new visit agent_id w (some agent) =
    append_visited agent_id
      (visit_all visit agent.depends_on (record w { seen = agent_id ∷ w.seen }))

unfoldable pub visit : ℕ → Dict Agent → String → Walk → Option Walk
unfolding visit_new
visit zero agents agent_id w = none
visit (suc fuel) agents agent_id w =
    let new = visit_new (visit fuel agents) agent_id w (lookup agent_id agents) in
    if contains agent_id w.seen then some w else new

unfoldable pub ordered_of : Option Walk → Option (List String)
ordered_of none = none
ordered_of (some w) = some w.ordered

unfoldable pub expand_with_deps : ℕ → Dict Agent → List String → Option (List String)
unfolding visit visit_all ordered_of
expand_with_deps fuel agents agent_ids =
    ordered_of (visit_all (visit fuel agents) agent_ids (record { seen = []; ordered = [] }))
