-- ===== src/Router/Assembly/Forward.antt =====
-- The whole of `assemble_plan` of src/oneops/router/plan.py.
use one_ops_next_gen.Prelude.{
  ℕ, ◌≤◌, ◌<◌, String, true, List, [], ◌∷◌, ◌++◌, some, Dict, lookup, insert, filter, length-append,
  any, mem-filter, Bool-cases, lookup-insert_cases, Memᴰ, ◌≡◌, inl, inr, refl, subst, arith,
}
use one_ops_next_gen.Router.Exclusions.{Agent, apply_exclusions}
use one_ops_next_gen.Router.Plan.Order.{IsOrdered}
use one_ops_next_gen.Router.Plan.Expand.{IsAcyclic, IsKnown, expand_with_deps-IsOrdered}
use one_ops_next_gen.Router.Subqueries.{SubQueryRoute}
use one_ops_next_gen.Router.Assembly.{
  PlanStep, Assembly, upstream_of, local_ids, last_of, resolve_route_bindings, count_on, add_steps,
  add_needed, expand_surviving, add_route, add_next, add_routes, plan_of, assemble_ordered,
  assemble_carried, carries, assemble_plan,
}
use one_ops_next_gen.Router.Subqueries.Ends.{IsForward, topo_subqueries_total}
use one_ops_next_gen.Router.Assembly.Built.{
  IsWithin, IsWithin-weaken, IsNumberedFrom, IsGiven, build_route_steps_lem,
}
use one_ops_next_gen.Router.Assembly.Earlier.{
  IsCounted, IsFiled, values, IsNumberedFrom-append, nothing-IsWithin, local_ids-IsWithin,
  upstream_of-IsWithin, bindings-IsWithin, apply_exclusions_total,
}

inserted-IsFiled :
    (n m : ℕ) (by_subquery : Dict (List ℕ)) (sq : String) (ids : List ℕ)
    → n ≤ m
    → IsFiled n by_subquery
    → IsWithin m ids
    → IsFiled m (insert sq ids by_subquery)
unfolding IsFiled
inserted-IsFiled n m by_subquery sq ids le filed w other found h =
    elim (lookup-insert_cases sq other ids by_subquery h) [
      | inl (_, e) ↦ subst (IsWithin m) e w
      | inr old ↦ IsWithin-weaken n m found le (filed other found old)
    ]

nothing-IsFiled : IsFiled 0 []
unfolding IsFiled lookup
nothing-IsFiled sq ids h = cc

-- The agents that a route selects are registered.
unfoldable pub IsRegistered : Dict Agent → SubQueryRoute → Type 0
IsRegistered agents route = (a : String) → Memᴰ a route.agent_ids → IsKnown agents a

module _ (agents : Dict Agent) (rank : String → ℕ) (fuel : ℕ) (acyclic : IsAcyclic agents rank)
    (bounded : (a : String) → IsKnown agents a → rank a < fuel) where
  needed-IsOrdered :
      (ids : List String)
      → ((a : String) → Memᴰ a ids → IsKnown agents a)
      → (needed : List String) × (expand_surviving fuel agents (apply_exclusions agents ids)
          ≡ some needed)
        × IsOrdered agents needed
  unfolding expand_surviving
  needed-IsOrdered ids known =
      let (survivors, e, known') = apply_exclusions_total agents ids known in
      let (needed, f, ordered, _) =
        expand_with_deps-IsOrdered agents rank survivors fuel acyclic
          (λ a m. (known' a m, bounded a (known' a m))) in
      (needed, rw (e, expand_surviving) f, ordered)

  add_needed-IsCounted :
      (route : SubQueryRoute) (s : Assembly) (needed : List String)
      → IsOrdered agents needed
      → IsCounted s
      → (after : Assembly) × (add_needed agents route s (some needed) ≡ some after)
        × IsCounted after
  unfolding add_needed add_steps IsCounted IsOrdered IsGiven values
  add_needed-IsCounted route s needed ordered (numbered, total, filed) =
      let n : ℕ = s.counter in
      let up : List ℕ = upstream_of s.by_subquery route.depends_on_subqueries in
      let bs = resolve_route_bindings s.by_subquery route.bindings in
      let (steps, e, more, count) =
        build_route_steps_lem up (last_of needed) bs agents n [] [] needed
          (upstream_of-IsWithin n s.by_subquery route.depends_on_subqueries filed)
          (bindings-IsWithin n s.by_subquery route.bindings filed) ordered (λ d c. cc) in
      let m : ℕ = count_on n needed in
      let added : Assembly = record {
        counter = m;
        steps = s.steps ++ steps;
        by_subquery = insert route.sub_query_id (values (local_ids n [] needed)) s.by_subquery;
      } in
      (
        added,
        rw (e, add_steps) refl,
        (
          IsNumberedFrom-append 0 s.steps steps numbered
              (subst (λ k. IsNumberedFrom k steps) (omega (arith, total)) more),
          omega (arith, count, total, length-append s.steps steps),
          inserted-IsFiled n m s.by_subquery route.sub_query_id (values (local_ids n [] needed))
              (omega (arith, count)) filed (local_ids-IsWithin n [] needed (nothing-IsWithin n)),
        ),
      )

  add_route-IsCounted :
      (route : SubQueryRoute) (s : Assembly)
      → IsRegistered agents route
      → IsCounted s
      → (after : Assembly) × (add_route fuel agents route s ≡ some after) × IsCounted after
  unfolding add_route IsRegistered
  add_route-IsCounted route s known c =
      let (needed, e, ordered) = needed-IsOrdered route.agent_ids known in
      let (after, f, c') = add_needed-IsCounted route s needed ordered c in (after, rw e f, c')

  add_routes-IsCounted :
      (routes : List SubQueryRoute) (s : Assembly)
      → ((r : SubQueryRoute) → Memᴰ r routes → IsRegistered agents r)
      → IsCounted s
      → (after : Assembly) × (add_routes fuel agents routes s ≡ some after) × IsCounted after
  unfolding add_routes add_next
  add_routes-IsCounted [] s known c = (s, refl, c)
  add_routes-IsCounted (r ∷ rs) s known c =
      let (t, e, c') = add_route-IsCounted r s (known r (Memᴰ.head refl)) c in
      let (after, f, c'') = add_routes-IsCounted rs t (λ q m. known q (Memᴰ.tail m)) c' in
      (after, rw (e, add_next) f, c'')

  assemble_ordered_numbered :
      (routes : List SubQueryRoute)
      → ((r : SubQueryRoute) → Memᴰ r routes → IsRegistered agents r)
      → (steps : List PlanStep) × (assemble_ordered fuel agents (some routes) ≡ some steps)
        × IsNumberedFrom 0 steps
  unfolding assemble_ordered plan_of IsCounted IsNumberedFrom
  assemble_ordered_numbered routes known =
      let start : Assembly = record { counter = 0; steps = []; by_subquery = [] } in
      let (t, e, (numbered, _, _)) =
        add_routes-IsCounted routes start known (tt, refl, nothing-IsFiled) in
      (t.steps, rw (e, plan_of) refl, numbered)

  carried_numbered :
      (sq_rank : String → ℕ) (routes : List SubQueryRoute)
      → any carries routes ≡ true
      → IsForward routes sq_rank
      → ((r : SubQueryRoute) → Memᴰ r routes → sq_rank r.sub_query_id < fuel)
      → ((r : SubQueryRoute) → Memᴰ r routes → IsRegistered agents r)
      → (steps : List PlanStep) × (assemble_carried fuel agents routes ≡ some steps)
        × IsNumberedFrom 0 steps
  unfolding assemble_carried
  carried_numbered sq_rank [] some_one forward low known = cc
  carried_numbered sq_rank (r ∷ rs) some_one forward low known =
      let (ordered, e, listed) = topo_subqueries_total (r ∷ rs) sq_rank fuel forward low in
      rw e (assemble_ordered_numbered ordered (λ q m. known q (listed q m)))

carries-filter :
    (routes : List SubQueryRoute)
    → any carries routes ≡ true
    → any carries (filter carries routes) ≡ true
carries-filter [] h = h
carries-filter (r ∷ rs) h = elim (Bool-cases (carries r)) [
  | inl e ↦ rw e (rw e refl)
  | inr e ↦ rw e (carries-filter rs (rw e at h))
]

-- When some route selects an agent, the selected agents and their prerequisites are registered,
-- neither the prerequisites nor the sub-queries form a cycle, and the fuel exceeds their ranks, a
-- plan is assembled; its steps are numbered from 1 on, and every step depends on steps of smaller
-- numbers only.
pub assemble_plan-IsNumberedFrom :
    (agents : Dict Agent) (rank sq_rank : String → ℕ) (fuel : ℕ) (routes : List SubQueryRoute)
    → IsAcyclic agents rank
    → ((a : String) → IsKnown agents a → rank a < fuel)
    → any carries routes ≡ true
    → IsForward routes sq_rank
    → ((r : SubQueryRoute)
        → Memᴰ r routes
        → (sq_rank r.sub_query_id < fuel) × IsRegistered agents r)
    → (steps : List PlanStep) × (assemble_plan fuel agents routes ≡ some steps)
      × IsNumberedFrom 0 steps
unfolding assemble_plan IsForward
assemble_plan-IsNumberedFrom agents rank sq_rank fuel routes acyclic bounded some_one forward fine =
    let within : (r : SubQueryRoute) → Memᴰ r (filter carries routes) → Memᴰ r routes =
      λ r m. (mem-filter carries r routes m).0 in
    carried_numbered agents rank fuel acyclic bounded sq_rank (filter carries routes)
      (carries-filter routes some_one) (λ r m. forward r (within r m))
      (λ r m. (fine r (within r m)).0) (λ r m. (fine r (within r m)).1)
