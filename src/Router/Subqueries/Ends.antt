-- ===== src/Router/Subqueries/Ends.antt =====
-- That the ordering of the sub-queries of src/oneops/router/plan.py ends, when they do not depend on
-- each other in a cycle.
use one_ops_next_gen.Prelude.{
  ℕ, zero, suc, ◌≤◌, ◌<◌, String, false, not, List, [], ◌∷◌, ◌++◌, map, Option, some, contains,
  filter, mem_of_contains, mem-filter, mem-append, ◌==◌, eq_iff, Bool-cases, Option-cases, Memᴰ,
  Memᴰ-cons, ◌≡◌, inl, inr, refl, sym, ap, subst, ◌∙◌, arith,
}
use one_ops_next_gen.Router.Plan.{visit_all, visit_next}
use one_ops_next_gen.Router.Subqueries.{
  SubQueryRoute, route_of, Order, leave_route, enter_route, visit_route, routes_of, topo_subqueries,
}

-- A rank falls along the dependencies of the routes.
unfoldable pub IsForward : List SubQueryRoute → (String → ℕ) → Type 0
IsForward routes rank =
    (r : SubQueryRoute)
    → Memᴰ r routes
    → (d : String) → Memᴰ d r.depends_on_subqueries
    → rank d < rank r.sub_query_id

route_of_lem :
    (sq : String) (routes : List SubQueryRoute) (r : SubQueryRoute)
    → route_of sq routes ≡ some r
    → Memᴰ r routes × (r.sub_query_id ≡ sq)
unfolding route_of
route_of_lem sq [] r h = cc
route_of_lem sq (q ∷ qs) r h = elim (Option-cases (route_of sq qs)) [
  | inl e ↦ elim (Bool-cases (q.sub_query_id == sq)) [
    | inl f ↦
        let same : q ≡ r = cc (rw (e, f) at h) in
        (
          Memᴰ.head (sym same),
          ap (λ (x : SubQueryRoute). x.sub_query_id) (sym same) ∙ (eq_iff q.sub_query_id sq).0 f,
        )
    | inr f ↦ cc (rw (e, f) at h)
  ]
  | inr (later, e) ↦
      let (m, f) = route_of_lem sq qs later e in
      let same : later ≡ r = cc (rw e at h) in
      (
        Memᴰ.tail (subst (λ x. Memᴰ x qs) same m),
        ap (λ (x : SubQueryRoute). x.sub_query_id) (sym same) ∙ f,
      )
]

left_order : String → SubQueryRoute → Order → Order
left_order sq r o = record {
  visited = sq ∷ o.visited;
  active = filter (λ a. not (a == sq)) o.active;
  ordered = o.ordered ++ (r ∷ []);
}

module _ (routes : List SubQueryRoute) (rank : String → ℕ) (forward : IsForward routes rank) where
  -- What is active has at least the given rank, and what is ordered is a route.
  IsEntered : ℕ → Order → Type 0
  IsEntered n o =
      ((x : String) → Memᴰ x o.active → n ≤ rank x)
      × ((r : SubQueryRoute) → Memᴰ r o.ordered → Memᴰ r routes)

  IsOrderer : ℕ → (String → Order → Option Order) → Type 0
  unfolding IsEntered
  IsOrderer n visit =
      (sq : String) (o : Order)
      → rank sq < n
      → IsEntered (suc (rank sq)) o
      → (after : Order) × (visit sq o ≡ some after)
        × ((x : String) → Memᴰ x after.active → Memᴰ x o.active)
        × ((r : SubQueryRoute) → Memᴰ r after.ordered → Memᴰ r routes)

  visit_all_orders :
      (n : ℕ) (visit : String → Order → Option Order) (k : ℕ) (sqs : List String) (o : Order)
      → IsOrderer n visit
      → ((d : String) → Memᴰ d sqs → (rank d < k) × (rank d < n))
      → IsEntered k o
      → (after : Order) × (visit_all visit sqs o ≡ some after)
        × ((x : String) → Memᴰ x after.active → Memᴰ x o.active)
        × ((r : SubQueryRoute) → Memᴰ r after.ordered → Memᴰ r routes)
  unfolding visit_all visit_next IsOrderer IsEntered
  visit_all_orders n visit k [] o ok below (entered, listed) = (o, refl, λ x m. m, listed)
  visit_all_orders n visit k (d ∷ ds) o ok below (entered, listed) =
      let (less, low) = below d (Memᴰ.head refl) in
      let (v, e, back, all) = ok d o low (λ x m. let high = entered x m in omega arith, listed) in
      let (after, f, back', all') =
        visit_all_orders n visit k ds v ok (λ c m. below c (Memᴰ.tail m))
          (λ x m. entered x (back x m), all) in
      (after, rw e f, λ x m. back x (back' x m), all')

  visit_route_orders : (n : ℕ) → IsOrderer n (visit_route n routes)
  unfolding IsOrderer IsEntered IsForward visit_route enter_route leave_route left_order
  visit_route_orders zero sq o low e = absurd (omega arith)
  visit_route_orders (suc n) sq o low (entered, listed) =
      elim (Bool-cases (contains sq o.visited)) [
        | inl e ↦ (o, rw (visit_route, e) refl, λ x m. m, listed)
        | inr e ↦ elim (Option-cases (route_of sq routes)) [
          | inl f ↦ (o, rw (visit_route, e, f) refl, λ x m. m, listed)
          | inr (r, f) ↦
              let (is_route, named) = route_of_lem sq routes r f in
              let inactive : contains sq o.active ≡ false =
                elim (Bool-cases (contains sq o.active)) [
                  | inl c ↦
                      let high = entered sq (mem_of_contains sq o.active c) in absurd (omega arith)
                  | inr c ↦ c
                ] in
              let (v, g, back, all) =
                visit_all_orders n (visit_route n routes) (rank sq) r.depends_on_subqueries
                  (record o { active = sq ∷ o.active }) (visit_route_orders n)
                  (λ d m.
                    let less = forward r is_route d m in
                    (omega (arith, ap rank named), omega (arith, ap rank named)))
                  (
                    λ x m. elim (Memᴰ-cons m) [
                      | inl same ↦ omega (arith, ap rank same)
                      | inr old ↦ let high = entered x old in omega arith
                    ],
                    listed,
                  ) in
              (
                left_order sq r v,
                rw (visit_route, e, f, enter_route, inactive, g) refl,
                λ x m.
                    let (was, kept) = mem-filter (λ a. not (a == sq)) x v.active m in
                    elim (Memᴰ-cons (back x was)) [
                      | inl same ↦ cc (kept, (eq_iff x sq).1 same)
                      | inr old ↦ old
                    ],
                λ q m. elim (mem-append q v.ordered (r ∷ []) m) [
                  | inl old ↦ all q old
                  | inr last ↦ elim (Memᴰ-cons last) [
                    | inl same ↦ subst (λ y. Memᴰ y routes) (sym same) is_route
                    | inr n' ↦ elim n' [ ]
                  ]
                ],
              )
        ]
      ]

mem-map_ids :
    (d : String) (rs : List SubQueryRoute)
    → Memᴰ d (map (λ (r : SubQueryRoute). r.sub_query_id) rs)
    → (r : SubQueryRoute) × Memᴰ r rs × (d ≡ r.sub_query_id)
mem-map_ids d [] m = elim m [ ]
mem-map_ids d (r ∷ rs) m = elim (Memᴰ-cons m) [
  | inl e ↦ (r, Memᴰ.head refl, e)
  | inr n ↦ let (q, a, b) = mem-map_ids d rs n in (q, Memᴰ.tail a, b)
]

-- The ordering ends, and lists routes only.
pub topo_subqueries_total :
    (routes : List SubQueryRoute) (rank : String → ℕ) (fuel : ℕ)
    → IsForward routes rank
    → ((r : SubQueryRoute) → Memᴰ r routes → rank r.sub_query_id < fuel)
    → (ordered : List SubQueryRoute) × (topo_subqueries fuel routes ≡ some ordered)
      × ((r : SubQueryRoute) → Memᴰ r ordered → Memᴰ r routes)
unfolding topo_subqueries routes_of IsEntered
topo_subqueries_total routes rank fuel forward bounded =
    let (o, e, _, all) =
      visit_all_orders routes rank forward fuel (visit_route fuel routes) fuel
        (map (λ (r : SubQueryRoute). r.sub_query_id) routes)
        (record { visited = []; active = []; ordered = [] })
        (visit_route_orders routes rank forward fuel)
        (λ d m.
          let (r, n, same) = mem-map_ids d routes m in
          let low = bounded r n in (omega (arith, ap rank same), omega (arith, ap rank same)))
        (λ x m. elim m [ ], λ r m. elim m [ ]) in
    (o.ordered, rw e refl, all)
