-- ===== src/Router/Assembly/Earlier.antt =====
-- That a plan of src/oneops/router/plan.py runs forward: every step waits for earlier steps only.
use one_ops_next_gen.Prelude.{
  ℕ, suc, ◌+◌, ◌≤◌, String, not, List, [], ◌∷◌, ◌++◌, map, some, Dict, lookup, insert, contains,
  filter, ◌==◌, length, mem-filter, Bool-cases, Option-cases, Memᴰ, Memᴰ-cons, mem_of_contains, ◌≡◌,
  ◌⊎◌, inl, inr, refl, sym, subst, arith,
}
use one_ops_next_gen.Router.Exclusions.{
  ExclusionRef, loser, drop_one, dropped_by, Agent, apply_exclusions, dropped, dropped_of, both,
  keep,
}
use one_ops_next_gen.Router.Plan.Expand.{IsKnown}
use one_ops_next_gen.Router.Subqueries.{RouteBinding}
use one_ops_next_gen.Router.Assembly.{
  PlanStep, Assembly, steps_of, upstream_of, local_ids, last_of, bound_to, resolve_route_bindings,
  count_on,
}
use one_ops_next_gen.Router.Assembly.Built.{IsWithin, IsWithin-append, IsNumberedFrom, sources}

pub IsNumberedFrom-append :
    (n : ℕ) (xs ys : List PlanStep)
    → IsNumberedFrom n xs
    → IsNumberedFrom (n + length xs) ys
    → IsNumberedFrom n (xs ++ ys)
unfolding IsNumberedFrom
IsNumberedFrom-append n [] ys a b = subst (λ k. IsNumberedFrom k ys) (omega arith) b
IsNumberedFrom-append n (x ∷ xs) ys (number, deps, a) b = (
  number,
  deps,
  IsNumberedFrom-append (suc n) xs ys a (subst (λ k. IsNumberedFrom k ys) (omega arith) b),
)

unfoldable pub values : Dict ℕ → List ℕ
values ids = map (λ (e : String × ℕ). e.1) ids

mem_values-insert :
    (k v : ℕ) (a : String) (ids : Dict ℕ)
    → Memᴰ k (values (insert a v ids))
    → (k ≡ v) ⊎ Memᴰ k (values ids)
unfolding values insert
mem_values-insert k v a [] m = elim (Memᴰ-cons m) [ inl e ↦ inl e | inr n ↦ inr n ]
mem_values-insert k v a ((b, w) ∷ ids) m = elim (Bool-cases (b == a)) [
  | inl e ↦ elim (Memᴰ-cons (rw (insert, e) at m)) [ inl f ↦ inl f | inr n ↦ inr (Memᴰ.tail n) ]
  | inr e ↦ elim (Memᴰ-cons (rw (insert, e) at m)) [
    | inl f ↦ inr (Memᴰ.head f)
    | inr n ↦ elim (mem_values-insert k v a ids n) [ inl f ↦ inl f | inr g ↦ inr (Memᴰ.tail g) ]
  ]
]

inserted-IsWithin :
    (n : ℕ) (ids : Dict ℕ) (a : String)
    → IsWithin n (values ids)
    → IsWithin (suc n) (values (insert a (suc n) ids))
unfolding IsWithin
inserted-IsWithin n ids a w k m = elim (mem_values-insert k (suc n) a ids m) [
  | inl e ↦ (omega (arith, e), omega (arith, e))
  | inr old ↦ let (low, high) = w k old in (low, omega arith)
]

pub nothing-IsWithin : (n : ℕ) → IsWithin n []
unfolding IsWithin
nothing-IsWithin n k m = elim m [ ]

pub local_ids-IsWithin :
    (n : ℕ) (ids : Dict ℕ) (rest : List String)
    → IsWithin n (values ids)
    → IsWithin (count_on n rest) (values (local_ids n ids rest))
unfolding local_ids
local_ids-IsWithin n ids [] w = w
local_ids-IsWithin n ids (a ∷ rest) w =
    local_ids-IsWithin (suc n) (insert a (suc n) ids) rest (inserted-IsWithin n ids a w)

-- Every sub-query's steps are among the first n.
unfoldable pub IsFiled : ℕ → Dict (List ℕ) → Type 0
IsFiled n by_subquery =
    (sq : String) (ids : List ℕ) → lookup sq by_subquery ≡ some ids → IsWithin n ids

-- The steps so far are numbered, and every sub-query's are among them.
unfoldable pub IsCounted : Assembly → Type 0
unfolding IsFiled
IsCounted s =
    IsNumberedFrom 0 s.steps × (s.counter ≡ length s.steps) × IsFiled s.counter s.by_subquery

steps_of-IsWithin :
    (n : ℕ) (by_subquery : Dict (List ℕ)) (sq : String)
    → IsFiled n by_subquery
    → IsWithin n (steps_of sq by_subquery)
unfolding IsFiled IsWithin
steps_of-IsWithin n by_subquery sq w = elim (Option-cases (lookup sq by_subquery)) [
  | inl e ↦ rw (steps_of, e) (λ k m. elim m [ ])
  | inr (ids, e) ↦ rw (steps_of, e) (w sq ids e)
]

pub upstream_of-IsWithin :
    (n : ℕ) (by_subquery : Dict (List ℕ)) (sqs : List String)
    → IsFiled n by_subquery
    → IsWithin n (upstream_of by_subquery sqs)
unfolding upstream_of
upstream_of-IsWithin n by_subquery [] w = nothing-IsWithin n
upstream_of-IsWithin n by_subquery (sq ∷ sqs) w =
    IsWithin-append n (steps_of sq by_subquery) (upstream_of by_subquery sqs)
      (steps_of-IsWithin n by_subquery sq w) (upstream_of-IsWithin n by_subquery sqs w)

mem-last_of : (k : ℕ) (ids : List ℕ) → last_of ids ≡ some k → Memᴰ k ids
mem-last_of k [] h = cc
mem-last_of k (x ∷ []) h = Memᴰ.head cc
mem-last_of k (x ∷ y ∷ rest) h = Memᴰ.tail (mem-last_of k (y ∷ rest) h)

pub bindings-IsWithin :
    (n : ℕ) (by_subquery : Dict (List ℕ)) (bs : List RouteBinding)
    → IsFiled n by_subquery
    → IsWithin n (sources (resolve_route_bindings by_subquery bs))
unfolding resolve_route_bindings IsWithin
bindings-IsWithin n by_subquery [] w = λ k m. elim m [ ]
bindings-IsWithin n by_subquery (b ∷ bs) w =
    let rest = bindings-IsWithin n by_subquery bs w in
    let here = steps_of-IsWithin n by_subquery b.from_sq w in
    elim (Option-cases (last_of (steps_of b.from_sq by_subquery))) [
      | inl e ↦ rw (resolve_route_bindings, e, bound_to) rest
      | inr (k, e) ↦
          rw (resolve_route_bindings, e, bound_to)
            (λ j m. elim (Memᴰ-cons m) [
              | inl f ↦ subst (λ i. (1 ≤ i) × (i ≤ n)) (sym f) (here k (mem-last_of k _ e))
              | inr m' ↦ rest j m'
            ])
    ]

-- Among registered agents the exclusions answer, and only take agents away.
dropped_by_total :
    (agents : Dict Agent) (selected : List String) (agent_id : String) (excs : List ExclusionRef)
    → ((a : String) → Memᴰ a selected → IsKnown agents a)
    → (lost : List String) × (dropped_by agents selected agent_id excs ≡ some lost)
unfolding dropped_by drop_one IsKnown
dropped_by_total agents selected agent_id [] known = ([], refl)
dropped_by_total agents selected agent_id (exc ∷ excs) known =
    let (later, e) = dropped_by_total agents selected agent_id excs known in
    elim (Bool-cases (contains exc.agent_id selected)) [
      | inl c ↦
          let (other, f) = known exc.agent_id (mem_of_contains exc.agent_id selected c) in
          (loser agent_id exc other ∷ later, rw (c, f, e) refl)
      | inr c ↦ (later, rw (c, e) refl)
    ]

dropped_total :
    (agents : Dict Agent) (selected ids : List String)
    → ((a : String) → Memᴰ a selected → IsKnown agents a)
    → ((a : String) → Memᴰ a ids → IsKnown agents a)
    → (lost : List String) × (dropped agents selected ids ≡ some lost)
unfolding dropped dropped_of both IsKnown
dropped_total agents selected [] known all_known = ([], refl)
dropped_total agents selected (a ∷ ids) known all_known =
    let (agent, e) = all_known a (Memᴰ.head refl) in
    let (here, f) = dropped_by_total agents selected a agent.excludes known in
    let (rest, g) = dropped_total agents selected ids known (λ b m. all_known b (Memᴰ.tail m)) in
    (here ++ rest, rw (e, dropped_of, f, g) refl)

pub apply_exclusions_total :
    (agents : Dict Agent) (ids : List String)
    → ((a : String) → Memᴰ a ids → IsKnown agents a)
    → (survivors : List String) × (apply_exclusions agents ids ≡ some survivors)
      × ((a : String) → Memᴰ a survivors → IsKnown agents a)
unfolding apply_exclusions keep
apply_exclusions_total agents ids known =
    let (lost, e) = dropped_total agents ids ids known known in
    (
      filter (λ b. not (contains b lost)) ids,
      rw (e, keep) refl,
      λ a m. known a (mem-filter (λ b. not (contains b lost)) a ids m).0,
    )
