-- ===== src/Router/Assembly/Built.antt =====
-- The steps that src/oneops/router/plan.py builds for one route.
use one_ops_next_gen.Prelude.{
  ℕ, suc, ◌+◌, ◌≤◌, String, true, false, List, [], ◌∷◌, ◌++◌, map, Option, some, Dict, lookup,
  insert, contains, filter, any, eqb, if_ind, not, ◌==◌, eq_iff, eq_self, lookup-insert, length,
  mem-filter, mem-append, Bool-cases, Memᴰ, Memᴰ-cons, ◌≡◌, inl, inr, refl, ap, ◌∙◌, arith,
}
use one_ops_next_gen.Router.Exclusions.{Agent}
use one_ops_next_gen.Router.Plan.Order.{IsNext, IsOrderedFrom, contains-append_one}
use one_ops_next_gen.Router.Assembly.{
  ParameterBinding, PlanStep, local_ids, also, dep_ids, is_agent, with_sources, step_for,
  step_of_agent, build_route_steps, count_on,
}

-- Every number of a list is from 1 to n.
unfoldable pub IsWithin : ℕ → List ℕ → Type 0
IsWithin n ids = (k : ℕ) → Memᴰ k ids → (1 ≤ k) × (k ≤ n)

-- The steps are numbered from n + 1 on, and each depends on steps of smaller numbers only.
unfoldable pub IsNumberedFrom : ℕ → List PlanStep → Type 0
unfolding IsWithin
IsNumberedFrom n [] = Unit
IsNumberedFrom n (s ∷ rest) =
    (s.step_id ≡ suc n) × IsWithin n s.depends_on × IsNumberedFrom (suc n) rest

pub IsWithin-weaken : (n m : ℕ) (ids : List ℕ) → n ≤ m → IsWithin n ids → IsWithin m ids
unfolding IsWithin
IsWithin-weaken n m ids le w k h = let (low, high) = w k h in (low, omega arith)

pub IsWithin-append :
    (n : ℕ) (xs ys : List ℕ) → IsWithin n xs → IsWithin n ys → IsWithin n (xs ++ ys)
unfolding IsWithin
IsWithin-append n xs ys a b k m = elim (mem-append k xs ys m) [ inl c ↦ a k c | inr c ↦ b k c ]

-- An id that is given stays while later agents get theirs.
local_ids_keep :
    (agents : Dict Agent) (n : ℕ) (ids : Dict ℕ) (before rest : List String) (d : String)
    → IsOrderedFrom agents before rest
    → contains d before ≡ true
    → lookup d (local_ids n ids rest) ≡ lookup d ids
unfolding local_ids IsOrderedFrom IsNext
local_ids_keep agents n ids before [] d o h = refl
local_ids_keep agents n ids before (a ∷ rest) d ((new, _), o) h =
    let later : contains d (before ++ (a ∷ [])) ≡ true =
      rw contains-append_one (ground (arith, h)) in
    let apart : (a == d) ≡ false = elim (Bool-cases (a == d)) [
      | inl e ↦ cc (h, new, ap (λ x. contains x before) ((eq_iff a d).0 e))
      | inr e ↦ e
    ] in
    local_ids_keep agents (suc n) (insert a (suc n) ids) (before ++ (a ∷ [])) rest d o later
    ∙ (rw (lookup-insert, apart) refl)

-- The agents before have numbers up to n.
unfoldable pub IsGiven : ℕ → Dict ℕ → List String → Type 0
IsGiven n ids before =
    (d : String) → contains d before ≡ true → (k : ℕ) × (lookup d ids ≡ some k) × (1 ≤ k) × (k ≤ n)

IsGiven-insert :
    (n : ℕ) (ids : Dict ℕ) (before : List String) (a : String)
    → IsGiven n ids before
    → IsGiven (suc n) (insert a (suc n) ids) (before ++ (a ∷ []))
unfolding IsGiven
IsGiven-insert n ids before a g d h = elim (Bool-cases (a == d)) [
  | inl e ↦ (suc n, rw (lookup-insert, e) refl, omega arith, omega arith)
  | inr e ↦
      let old : contains d before ≡ true = ground (arith, rw contains-append_one at h) in
      let (k, f, low, high) = g d old in (k, rw (lookup-insert, e) f, low, omega arith)
]

-- The prerequisites of an agent whose turn it is have smaller numbers.
dep_ids-IsWithin :
    (agents : Dict Agent) (n : ℕ) (ids : Dict ℕ) (before rest : List String) (ds : List String)
    → IsOrderedFrom agents before rest
    → IsGiven n ids before
    → ((d : String) → Memᴰ d ds → contains d before ≡ true)
    → (found : List ℕ) × (dep_ids (local_ids n ids rest) ds ≡ some found) × IsWithin n found
unfolding dep_ids also IsGiven IsWithin
dep_ids-IsWithin agents n ids before rest [] o g listed = ([], refl, λ k m. elim m [ ])
dep_ids-IsWithin agents n ids before rest (d ∷ ds) o g listed =
    let (y, given, low, high) = g d (listed d (Memᴰ.head refl)) in
    let keeps = local_ids_keep agents n ids before rest d o (listed d (Memᴰ.head refl)) in
    let (xs, f, w) =
      dep_ids-IsWithin agents n ids before rest ds o g (λ c m. listed c (Memᴰ.tail m)) in
    (
      y ∷ xs,
      rw (keeps, given, f) refl,
      λ k m. elim (Memᴰ-cons m) [
        | inl here ↦ (omega (arith, here, low), omega (arith, here, high))
        | inr m' ↦ w k m'
      ],
    )

-- Where the bindings of a route come from.
abbrev pub sources : List ParameterBinding → List ℕ
sources bindings = map (λ (b : ParameterBinding). b.from_step) bindings

with_sources-IsWithin :
    (n : ℕ) (bindings : List ParameterBinding) (deps : List ℕ)
    → IsWithin n (sources bindings)
    → IsWithin n deps
    → IsWithin n (with_sources bindings deps)
unfolding with_sources IsWithin
with_sources-IsWithin n bindings deps s d =
    IsWithin-append n deps (filter (λ e. not (any (λ f. eqb f e) deps)) (sources bindings)) d
      (λ k m. s k (mem-filter (λ e. not (any (λ f. eqb f e) deps)) k (sources bindings) m).0)

also-some {ℓ} :
    {A : Type ℓ} (o : Option A) (os : Option (List A)) (x : A) (xs : List A)
    → o ≡ some x
    → os ≡ some xs
    → also o os ≡ some (x ∷ xs)
unfolding also
also-some o os x xs e f = rw (e, f) refl

module _ (upstream : List ℕ) (primary : Option String) (bindings : List ParameterBinding) where
  step_for-IsWithin :
      (n : ℕ) (a : String) (i : ℕ) (ds : List ℕ)
      → IsWithin n upstream
      → IsWithin n (sources bindings)
      → IsWithin n ds
      → (s : PlanStep) × (step_for upstream primary bindings a (some i) (some ds) ≡ some s)
        × (s.step_id ≡ i)
        × IsWithin n s.depends_on
  unfolding step_for
  step_for-IsWithin n a i ds u b d =
      let plain : IsWithin n (ds ++ upstream) = IsWithin-append n ds upstream d u in
      (
        _,
        refl,
        refl,
        if_ind (IsWithin n) (is_agent a primary)
            (with_sources-IsWithin n bindings (ds ++ upstream) b plain) plain,
      )

  -- The steps of agents that come after their prerequisites can be built, are numbered on, and
  -- depend on smaller numbers only.
  pub build_route_steps_lem :
      (agents : Dict Agent) (n : ℕ) (ids : Dict ℕ) (before rest : List String)
      → IsWithin n upstream
      → IsWithin n (sources bindings)
      → IsOrderedFrom agents before rest
      → IsGiven n ids before
      → (steps : List PlanStep) × (build_route_steps agents
            (local_ids n ids rest)
            upstream
            primary
            bindings
            rest
          ≡ some steps)
        × IsNumberedFrom n steps
        × (count_on n rest ≡ n + length steps)
  unfolding build_route_steps step_of_agent also IsNumberedFrom IsOrderedFrom local_ids IsNext
  build_route_steps_lem agents n ids before [] u b o g = ([], refl, tt, omega arith)
  build_route_steps_lem agents n ids before (a ∷ rest) u b ((new, (agent, found, deps)), o) g =
      let (ds, e, w) =
        dep_ids-IsWithin agents n ids before (a ∷ rest) agent.depends_on
          ((new, (agent, found, deps)), o) g deps in
      let (s, f, number, within) = step_for-IsWithin n a (suc n) ds u b w in
      let later : contains a (before ++ (a ∷ [])) ≡ true =
        rw contains-append_one (ground (arith, eq_self a)) in
      let given : lookup a (local_ids (suc n) (insert a (suc n) ids) rest) ≡ some (suc n) =
        local_ids_keep agents (suc n) (insert a (suc n) ids) (before ++ (a ∷ [])) rest a o later
        ∙ (rw (lookup-insert, eq_self a) refl) in
      let (ss, built, numbers, total) =
        build_route_steps_lem agents (suc n) (insert a (suc n) ids) (before ++ (a ∷ [])) rest
          (IsWithin-weaken n (suc n) upstream (omega arith) u)
          (IsWithin-weaken n (suc n) (sources bindings) (omega arith) b) o
          (IsGiven-insert n ids before a g) in
      let first : step_of_agent (local_ids n ids (a ∷ rest)) upstream primary bindings a
            (lookup a agents)
          ≡ some s =
        rw (found, step_of_agent, given, e) f in
      (s ∷ ss, also-some _ _ s ss first built, (number, within, numbers), omega (arith, total))
