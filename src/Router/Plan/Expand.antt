-- ===== src/Router/Plan/Expand.antt =====
-- The whole expansion of src/oneops/router/plan.py over agents whose prerequisites form no cycle.
use one_ops_next_gen.Prelude.{
  ℕ, zero, suc, ◌≤◌, ◌<◌, String, true, List, [], ◌∷◌, Option, some, Dict, lookup, contains, ◌==◌,
  eq_iff, eq_self, ◌++◌, Bool-cases, Memᴰ, Memᴰ-cons, ◌≡◌, ◌⊎◌, inl, inr, refl, arith, subst,
}
use one_ops_next_gen.Router.Exclusions.{Agent}
use one_ops_next_gen.Router.Plan.{
  Walk, visit_next, visit_all, append_visited, visit_new, visit, ordered_of, expand_with_deps,
}
use one_ops_next_gen.Router.Plan.Order.{
  IsOrdered, IsAdvance, IsAdvance-trans, IsAdvance-refl, IsAdvance-append, contains-append_one,
}

unfoldable pub IsKnown : Dict Agent → String → Type 0
IsKnown agents a = (agent : Agent) × (lookup a agents ≡ some agent)

-- What the integrity check of the registry guarantees: prerequisites are registered, and a rank
-- falls along them.
unfoldable pub IsAcyclic : Dict Agent → (String → ℕ) → Type 0
unfolding IsKnown
IsAcyclic agents rank =
    (a : String) (agent : Agent)
    → lookup a agents ≡ some agent
    → (d : String) → Memᴰ d agent.depends_on
    → IsKnown agents d × (rank d < rank a)

module _ (agents : Dict Agent) (rank : String → ℕ) (acyclic : IsAcyclic agents rank) where
  -- The agents that are being visited have at least the given rank.
  IsGrounded : ℕ → Walk → Type 0
  IsGrounded r w =
      (x : String) → contains x w.seen ≡ true → (contains x w.ordered ≡ true) ⊎ (r ≤ rank x)

  IsListed : Walk → Type 0
  IsListed w = (x : String) → contains x w.ordered ≡ true → contains x w.seen ≡ true

  -- What a visitor does with an agent of a rank below the fuel.
  IsVisitor : ℕ → (String → Walk → Option Walk) → Type 0
  unfolding IsGrounded IsListed
  IsVisitor n visitor =
      (a : String) (w : Walk)
      → IsKnown agents a
      → rank a < n
      → IsOrdered agents w.ordered
      → IsListed w
      → IsGrounded (suc (rank a)) w
      → (after : Walk) × (visitor a w ≡ some after)
        × IsAdvance agents w after
        × (contains a after.ordered ≡ true)

  visit_all_ok :
      (n : ℕ) (visitor : String → Walk → Option Walk) (r : ℕ) (ds : List String) (w : Walk)
      → IsVisitor n visitor
      → r ≤ n
      → ((d : String) → Memᴰ d ds → IsKnown agents d × (rank d < r))
      → IsOrdered agents w.ordered
      → IsListed w
      → IsGrounded r w
      → (after : Walk) × (visit_all visitor ds w ≡ some after)
        × IsAdvance agents w after
        × ((d : String) → Memᴰ d ds → contains d after.ordered ≡ true)
  unfolding visit_all visit_next IsVisitor IsGrounded IsListed
  visit_all_ok n visitor r [] w ok le below o l g =
      (w, refl, IsAdvance-refl agents w o l, λ d m. elim m [ ])
  visit_all_ok n visitor r (d ∷ ds) w ok le below o l g =
      let (known, lower) = below d (Memᴰ.head refl) in
      let (v, e, adv, there) =
        ok d w known (omega arith) o l
          (λ x h. elim (g x h) [ inl f ↦ inl f | inr f ↦ inr (omega arith) ]) in
      let (after, f, adv', all_there) =
        visit_all_ok n visitor r ds v ok le (λ c m. below c (Memᴰ.tail m)) adv.ordered
          adv.listed_seen
          (λ x h. elim (adv.finished x h) [
            | inl c ↦ inl c
            | inr c ↦ elim (g x c) [ inl k ↦ inl (adv.kept x k) | inr k ↦ inr k ]
          ]) in
      (
        after,
        rw e f,
        IsAdvance-trans agents w v after adv adv',
        λ c m. elim (Memᴰ-cons m) [
          | inl same ↦ adv'.kept c (rw same there)
          | inr m' ↦ all_there c m'
        ],
      )

  contains_self : (a : String) (xs : List String) → contains a (xs ++ (a ∷ [])) ≡ true
  contains_self a xs = rw contains-append_one (ground (arith, eq_self a))

  visit_ok : (n : ℕ) → IsVisitor n (visit n agents)
  unfolding IsVisitor IsGrounded IsListed IsKnown IsAcyclic visit visit_new append_visited
  visit_ok zero a w known low o l g = absurd (omega arith)
  visit_ok (suc n) a w (agent, found) low o l g = elim (Bool-cases (contains a w.seen)) [
    | inl e ↦ (
      w,
      rw (visit, e) refl,
      IsAdvance-refl agents w o l,
      elim (g a e) [ inl f ↦ f | inr f ↦ absurd (omega arith) ],
    )
    | inr e ↦
        let (v, f, adv, deps) =
          visit_all_ok n (visit n agents) (rank a) agent.depends_on (record w { seen = a ∷ w.seen })
            (visit_ok n) (omega arith) (λ d m. acyclic a agent found d m) o
            (λ x h. ground (arith, l x h))
            (λ x h. elim (Bool-cases (contains x w.seen)) [
              | inl c ↦ elim (g x c) [ inl k ↦ inl k | inr k ↦ inr (omega arith) ]
              | inr c ↦
                  let same : (a == x) ≡ true = ground arith in
                  inr (subst (λ y. rank a ≤ rank y) ((eq_iff a x).0 same) (omega arith))
            ]) in
        (
          record v { ordered = v.ordered ++ (a ∷ []) },
          rw (visit, e, found, f) refl,
          IsAdvance-append agents a w v e l (agent, found, deps) adv,
          contains_self a v.ordered,
        )
  ]

-- When prerequisites are registered and form no cycle, the expansion of the selected agents ends
-- once the fuel exceeds their ranks, and lists every selected agent, no agent twice, and each
-- after all of its prerequisites.
pub expand_with_deps-IsOrdered :
    (agents : Dict Agent) (rank : String → ℕ) (agent_ids : List String) (fuel : ℕ)
    → IsAcyclic agents rank
    → ((a : String) → Memᴰ a agent_ids → IsKnown agents a × (rank a < fuel))
    → (needed : List String) × (expand_with_deps fuel agents agent_ids ≡ some needed)
      × IsOrdered agents needed
      × ((a : String) → Memᴰ a agent_ids → contains a needed ≡ true)
unfolding expand_with_deps ordered_of IsGrounded IsListed IsOrdered
expand_with_deps-IsOrdered agents rank agent_ids fuel acyclic selected =
    let (w, e, adv, all_there) =
      visit_all_ok agents rank acyclic fuel (visit fuel agents) fuel agent_ids
        (record { seen = []; ordered = [] }) (visit_ok agents rank acyclic fuel) (omega arith)
        selected tt (λ x h. cc) (λ x h. cc) in
    (w.ordered, rw e refl, adv.ordered, all_there)
