-- ===== src/Router/Plan/Order.antt =====
-- That the expansion of src/oneops/router/plan.py ends and puts every prerequisite first.
use one_ops_next_gen.Prelude.{
  String, true, false, ◌||◌, List, [], ◌∷◌, ◌++◌, some, Dict, lookup, contains, ◌==◌, eq_iff,
  eq_self, append_assoc, append-nil, Bool-cases, Memᴰ, ◌≡◌, ◌⊎◌, inl, inr, arith,
}
use one_ops_next_gen.Router.Exclusions.{Agent}
use one_ops_next_gen.Router.Plan.{Walk}

pub contains-append_one :
    (x a : String) (xs : List String) → contains x (xs ++ (a ∷ [])) ≡ (contains x xs || a == x)
contains-append_one x a [] = ground arith
contains-append_one x a (y ∷ ys) = ground (arith, contains-append_one x a ys)

-- An agent is registered and not listed before, and all its prerequisites are.
unfoldable pub IsNext : Dict Agent → List String → String → Type 0
IsNext agents before a =
    (contains a before ≡ false)
    × ((agent : Agent) × (lookup a agents ≡ some agent)
        × ((d : String) → Memᴰ d agent.depends_on → contains d before ≡ true))

unfoldable pub IsOrderedFrom : Dict Agent → List String → List String → Type 0
unfolding IsNext
IsOrderedFrom agents before [] = Unit
IsOrderedFrom agents before (a ∷ rest) =
    IsNext agents before a × IsOrderedFrom agents (before ++ (a ∷ [])) rest

-- A list in which no agent comes twice and each is registered and comes after its prerequisites.
unfoldable pub IsOrdered : Dict Agent → List String → Type 0
unfolding IsOrderedFrom
IsOrdered agents ids = IsOrderedFrom agents [] ids

IsOrderedFrom-append :
    (agents : Dict Agent) (before xs : List String) (a : String)
    → IsOrderedFrom agents before xs
    → IsNext agents (before ++ xs) a
    → IsOrderedFrom agents before (xs ++ (a ∷ []))
unfolding IsOrderedFrom
IsOrderedFrom-append agents before [] a o n = (rw (append-nil before) at n, tt)
IsOrderedFrom-append agents before (x ∷ xs) a (m, o) n = (
  m,
  IsOrderedFrom-append agents (before ++ (x ∷ [])) xs a o (rw (append_assoc before (x ∷ []) xs) n),
)

-- What a visit does to a walk.
pub record IsAdvance (agents : Dict Agent) (w after : Walk) : Type 0 where
  pub ordered : IsOrdered agents after.ordered
  pub listed_seen : (x : String) → contains x after.ordered ≡ true → contains x after.seen ≡ true
  pub kept : (x : String) → contains x w.ordered ≡ true → contains x after.ordered ≡ true
  pub fresh :
      (x : String)
      → contains x after.ordered ≡ true
      → (contains x w.ordered ≡ true) ⊎ (contains x w.seen ≡ false)
  pub finished :
      (x : String)
      → contains x after.seen ≡ true
      → (contains x after.ordered ≡ true) ⊎ (contains x w.seen ≡ true)
  pub grown : (x : String) → contains x w.seen ≡ true → contains x after.seen ≡ true

pub IsAdvance-trans :
    (agents : Dict Agent) (u v w : Walk)
    → IsAdvance agents u v
    → IsAdvance agents v w
    → IsAdvance agents u w
IsAdvance-trans agents u v w a b = record {
  ordered = b.ordered;
  listed_seen = b.listed_seen;
  kept = λ x h. b.kept x (a.kept x h);
  fresh = λ x h. elim (b.fresh x h) [
    | inl e ↦ a.fresh x e
    | inr e ↦ elim (Bool-cases (contains x u.seen)) [ inl f ↦ cc (e, a.grown x f) | inr f ↦ inr f ]
  ];
  finished = λ x h. elim (b.finished x h) [
    | inl e ↦ inl e
    | inr e ↦ elim (a.finished x e) [ inl f ↦ inl (b.kept x f) | inr f ↦ inr f ]
  ];
  grown = λ x h. b.grown x (a.grown x h);
}

pub IsAdvance-refl :
    (agents : Dict Agent) (w : Walk)
    → IsOrdered agents w.ordered
    → ((x : String) → contains x w.ordered ≡ true → contains x w.seen ≡ true)
    → IsAdvance agents w w
IsAdvance-refl agents w o l = record {
  ordered = o;
  listed_seen = l;
  kept = λ x h. h;
  fresh = λ x h. inl h;
  finished = λ x h. inr h;
  grown = λ x h. h;
}

-- The agent itself comes after what its visit has added.
pub IsAdvance-append :
    (agents : Dict Agent) (a : String) (w v : Walk)
    → contains a w.seen ≡ false
    → ((x : String) → contains x w.ordered ≡ true → contains x w.seen ≡ true)
    → (agent : Agent) × (lookup a agents ≡ some agent)
      × ((d : String) → Memᴰ d agent.depends_on → contains d v.ordered ≡ true)
    → IsAdvance agents (record w { seen = a ∷ w.seen }) v
    → IsAdvance agents w (record v { ordered = v.ordered ++ (a ∷ []) })
unfolding IsNext IsOrdered
IsAdvance-append agents a w v unseen listed deps adv =
    let self : contains a (a ∷ w.seen) ≡ true = ground (arith, eq_self a) in
    let new : contains a v.ordered ≡ false = elim (Bool-cases (contains a v.ordered)) [
      | inl e ↦ elim (adv.fresh a e) [
        | inl f ↦ absurd (cc (unseen, listed a f))
        | inr f ↦ absurd (cc (self, f))
      ]
      | inr e ↦ e
    ] in
    record {
      ordered = IsOrderedFrom-append agents [] v.ordered a adv.ordered (new, deps);
      listed_seen = λ x h. elim (split x h) [
        | inl e ↦ adv.listed_seen x e
        | inr e ↦ adv.grown x (ground (arith, e))
      ];
      kept = λ x h. rw contains-append_one (ground (arith, adv.kept x h));
      fresh = λ x h. elim (split x h) [
        | inl e ↦ elim (adv.fresh x e) [ inl f ↦ inl f | inr f ↦ inr (ground arith) ]
        | inr e ↦ inr (rw (← (eq_iff a x).0 e) unseen)
      ];
      finished = λ x h. elim (adv.finished x h) [
        | inl e ↦ inl (rw contains-append_one (ground arith))
        | inr e ↦ elim (Bool-cases (a == x)) [
          | inl f ↦ inl (rw contains-append_one (ground arith))
          | inr f ↦ inr (ground arith)
        ]
      ];
      grown = λ x h. adv.grown x (ground arith);
    }
  where
    split :
        (x : String)
        → contains x (v.ordered ++ (a ∷ [])) ≡ true
        → (contains x v.ordered ≡ true) ⊎ ((a == x) ≡ true)
    split x h = elim (Bool-cases (contains x v.ordered)) [
      | inl e ↦ inl e
      | inr e ↦ inr (rw (contains-append_one, e) at h)
    ]
