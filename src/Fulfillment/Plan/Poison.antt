-- ===== src/Fulfillment/Plan/Poison.antt =====
-- The closure that `_poisoned_templates` of executor.py computes is exactly what depends, at any
-- depth, on a failed template; its `while` loop ends within one round more than there are rows.
use one_ops_next_gen.Prelude.{
  ℕ, zero, suc, ◌≤◌, ◌<◌, String, Bool, true, false, not, ◌&&◌, ◌||◌, List, [], ◌∷◌, some, ◌≡◌,
  refl, ap, ◌↔◌, inl, inr, arith, Memᴰ, length, any, filter, contains, if◌then◌else◌, Bool-cases,
  any_witness, any-mem, Memᴰ-cons, eq_iff, eq_self, ◌==◌,
}
use one_ops_next_gen.Fulfillment.Contracts.{Task}
use one_ops_next_gen.Fulfillment.Plan.{poison_pass, poison_loop, poisoned_templates}

-- `x` is in the seed, or is the template of a row with a poisoned dependency.
pub data Poisoned (tasks : List Task) (seed : List String) : String → Type 0 where
  seeded : {x : String} → contains x seed ≡ true → Poisoned tasks seed x
  depends :
      {x : String} (t : Task) (dep : String)
      → Memᴰ t tasks
      → t.template_task_id ≡ x
      → Memᴰ dep t.depends_on
      → Poisoned tasks seed dep
      → Poisoned tasks seed x

abbrev Includes : List String → List String → Type 0
Includes p q = (x : String) → contains x p ≡ true → contains x q ≡ true

abbrev is_fresh : List String → Task → Bool
is_fresh p t = not (contains t.template_task_id p) && any (λ dep. contains dep p) t.depends_on

abbrev add_fresh : List String → Task → List String
add_fresh p t = if is_fresh p t then t.template_task_id ∷ p else p

Includes-add_fresh : (p : List String) (t : Task) → Includes p (add_fresh p t)
Includes-add_fresh p t x h = ground arith

pass-Includes : (ts : List Task) (p : List String) (c : Bool) → Includes p (poison_pass ts p c).0
unfolding poison_pass
pass-Includes [] p c x h = h
pass-Includes (t ∷ ts) p c x h =
    pass-Includes ts (add_fresh p t) (is_fresh p t || c) x (Includes-add_fresh p t x h)

-- A pass keeps `changed`, and one that leaves it unset has changed nothing and found nothing fresh.
pass-unchanged :
    (ts : List Task) (p : List String) (c : Bool)
    → (poison_pass ts p c).1 ≡ false
    → (c ≡ false) × ((poison_pass ts p c).0 ≡ p) × (any (is_fresh p) ts ≡ false)
unfolding poison_pass
pass-unchanged [] p c h = (h, refl, refl)
pass-unchanged (t ∷ ts) p c h = elim (Bool-cases (is_fresh p t)) [
  | inl e ↦ cc (e, (pass-unchanged ts (add_fresh p t) (is_fresh p t || c) h).0)
  | inr e ↦
      let (kept, same, rest) = pass-unchanged ts p c (rw (e, poison_pass) at h) in
      (kept, rw (e, poison_pass) same, ground (arith, e, rest))
]

-- A pass that sets `changed` has put in the template of a row that was not in.
pass-changed :
    (ts : List Task) (p : List String)
    → (poison_pass ts p false).1 ≡ true
    → (t : Task) × Memᴰ t ts
      × (contains t.template_task_id p ≡ false)
      × (contains t.template_task_id (poison_pass ts p false).0 ≡ true)
unfolding poison_pass
pass-changed [] p h = cc
pass-changed (t ∷ ts) p h = elim (Bool-cases (is_fresh p t)) [
  | inl e ↦ (
    t,
    Memᴰ.head refl,
    ground (arith, e),
    pass-Includes ts (add_fresh p t) (is_fresh p t || false) t.template_task_id
        (ground (arith, e, eq_self t.template_task_id)),
  )
  | inr e ↦
      let (u, m, out, now) = pass-changed ts p (rw (e, poison_pass) at h) in
      (u, Memᴰ.tail m, out, rw (e, poison_pass) now)
]

-- How many rows have a template outside the set.
abbrev outside : List String → List Task → ℕ
outside p ts = length (filter (λ t. not (contains t.template_task_id p)) ts)

outside-le : (p q : List String) (ts : List Task) → Includes p q → outside q ts ≤ outside p ts
outside-le p q [] h = omega arith
outside-le p q (t ∷ ts) h = ground (arith, h t.template_task_id, outside-le p q ts h)

outside-lt :
    (p q : List String) (t : Task) (ts : List Task)
    → Includes p q
    → Memᴰ t ts
    → contains t.template_task_id p ≡ false
    → contains t.template_task_id q ≡ true
    → outside q ts < outside p ts
outside-lt p q t [] h m out now = elim m [ ]
outside-lt p q t (u ∷ us) h m out now = elim (Memᴰ-cons m) [
  | inl same ↦ ground (
    arith,
    ap (λ (v : Task). contains v.template_task_id p) same,
    ap (λ (v : Task). contains v.template_task_id q) same,
    outside-le p q us h,
  )
  | inr n ↦ ground (arith, h u.template_task_id, outside-lt p q t us h n out now)
]

outside-le-length : (p : List String) (ts : List Task) → outside p ts ≤ length ts
outside-le-length p [] = omega arith
outside-le-length p (t ∷ ts) = ground (arith, outside-le-length p ts)

-- What holds of the set that the loop is to return.
pub record IsClosure (tasks : List Task) (seed p : List String) : Type 0 where
  pub sound : (x : String) → contains x p ≡ true → Poisoned tasks seed x
  pub closed : any (is_fresh p) tasks ≡ false
  pub seeds : Includes seed p

module _ (tasks : List Task) (seed : List String) where
  abbrev IsSound : List String → Type 0
  IsSound p = (x : String) → contains x p ≡ true → Poisoned tasks seed x

  add_fresh-IsSound :
      (p : List String) (t : Task) → Memᴰ t tasks → IsSound p → IsSound (add_fresh p t)
  add_fresh-IsSound p t m sound x h = elim (Bool-cases (is_fresh p t)) [
    | inr e ↦ sound x (rw e at h)
    | inl e ↦ elim (Bool-cases (t.template_task_id == x)) [
      | inr other ↦ sound x (ground (arith, e, h, other))
      | inl same ↦
          let (dep, n, q) = any_witness (λ d. contains d p) t.depends_on (ground (arith, e)) in
          Poisoned.depends t dep m ((eq_iff _ _).0 same) n (sound dep q)
    ]
  ]

  pass-IsSound :
      (ts : List Task) (p : List String) (c : Bool)
      → ((t : Task) → Memᴰ t ts → Memᴰ t tasks)
      → IsSound p
      → IsSound (poison_pass ts p c).0
  unfolding poison_pass
  pass-IsSound [] p c sub sound = sound
  pass-IsSound (t ∷ ts) p c sub sound =
      pass-IsSound ts (add_fresh p t) (is_fresh p t || c) (λ u m. sub u (Memᴰ.tail m))
        (add_fresh-IsSound p t (sub t (Memᴰ.head refl)) sound)

  loop_total :
      (fuel : ℕ) (p : List String)
      → outside p tasks < fuel
      → Includes seed p
      → IsSound p
      → (q : List String) × (poison_loop fuel tasks p ≡ some q) × IsClosure tasks seed q
  unfolding poison_loop
  loop_total zero p h inc sound = absurd (omega arith)
  loop_total (suc fuel) p h inc sound = elim (Bool-cases (poison_pass tasks p false).1) [
    | inl e ↦
        let (t, m, out, now) = pass-changed tasks p e in
        let p' = (poison_pass tasks p false).0 in
        let grows = pass-Includes tasks p false in
        let (q, ends, closure) =
          loop_total fuel p' (omega (arith, outside-lt p p' t tasks grows m out now))
            (λ x s. grows x (inc x s)) (pass-IsSound tasks p false (λ u n. n) sound) in
        (q, rw e ends, closure)
    | inr e ↦
        let (_, same, closed) = pass-unchanged tasks p false e in
        (p, rw (e, same), record { sound = sound; closed = closed; seeds = inc })
  ]

  closure_complete :
      (p : List String)
      → IsClosure tasks seed p
      → (x : String) → Poisoned tasks seed x
      → contains x p ≡ true
  closure_complete p c x (Poisoned.seeded h) = c.seeds x h
  closure_complete p c x (Poisoned.depends t dep m e n r) =
      elim (Bool-cases (contains t.template_task_id p)) [
        | inl known ↦ rw e at known
        | inr out ↦
            let reached = any-mem (λ d. contains d p) n (closure_complete p c dep r) in
            cc (c.closed, any-mem (is_fresh p) m (ground (arith, out, reached)))
      ]

-- For every table of tasks and every seed the loop of `_poisoned_templates` ends within one round
-- more than there are rows, and the set it returns holds exactly the templates that are in the
-- seed or depend, directly or through other rows, on one that is.
pub poisoned_templates-iff-Poisoned :
    (tasks : List Task) (seed : List String)
    → (p : List String) × (poisoned_templates tasks seed ≡ some p)
      × ((x : String) → (contains x p ≡ true) ↔ Poisoned tasks seed x)
unfolding poisoned_templates
poisoned_templates-iff-Poisoned tasks seed =
    let (p, ends, c) =
      loop_total tasks seed (suc (length tasks)) seed (omega (arith, outside-le-length seed tasks))
        (λ x h. h) (λ x h. Poisoned.seeded h) in
    (p, ends, λ x. (c.sound x, closure_complete tasks seed p c x))
