-- ===== src/Router/Exclusions/Survivors.antt =====
-- Which agents survive the exclusions.
use one_ops_next_gen.Prelude.{
  suc, ◌≤◌, String, true, not, List, [], ◌∷◌, ◌++◌, Option, none, some, ◌≡◌, refl, sym, subst, ◌∙◌,
  ◌⊎◌, inl, inr, arith, Dict, lookup, leb, contains, contains_of_mem, filter, mem-filter, Memᴰ,
  Memᴰ-cons, Bool-cases, if_ind,
}
use one_ops_next_gen.Router.Exclusions.{
  ExclusionRef, Agent, back_priority, loser, drop_one, dropped_by, both, dropped_of, dropped, keep,
  apply_exclusions,
}

-- Of two lists that are both there, each member is a member of the whole.
mem-both :
    (a b : Option (List String)) {lost : List String}
    → both a b ≡ some lost
    → (xs : List String) × (ys : List String) × (a ≡ some xs) × (b ≡ some ys) × (lost ≡ xs ++ ys)
unfolding both
mem-both (some xs) (some ys) h = (xs, ys, refl, refl, cc)
mem-both none b h = cc
mem-both (some xs) none h = cc

drop_one-some :
    (agent_id : String) (exc : ExclusionRef) (found : Option Agent) (later : Option (List String))
    {lost : List String}
    → drop_one agent_id exc found later ≡ some lost
    → (other : Agent) × (rest : List String) × (found ≡ some other)
      × (later ≡ some rest)
      × (lost ≡ loser agent_id exc other ∷ rest)
unfolding drop_one
drop_one-some a e (some other) (some rest) h = (other, rest, refl, refl, cc)
drop_one-some a e none later h = cc
drop_one-some a e (some other) none h = cc

-- Each exclusion of a selected agent drops its loser.
loser-dropped_by :
    (agents : Dict Agent) (selected : List String) (agent_id : String)
    (excludes : List ExclusionRef) (lost : List String)
    → dropped_by agents selected agent_id excludes ≡ some lost
    → (exc : ExclusionRef) → Memᴰ exc excludes
    → Memᴰ exc.agent_id selected
    → (other : Agent) × (lookup exc.agent_id agents ≡ some other)
      × Memᴰ (loser agent_id exc other) lost
unfolding dropped_by
loser-dropped_by agents selected a [] lost h exc m s = elim m [ ]
loser-dropped_by agents selected a (e ∷ es) lost h exc m s = elim (Memᴰ-cons m) [
  | inl same ↦
      let c = contains_of_mem (subst (λ x. Memᴰ x.agent_id selected) same s) in
      let (other, rest, f, l, eq) = drop_one-some a e _ _ (rw c at h) in
      (other, rw same f, rw (same, eq) (Memᴰ.head refl))
  | inr n ↦ elim (Bool-cases (contains e.agent_id selected)) [
    | inl c ↦
        let (other, rest, f, l, eq) = drop_one-some a e _ _ (rw c at h) in
        let (other', f', m') = loser-dropped_by agents selected a es rest l exc n s in
        (other', f', subst (λ x. Memᴰ (loser a exc other') x) (sym eq) (Memᴰ.tail m'))
    | inr c ↦ loser-dropped_by agents selected a es lost (rw c at h) exc n s
  ]
]

mem_left : {x : String} {xs : List String} (ys : List String) → Memᴰ x xs → Memᴰ x (xs ++ ys)
mem_left ys (Memᴰ.head e) = Memᴰ.head e
mem_left ys (Memᴰ.tail m) = Memᴰ.tail (mem_left ys m)

mem_right : {x : String} (xs : List String) {ys : List String} → Memᴰ x ys → Memᴰ x (xs ++ ys)
mem_right [] m = m
mem_right (x ∷ xs) m = Memᴰ.tail (mem_right xs m)

loser-dropped :
    (agents : Dict Agent) (selected ids lost : List String) (a : String) (agent : Agent)
    (exc : ExclusionRef)
    → dropped agents selected ids ≡ some lost
    → Memᴰ a ids
    → lookup a agents ≡ some agent
    → Memᴰ exc agent.excludes
    → Memᴰ exc.agent_id selected
    → (other : Agent) × (lookup exc.agent_id agents ≡ some other) × Memᴰ (loser a exc other) lost
unfolding dropped
loser-dropped agents selected [] lost a agent exc h m found e s = elim m [ ]
loser-dropped agents selected (i ∷ ids) lost a agent exc h m found e s =
    let (xs, ys, hx, hy, eq) = mem-both _ _ h in
    elim (Memᴰ-cons m) [
      | inl same ↦
          let mine : dropped_by agents selected a agent.excludes ≡ some xs =
            rw (found, dropped_of) at
              (subst (λ x. dropped_of agents selected x (lookup x agents) ≡ some xs) (sym same)
                hx) in
          let (other, f, n) = loser-dropped_by agents selected a agent.excludes xs mine exc e s in
          (other, f, rw eq (mem_left ys n))
      | inr n ↦
          let (other, f, n') = loser-dropped agents selected ids ys a agent exc hy n found e s in
          (other, f, rw eq (mem_right xs n'))
    ]

kept_list :
    (ids lost : List String) {kept : List String}
    → keep ids (some lost) ≡ some kept
    → kept ≡ filter (λ a. not (contains a lost)) ids
unfolding keep
kept_list ids lost h = cc

-- A survivor was selected and not dropped.
mem-apply_exclusions :
    (agents : Dict Agent) (ids kept : List String)
    → apply_exclusions agents ids ≡ some kept
    → (lost : List String) × (dropped agents ids ids ≡ some lost)
      × ((a : String) → Memᴰ a kept → Memᴰ a ids × ¬ (Memᴰ a lost))
unfolding apply_exclusions
mem-apply_exclusions agents ids kept h = go (dropped agents ids ids) refl h
  where
    go :
        (o : Option (List String))
        → dropped agents ids ids ≡ o
        → keep ids o ≡ some kept
        → (lost : List String) × (dropped agents ids ids ≡ some lost)
          × ((a : String) → Memᴰ a kept → Memᴰ a ids × ¬ (Memᴰ a lost))
    go none e k = cc
    go (some lost) e k = (
      lost,
      e,
      λ a m.
          let held = λ (x : String). not (contains x lost) in
          let (n, q) = mem-filter held a ids (subst (λ x. Memᴰ a x) (kept_list ids lost k) m) in
          (n, λ d. cc (q, contains_of_mem d)),
    )

one_lost :
    (a : String) (exc : ExclusionRef) (other : Agent)
    → (loser a exc other ≡ exc.agent_id) ⊎ (loser a exc other ≡ a)
unfolding loser
one_lost a exc other =
    if_ind (λ x. (x ≡ exc.agent_id) ⊎ (x ≡ a))
      (leb (back_priority a other.excludes) (suc exc.priority)) (inl refl) (inr refl)

-- The survivors of a selection get along: each was selected, and none of them declares an exclusion
-- of another, or of itself. The selection is to name agents of the registry, so that there is a
-- result.
pub apply_exclusions_agree :
    (agents : Dict Agent) (ids kept : List String)
    → apply_exclusions agents ids ≡ some kept
    → (a : String) (agent : Agent) (exc : ExclusionRef) → Memᴰ a kept
    → lookup a agents ≡ some agent
    → Memᴰ exc agent.excludes
    → Memᴰ a ids × ¬ (Memᴰ exc.agent_id kept)
apply_exclusions_agree agents ids kept h a agent exc m found e =
    let (lost, d, survived) = mem-apply_exclusions agents ids kept h in
    let (here, not_lost) = survived a m in
    (
      here,
      λ b.
          let (there, not_lost') = survived exc.agent_id b in
          let (other, f, l) = loser-dropped agents ids ids lost a agent exc d here found e there in
          elim (one_lost a exc other) [
            | inl eq ↦ not_lost' (subst (λ x. Memᴰ x lost) eq l)
            | inr eq ↦ not_lost (subst (λ x. Memᴰ x lost) eq l)
          ],
    )

loser_of_tie :
    (a : String) (exc : ExclusionRef) (other : Agent)
    → back_priority a other.excludes ≤ suc exc.priority
    → loser a exc other ≡ exc.agent_id
unfolding loser
loser_of_tie a exc other h =
    let kept : leb (back_priority a other.excludes) (suc exc.priority) ≡ true = ground arith in
    rw kept

lost_to :
    (agents : Dict Agent) (ids lost : List String) (a b : String) (agent other : Agent)
    (exc : ExclusionRef)
    → dropped agents ids ids ≡ some lost
    → Memᴰ a ids
    → lookup a agents ≡ some agent
    → Memᴰ exc agent.excludes
    → exc.agent_id ≡ b
    → Memᴰ b ids
    → lookup b agents ≡ some other
    → back_priority a other.excludes ≤ suc exc.priority
    → Memᴰ b lost
lost_to agents ids lost a b agent other exc d m found e named mb fb le =
    let (other', f, l) =
      loser-dropped agents ids ids lost a agent exc d m found e
        (subst (λ x. Memᴰ x ids) (sym named) mb) in
    let f' : lookup b agents ≡ some other' = subst (λ x. lookup x agents ≡ some other') named f in
    let same : other ≡ other' = cc in
    let lower = subst (λ (x : Agent). back_priority a x.excludes ≤ suc exc.priority) same le in
    subst (λ x. Memᴰ x lost) (loser_of_tie a exc other' lower ∙ named) l

-- Two selected agents that exclude each other at the same priority are both dropped.
pub apply_exclusions_tie :
    (agents : Dict Agent) (ids kept : List String)
    → apply_exclusions agents ids ≡ some kept
    → (a b : String) (agent_a agent_b : Agent) (exc_a exc_b : ExclusionRef) → Memᴰ a ids
    → Memᴰ b ids
    → lookup a agents ≡ some agent_a
    → lookup b agents ≡ some agent_b
    → Memᴰ exc_a agent_a.excludes
    → Memᴰ exc_b agent_b.excludes
    → exc_a.agent_id ≡ b
    → exc_b.agent_id ≡ a
    → back_priority a agent_b.excludes ≡ suc exc_a.priority
    → back_priority b agent_a.excludes ≡ suc exc_b.priority
    → ¬ (Memᴰ a kept) × ¬ (Memᴰ b kept)
apply_exclusions_tie agents ids kept h a b agent_a agent_b exc_a exc_b ma mb fa fb ea eb na nb pa
      pb =
    let (lost, d, survived) = mem-apply_exclusions agents ids kept h in
    (
      λ m. (survived a m).1 (
          lost_to agents ids lost b a agent_b agent_a exc_b d mb fb eb nb ma fa
            (omega (arith, pb))),
      λ m. (survived b m).1 (
          lost_to agents ids lost a b agent_a agent_b exc_a d ma fa ea na mb fb
            (omega (arith, pa))),
    )
