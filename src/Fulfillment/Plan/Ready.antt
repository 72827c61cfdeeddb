-- ===== src/Fulfillment/Plan/Ready.antt =====
-- `_ready_task_ids` of executor.py: what a task that is reported as ready may rely on.
use one_ops_next_gen.Prelude.{
  String, true, List, [], ◌∷◌, map, some, ◌≡◌, refl, sym, ap, ◌∙◌, ◌⊎◌, inl, inr, arith, Memᴰ,
  Memᴰ-cons, Dict, lookup, insert, lookup-insert_cases, lookup-insert_self, lookup-insert, all-mem,
  all_intro, filter, mem-filter, mem-filter_of_mem, Bool-cases, Option-cases, ◌==◌,
}
use one_ops_next_gen.Fulfillment.Contracts.{Task}
use one_ops_next_gen.Fulfillment.Plan.{
  by_template_onto, by_template, settled_row, deps_ok, is_ready, ready_task_ids, is_waiting,
  is_settled,
}

-- `dep` names a row of the plan that is done or skipped.
pub record IsSettledDep (tasks : List Task) (dep : String) : Type 0 where
  pub row : Task
  pub listed : Memᴰ row tasks
  pub named : row.template_task_id ≡ dep
  pub settled : is_settled row.state ≡ true

-- Every entry of the dictionary is a row under its own template.
abbrev IsIndexed : List Task → Dict Task → Type 0
IsIndexed tasks d =
    (k : String) (t : Task) → lookup k d ≡ some t → Memᴰ t tasks × (t.template_task_id ≡ k)

insert-IsIndexed :
    (tasks : List Task) (d : Dict Task) (t : Task)
    → Memᴰ t tasks
    → IsIndexed tasks d
    → IsIndexed tasks (insert t.template_task_id t d)
insert-IsIndexed tasks d t m h k u e = elim (lookup-insert_cases t.template_task_id k t d e) [
  | inl (named, same) ↦ (rw same at m, ap (λ (v : Task). v.template_task_id) (sym same) ∙ named)
  | inr old ↦ h k u old
]

by_template_onto-IsIndexed :
    (tasks : List Task) (d : Dict Task) (ts : List Task)
    → ((t : Task) → Memᴰ t ts → Memᴰ t tasks)
    → IsIndexed tasks d
    → IsIndexed tasks (by_template_onto d ts)
unfolding by_template_onto
by_template_onto-IsIndexed tasks d [] sub h = h
by_template_onto-IsIndexed tasks d (t ∷ ts) sub h =
    by_template_onto-IsIndexed tasks (insert t.template_task_id t d) ts (λ u m. sub u (Memᴰ.tail m))
      (insert-IsIndexed tasks d t (sub t (Memᴰ.head refl)) h)

by_template-IsIndexed : (tasks : List Task) → IsIndexed tasks (by_template tasks)
unfolding by_template lookup
by_template-IsIndexed tasks = by_template_onto-IsIndexed tasks [] tasks (λ t m. m) (λ k t e. cc)

deps_ok-IsSettledDep :
    (tasks : List Task) (t : Task) (dep : String)
    → deps_ok (by_template tasks) t ≡ true
    → Memᴰ dep t.depends_on
    → IsSettledDep tasks dep
unfolding deps_ok
deps_ok-IsSettledDep tasks t dep h m =
    let ok = all-mem (λ d. settled_row (lookup d (by_template tasks))) m h in
    elim (Option-cases (lookup dep (by_template tasks))) [
      | inl e ↦ cc (rw (e, settled_row) at ok)
      | inr (row, e) ↦
          let (listed, named) = by_template-IsIndexed tasks dep row e in
          record { row = row; listed = listed; named = named; settled = rw (e, settled_row) at ok }
    ]

mem-map_id :
    (x : String) (ts : List Task)
    → Memᴰ x (map (λ t. t.task_id) ts)
    → (t : Task) × Memᴰ t ts × (t.task_id ≡ x)
mem-map_id x [] m = elim m [ ]
mem-map_id x (t ∷ ts) m = elim (Memᴰ-cons m) [
  | inl e ↦ (t, Memᴰ.head refl, sym e)
  | inr n ↦ let (u, k, e) = mem-map_id x ts n in (u, Memᴰ.tail k, e)
]

-- Each id that `_ready_task_ids` returns is that of a row of the plan which is still pending or
-- ready, and each of whose dependencies names a row of the plan that is done or skipped.
pub ready_task_ids_sound :
    (tasks : List Task) (task_id : String)
    → Memᴰ task_id (ready_task_ids tasks)
    → (t : Task) × Memᴰ t tasks
      × (t.task_id ≡ task_id)
      × (is_waiting t.state ≡ true)
      × ((dep : String) → Memᴰ dep t.depends_on → IsSettledDep tasks dep)
unfolding ready_task_ids is_ready
ready_task_ids_sound tasks task_id m =
    let (t, listed, named) = mem-map_id task_id (filter (is_ready (by_template tasks)) tasks) m in
    let (n, ok) = mem-filter (is_ready (by_template tasks)) t tasks listed in
    (
      t,
      n,
      named,
      ground (arith, ok),
      λ dep d. deps_ok-IsSettledDep tasks t dep (ground (arith, ok)) d,
    )

lookup-by_template_onto :
    (k : String) (d : Dict Task) (ts : List Task)
    → ((t : Task) × (lookup k d ≡ some t)) ⊎ ((t : Task) × Memᴰ t ts × (t.template_task_id ≡ k))
    → (t : Task) × (lookup k (by_template_onto d ts) ≡ some t)
unfolding by_template_onto
lookup-by_template_onto k d [] (inl found) = found
lookup-by_template_onto k d [] (inr (t, m, e)) = elim m [ ]
lookup-by_template_onto k d (u ∷ us) (inl (t, e)) =
    lookup-by_template_onto k (insert u.template_task_id u d) us
      (elim (Bool-cases (u.template_task_id == k)) [
        | inl same ↦ inl (u, rw (lookup-insert, same))
        | inr other ↦ inl (t, rw (lookup-insert, other) e)
      ])
lookup-by_template_onto k d (u ∷ us) (inr (t, m, e)) =
    lookup-by_template_onto k (insert u.template_task_id u d) us (elim (Memᴰ-cons m) [
      | inl same ↦ inl (u, rw (← e) (rw same (lookup-insert_self u.template_task_id u d)))
      | inr n ↦ inr (t, n, e)
    ])

mem-map_task_id : {t : Task} {ts : List Task} → Memᴰ t ts → Memᴰ t.task_id (map (λ u. u.task_id) ts)
mem-map_task_id (Memᴰ.head e) = Memᴰ.head (ap (λ (u : Task). u.task_id) e)
mem-map_task_id (Memᴰ.tail m) = Memᴰ.tail (mem-map_task_id m)

-- Conversely a pending or ready row is returned as ready if each of its dependencies names a row of
-- the plan and every row that one of them names is done or skipped.
pub ready_task_ids_complete :
    (tasks : List Task) (t : Task)
    → Memᴰ t tasks
    → is_waiting t.state ≡ true
    → ((dep : String)
        → Memᴰ dep t.depends_on
        → (u : Task) × Memᴰ u tasks × (u.template_task_id ≡ dep))
    → ((u : Task) → Memᴰ u tasks → Memᴰ u.template_task_id t.depends_on → is_settled u.state ≡ true)
    → Memᴰ t.task_id (ready_task_ids tasks)
unfolding ready_task_ids is_ready by_template deps_ok settled_row
ready_task_ids_complete tasks t m waiting known settled =
    mem-map_task_id
      (mem-filter_of_mem (is_ready (by_template tasks)) t tasks m (ground (arith, waiting, ok)))
  where
    settled_dep :
        (dep : String) → Memᴰ dep t.depends_on → settled_row (lookup dep (by_template tasks)) ≡ true
    settled_dep dep n =
        let (row, e) = lookup-by_template_onto dep [] tasks (inr (known dep n)) in
        let (listed, named) = by_template-IsIndexed tasks dep row e in
        rw e (settled row listed (rw named n))

    ok : deps_ok (by_template tasks) t ≡ true
    ok = all_intro (λ dep. settled_row (lookup dep (by_template tasks))) t.depends_on settled_dep
