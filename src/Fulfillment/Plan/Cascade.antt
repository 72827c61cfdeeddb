-- ===== src/Fulfillment/Plan/Cascade.antt =====
-- Which rows a failure takes down: `_transitively_blocked_task_ids` of executor.py.
use one_ops_next_gen.Prelude.{
  ℕ, String, true, ◌&&◌, List, [], ◌∷◌, map, some, ◌≡◌, refl, ap, inl, inr, arith, Memᴰ, Memᴰ-cons,
  mem-filter, mem-filter_of_mem, filter, contains,
}
use one_ops_next_gen.Fulfillment.Contracts.{Task, TaskState}
use one_ops_next_gen.Fulfillment.Plan.{
  is_waiting, failed_templates, skips_below, transitively_blocked_task_ids,
}
use one_ops_next_gen.Fulfillment.Plan.Poison.{Poisoned, poisoned_templates-iff-Poisoned}

abbrev entry : Task → String × TaskState × ℕ
entry t = (t.task_id, t.state, t.version)

mem-map-entry :
    (x : String × TaskState × ℕ) (ts : List Task)
    → Memᴰ x (map entry ts)
    → (t : Task) × Memᴰ t ts × (x ≡ entry t)
mem-map-entry x [] m = elim m [ ]
mem-map-entry x (t ∷ ts) m = elim (Memᴰ-cons m) [
  | inl e ↦ (t, Memᴰ.head refl, e)
  | inr n ↦ let (u, k, e) = mem-map-entry x ts n in (u, Memᴰ.tail k, e)
]

mem-map_entry_of_mem : {t : Task} {ts : List Task} → Memᴰ t ts → Memᴰ (entry t) (map entry ts)
mem-map_entry_of_mem (Memᴰ.head e) = Memᴰ.head (ap entry e)
mem-map_entry_of_mem (Memᴰ.tail m) = Memᴰ.tail (mem-map_entry_of_mem m)

-- What is to be skipped, below a seed.
pub record IsCascade (tasks : List Task) (seed : List String) (l : List (String × TaskState × ℕ))
    : Type 0 where
  pub sound :
      (x : String × TaskState × ℕ)
      → Memᴰ x l
      → (t : Task) × Memᴰ t tasks
        × (x ≡ entry t)
        × (is_waiting t.state ≡ true)
        × Poisoned tasks seed t.template_task_id
  pub complete :
      (t : Task)
      → Memᴰ t tasks
      → is_waiting t.state ≡ true
      → Poisoned tasks seed t.template_task_id
      → Memᴰ (entry t) l

not-Poisoned-nil : {tasks : List Task} {x : String} → ¬ Poisoned tasks [] x
not-Poisoned-nil (Poisoned.seeded h) = cc
not-Poisoned-nil (Poisoned.depends t dep m e n r) = not-Poisoned-nil r

skips_below_lem :
    (tasks : List Task) (seed : List String)
    → (l : List (String × TaskState × ℕ)) × (skips_below tasks seed ≡ some l)
      × IsCascade tasks seed l
unfolding skips_below
skips_below_lem tasks [] = (
  [],
  refl,
  record { sound = λ x m. elim m [ ]; complete = λ t m w r. absurd (not-Poisoned-nil r) },
)
skips_below_lem tasks (s ∷ ss) =
    let (p, ends, iff) = poisoned_templates-iff-Poisoned tasks (s ∷ ss) in
    let test = λ (t : Task). is_waiting t.state && contains t.template_task_id p in
    (
      map entry (filter test tasks),
      rw ends refl,
      record {
        sound = λ x m.
            let (t, n, e) = mem-map-entry x (filter test tasks) m in
            let (k, ok) = mem-filter test t tasks n in
            (t, k, e, ground (arith, ok), (iff t.template_task_id).0 (ground (arith, ok)));
        complete = λ t m w r.
            let known = (iff t.template_task_id).1 r in
            mem-map_entry_of_mem (mem-filter_of_mem test t tasks m (ground (arith, w, known)));
      },
    )

-- `_transitively_blocked_task_ids` always answers, and its list is exactly the id, state and version
-- of each row that is pending or ready and whose template depends, at any depth, on a failed row's
-- (or is one).
pub transitively_blocked_task_ids_lem :
    (tasks : List Task)
    → (l : List (String × TaskState × ℕ)) × (transitively_blocked_task_ids tasks ≡ some l)
      × IsCascade tasks (failed_templates tasks) l
unfolding transitively_blocked_task_ids
transitively_blocked_task_ids_lem tasks = skips_below_lem tasks (failed_templates tasks)
