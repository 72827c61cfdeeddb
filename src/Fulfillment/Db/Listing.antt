-- ===== src/Fulfillment/Db/Listing.antt =====
-- Rows under UPDATE and SELECT (db.py): what an update makes of each row, and what a listing holds.
use one_ops_next_gen.Prelude.{
  String, Bool, false, List, [], ◌∷◌, ◌≡◌, refl, sym, ap, ◌∙◌, ◌⊎◌, inl, inr, arith, Memᴰ,
  Memᴰ-cons, mem-filter, ltb, if◌then◌else◌, Bool-cases, eq_iff,
}
use one_ops_next_gen.Fulfillment.Contracts.{Task}
use one_ops_next_gen.Fulfillment.Db.{
  Db, update_tasks, insert_freshest, order_freshest, is_of_ritm, list_tasks_for_ritm,
}

-- The primary key of itsm.task: rows of one tenant and id are one row.
abbrev pub HasKeys : List Task → Type 0
HasKeys ts =
    (t u : Task) → Memᴰ t ts → Memᴰ u ts → t.tenant_id ≡ u.tenant_id → t.task_id ≡ u.task_id → t ≡ u

module _ (test : Task → Bool) (set : Task → Task) where
  abbrev updated : Task → Task
  updated t = if test t then set t else t

  -- Each row after an UPDATE is a row before it, updated if it passes.
  pub mem-update_tasks :
      (u : Task) (ts : List Task)
      → Memᴰ u (update_tasks test set ts).0
      → (t : Task) × Memᴰ t ts × (u ≡ updated t)
  unfolding update_tasks
  mem-update_tasks u [] m = elim m [ ]
  mem-update_tasks u (t ∷ ts) m = elim (Bool-cases (test t)) [
    | inl e ↦ elim (Memᴰ-cons (rw (e, update_tasks) at m)) [
      | inl same ↦ (t, Memᴰ.head refl, rw e same)
      | inr n ↦ let (v, k, same) = mem-update_tasks u ts n in (v, Memᴰ.tail k, same)
    ]
    | inr e ↦ elim (Memᴰ-cons (rw (e, update_tasks) at m)) [
      | inl same ↦ (t, Memᴰ.head refl, rw e same)
      | inr n ↦ let (v, k, same) = mem-update_tasks u ts n in (v, Memᴰ.tail k, same)
    ]
  ]

  -- A row that does not pass stays.
  pub mem-update_tasks_kept :
      (u : Task) (ts : List Task) → test u ≡ false → Memᴰ u ts → Memᴰ u (update_tasks test set ts).0
  unfolding update_tasks
  mem-update_tasks_kept u [] out m = elim m [ ]
  mem-update_tasks_kept u (t ∷ ts) out m = elim (Memᴰ-cons m) [
    | inl same ↦
        let e : test t ≡ false = ap test (sym same) ∙ out in rw (e, update_tasks) (Memᴰ.head same)
    | inr n ↦
        let rest = mem-update_tasks_kept u ts out n in
        elim (Bool-cases (test t)) [
          | inl e ↦ rw (e, update_tasks) (Memᴰ.tail rest)
          | inr e ↦ rw (e, update_tasks) (Memᴰ.tail rest)
        ]
  ]

  abbrev pub KeepsKeys : Type 0
  KeepsKeys = (t : Task) → ((set t).tenant_id ≡ t.tenant_id) × ((set t).task_id ≡ t.task_id)

  updated-key :
      KeepsKeys
      → (t : Task) → ((updated t).tenant_id ≡ t.tenant_id) × ((updated t).task_id ≡ t.task_id)
  updated-key same t = elim (Bool-cases (test t)) [
    | inl e ↦ rw e (same t)
    | inr e ↦ rw e (refl, refl)
  ]

  -- An UPDATE that writes neither of its columns keeps the primary key.
  pub update_tasks-HasKeys :
      (ts : List Task) → KeepsKeys → HasKeys ts → HasKeys (update_tasks test set ts).0
  update_tasks-HasKeys ts same keys t u mt mu et ei =
      let (t', nt, pt) = mem-update_tasks t ts mt in
      let (u', nu, pu) = mem-update_tasks u ts mu in
      let (tt, ti) = updated-key same t' in
      let (ut, ui) = updated-key same u' in
      let tenant = λ (v : Task). v.tenant_id in
      let id = λ (v : Task). v.task_id in
      pt
      ∙ ap updated (
          keys t' u' nt nu (sym tt ∙ sym (ap tenant pt) ∙ et ∙ ap tenant pu ∙ ut)
            (sym ti ∙ sym (ap id pt) ∙ ei ∙ ap id pu ∙ ui))
      ∙ sym pu

insert_freshest-mem :
    (t u : Task) (ts : List Task) → Memᴰ t (insert_freshest u ts) → (t ≡ u) ⊎ Memᴰ t ts
unfolding insert_freshest
insert_freshest-mem t u [] m = Memᴰ-cons m
insert_freshest-mem t u (v ∷ vs) m = elim (Bool-cases (ltb u.updated_at v.updated_at)) [
  | inr e ↦ Memᴰ-cons (rw (e, insert_freshest) at m)
  | inl e ↦ elim (Memᴰ-cons (rw (e, insert_freshest) at m)) [
    | inl same ↦ inr (Memᴰ.head same)
    | inr n ↦ elim (insert_freshest-mem t u vs n) [ inl x ↦ inl x | inr k ↦ inr (Memᴰ.tail k) ]
  ]
]

order_freshest-mem : (t : Task) (ts : List Task) → Memᴰ t (order_freshest ts) → Memᴰ t ts
unfolding order_freshest
order_freshest-mem t [] m = m
order_freshest-mem t (u ∷ us) m = elim (insert_freshest-mem t u (order_freshest us) m) [
  | inl same ↦ Memᴰ.head same
  | inr n ↦ Memᴰ.tail (order_freshest-mem t us n)
]

-- A listed row is a row of the table, of that tenant and request item.
pub mem-list_tasks_for_ritm :
    (t : Task) (tenant_id ritm_id : String) (db : Db)
    → Memᴰ t (list_tasks_for_ritm tenant_id ritm_id db)
    → Memᴰ t db.tasks × (t.tenant_id ≡ tenant_id) × (t.ritm_id ≡ ritm_id)
unfolding list_tasks_for_ritm is_of_ritm
mem-list_tasks_for_ritm t tenant_id ritm_id db m =
    let (n, ok) = mem-filter (is_of_ritm tenant_id ritm_id) t db.tasks (order_freshest-mem t _ m) in
    (
      n,
      ground (arith, ok, eq_iff t.tenant_id tenant_id),
      ground (arith, ok, eq_iff t.ritm_id ritm_id),
    )
