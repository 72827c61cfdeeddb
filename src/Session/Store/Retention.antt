-- ===== src/Session/Store/Retention.antt =====
-- `apply_retention` of src/oneops/session/store.py.
use one_ops_next_gen.Prelude.{
  ℕ, ◌+◌, ◌≤◌, String, Bool, true, false, List, [], ◌∷◌, map, some, Key, Table, key_eq, key_eq_iff,
  find, filter, leb, if◌then◌else◌, ◌==◌, length, Bool-cases, ◌≡◌, inl, inr, refl, ap, arith,
}
use one_ops_next_gen.Session.Backend.{Event, or_empty, event_of, is_kept, prune_log, cold_prune}
use one_ops_next_gen.Session.Backend.Laws.{events_under}
use one_ops_next_gen.Session.Store.{
  RetentionPolicy, SessionStore, cold_cutoff, apply_retention, pruned,
}

-- The events of a log, whoever they belong to.
unfoldable pub total : Table (List (ℕ × Event)) → ℕ
total [] = 0
total ((k, es) ∷ rest) = length es + total rest

-- An event of the cutoff or after it.
unfoldable pub is_recent : ℕ → Event → Bool
is_recent cutoff event = leb cutoff event.occurred_at_unix_ms

length-filter_le {ℓ} : {A : Type ℓ} (p : A → Bool) (xs : List A) → length (filter p xs) ≤ length xs
length-filter_le p [] = omega arith
length-filter_le p (x ∷ xs) = ground (arith, length-filter_le p xs)

map-filter_kept :
    (cutoff : ℕ) (es : List (ℕ × Event))
    → map event_of (filter (is_kept cutoff) es) ≡ filter (is_recent cutoff) (map event_of es)
unfolding event_of is_kept is_recent
map-filter_kept cutoff [] = refl
map-filter_kept cutoff ((seq, e) ∷ es) =
    let ih = map-filter_kept cutoff es in
    elim (Bool-cases (leb cutoff e.occurred_at_unix_ms)) [
      | inl h ↦ rw h (ap (λ r. e ∷ r) ih)
      | inr h ↦ rw h ih
    ]

prune_log-total :
    (t : String) (cutoff : ℕ) (log : Table (List (ℕ × Event)))
    → (prune_log t cutoff log).0 + total (prune_log t cutoff log).1 ≡ total log
unfolding prune_log total
prune_log-total t cutoff [] = refl
prune_log-total t cutoff (((tenant, session), es) ∷ rest) =
    let ih = prune_log-total t cutoff rest in
    let less = length-filter_le (is_kept cutoff) es in
    elim (Bool-cases (tenant == t)) [
      | inl h ↦ rw h (omega (arith, ih, less))
      | inr h ↦ rw h (omega (arith, ih))
    ]

find-prune_log :
    (t : String) (cutoff : ℕ) (log : Table (List (ℕ × Event))) (k : Key)
    → map event_of (or_empty (find k (prune_log t cutoff log).1)) ≡ (
        if k.0 == t
        then filter (is_recent cutoff) (map event_of (or_empty (find k log)))
        else map event_of (or_empty (find k log)))
unfolding prune_log find
find-prune_log t cutoff [] k = elim (Bool-cases (k.0 == t)) [
  | inl h ↦ rw h refl
  | inr h ↦ rw h refl
]
find-prune_log t cutoff (((a, b), es) ∷ rest) k =
    let ih = find-prune_log t cutoff rest k in
    elim (Bool-cases (a == t)) [
      | inl h ↦ elim (Bool-cases (key_eq (a, b) k)) [
        | inl e ↦
            let own : (k.0 == t) ≡ true = rw (← (key_eq_iff (a, b) k).0 e) h in
            rw (prune_log, h, find, e, own) (map-filter_kept cutoff es)
        | inr e ↦ rw (prune_log, h, find, e) ih
      ]
      | inr h ↦ elim (Bool-cases (key_eq (a, b) k)) [
        | inl e ↦
            let other : (k.0 == t) ≡ false = rw (← (key_eq_iff (a, b) k).0 e) h in
            rw (prune_log, h, find, e, other) refl
        | inr e ↦ rw (prune_log, h, find, e) ih
      ]
    ]

-- A run of retention for a tenant takes the events before the cutoff out of the log of the tenant's
-- own sessions, and leaves the others, the other tenants' logs and every window as they were; its
-- result is the number of events that went.
pub apply_retention_exact :
    (policy : RetentionPolicy) (tenant_id : String) (now : ℕ) (s : SessionStore)
    → (tenant_id == "") ≡ false
    → ((k : Key)
        → events_under k (apply_retention policy tenant_id now s).1.cold ≡ (
            if k.0 == tenant_id
            then filter (is_recent (cold_cutoff policy now)) (events_under k s.cold)
            else events_under k s.cold))
      × ((apply_retention policy tenant_id now s).1.hot ≡ s.hot)
      × ((removed : ℕ) × ((apply_retention policy tenant_id now s).0 ≡ some removed)
          × (removed + total (apply_retention policy tenant_id now s).1.cold.log
              ≡ total s.cold.log))
unfolding apply_retention pruned cold_prune
apply_retention_exact policy tenant_id now s e = rw e (
  λ k. find-prune_log tenant_id (cold_cutoff policy now) s.cold.log k,
  refl,
  (
    (prune_log tenant_id (cold_cutoff policy now) s.cold.log).0,
    refl,
    prune_log-total tenant_id (cold_cutoff policy now) s.cold.log,
  ),
)
