-- ===== src/Session/Store/Refines.antt =====
-- The store of src/oneops/session/store.py as its clients see it: one list of events for each
-- session of a tenant.
use one_ops_next_gen.Prelude.{
  ℕ, ◌≤◌, String, false, List, [], ◌∷◌, ◌++◌, Option, none, some, Key, append-nil, append_assoc,
  key_eq, key_eq_iff, find, remove, find-store, find-remove, filter, if◌then◌else◌, Bool-cases,
  Option-cases, ◌≡◌, ◌⊎◌, inl, inr, refl, ap, ◌∙◌,
}
use one_ops_next_gen.Session.Backend.{Event, HotWindow, key_of, from_turn_on, newest, hot_evict}
use one_ops_next_gen.Session.Backend.Windows.{newest-append}
use one_ops_next_gen.Session.Backend.Laws.{
  key_of_cases, events_under, appended, pushed, events_under-appended, find-pushed,
  find-pushed_miss, find-pushed_hit, hot_evict-none, cold_read-some, hot_evict-some,
}
use one_ops_next_gen.Session.Store.Steps.{
  append_state, append_nameless, recent_nameless, recent_hit, recent_miss,
}
use one_ops_next_gen.Session.Store.{RetentionPolicy, SessionStore, append, recent, replay}

-- What happens to a store: an event comes, the recent ones are read, or a window is dropped.
pub data Op : Type 0 where
  arrives : String → String → Event → Op
  is_read : String → String → Op
  is_dropped : String → String → Op

abbrev pub empty_store : SessionStore
empty_store = record { cold = record { log = []; seq = 0 }; hot = [] }

abbrev with_hot : SessionStore → Option HotWindow → SessionStore
with_hot s none = s
with_hot s (some hot) = record s { hot = hot }

unfoldable step : RetentionPolicy → Op → SessionStore → SessionStore
step policy (Op.arrives tenant_id session_id event) s =
    (append policy tenant_id session_id event s).1
step policy (Op.is_read tenant_id session_id) s = (recent policy tenant_id session_id s).1
step policy (Op.is_dropped tenant_id session_id) s =
    with_hot s (hot_evict tenant_id session_id s.hot)

unfoldable pub run_ops : RetentionPolicy → List Op → SessionStore → SessionStore
unfolding step
run_ops policy [] s = s
run_ops policy (op ∷ ops) s = run_ops policy ops (step policy op s)

-- The events that came for a session.
unfoldable arrived : Key → Op → List Event
arrived k (Op.arrives tenant_id session_id event) =
    if key_eq (tenant_id, session_id) k then event ∷ [] else []
arrived k (Op.is_read tenant_id session_id) = []
arrived k (Op.is_dropped tenant_id session_id) = []

unfoldable pub history : Key → List Op → List Event
unfolding arrived
history k [] = []
history k (op ∷ ops) = arrived k op ++ history k ops

module _ (policy : RetentionPolicy) (keeps : 1 ≤ policy.hot_window_events) where
  -- The log holds the events of a session, and its window, if there is one, the newest.
  IsCurrent : Key → List Event → SessionStore → Type 0
  IsCurrent k es s =
      (events_under k s.cold ≡ es)
      × ((find k s.hot ≡ none) ⊎ (find k s.hot ≡ some (newest policy.hot_window_events es)))

  arrives-IsCurrent :
      (k j : Key) (event : Event) (es : List Event) (s : SessionStore)
      → IsCurrent k es s
      → IsCurrent k (es ++ (if key_eq j k then event ∷ [] else [])) (record {
        cold = appended j event s.cold;
        hot = pushed j event policy.hot_window_events s.hot;
      })
  unfolding IsCurrent
  arrives-IsCurrent k j event es s (logged, cached) = (
    events_under-appended j event s.cold k
        ∙ ap (λ l. l ++ (if key_eq j k then event ∷ [] else [])) logged,
    elim (Bool-cases (key_eq j k)) [
      | inl e ↦
          let same : j ≡ k = (key_eq_iff j k).0 e in
          rw (same, (key_eq_iff k k).1 refl)
            (elim cached [
              | inl miss ↦ inl (find-pushed_miss k event policy.hot_window_events s.hot miss)
              | inr hit ↦ inr (
                  find-pushed_hit k event policy.hot_window_events s.hot _ hit
                  ∙ ap some (newest-append policy.hot_window_events es event))
            ])
      | inr e ↦ rw (e, find-pushed j event policy.hot_window_events s.hot k e, append-nil es) cached
    ],
  )

  recent-IsCurrent :
      (tenant_id session_id : String) (k j : Key) (es : List Event) (s : SessionStore)
      → key_of tenant_id session_id ≡ some j
      → IsCurrent k es s
      → IsCurrent k es (recent policy tenant_id session_id s).1
  unfolding IsCurrent
  recent-IsCurrent tenant_id session_id k j es s keyed (logged, cached) =
      elim (Option-cases (find j s.hot)) [
        | inl miss ↦ rw (recent_miss policy keeps tenant_id session_id j s keyed miss) (
          logged,
          elim (Bool-cases (key_eq j k)) [
            | inl e ↦
                let same : j ≡ k = (key_eq_iff j k).0 e in
                inr (rw (find-store, e, same, logged) refl)
            | inr e ↦ rw (find-store, e) cached
          ],
        )
        | inr (win, hit) ↦
            rw (recent_hit policy keeps tenant_id session_id j s win keyed hit) (logged, cached)
      ]

  with_hot-IsCurrent :
      (k j : Key) (es : List Event) (s : SessionStore)
      → IsCurrent k es s
      → IsCurrent k es (record s { hot = remove j s.hot })
  unfolding IsCurrent
  with_hot-IsCurrent k j es s (logged, cached) = (
    logged,
    elim (Bool-cases (key_eq j k)) [
      | inl e ↦ inl (rw (find-remove, e) refl)
      | inr e ↦ rw (find-remove, e) cached
    ],
  )

  -- A key of its own is not that of a nameless session.
  other_key :
      (t u t' u' : String)
      → key_of t u ≡ some (t, u)
      → key_of t' u' ≡ none
      → key_eq (t', u') (t, u) ≡ false
  other_key t u t' u' keyed none_of = elim (Bool-cases (key_eq (t', u') (t, u))) [
    | inl e ↦
        let same : (t', u') ≡ (t, u) = (key_eq_iff (t', u') (t, u)).0 e in
        cc (none_of, keyed, ap (λ (k : Key). key_of k.0 k.1) same)
    | inr e ↦ e
  ]

  step-IsCurrent :
      (t u : String) (op : Op) (es : List Event) (s : SessionStore)
      → key_of t u ≡ some (t, u)
      → IsCurrent (t, u) es s
      → IsCurrent (t, u) (es ++ arrived (t, u) op) (step policy op s)
  unfolding step arrived
  step-IsCurrent t u (Op.arrives t' u' event) es s keyed now = elim (key_of_cases t' u') [
    | inl e ↦
        rw
          (
            other_key t u t' u' keyed e,
            append-nil es,
            step,
            append_nameless policy keeps t' u' event s e,
          )
          now
    | inr e ↦
        rw (step, append_state policy keeps t' u' (t', u') event s e)
          (arrives-IsCurrent (t, u) (t', u') event es s now)
  ]
  step-IsCurrent t u (Op.is_read t' u') es s keyed now = elim (key_of_cases t' u') [
    | inl e ↦ rw (append-nil es, step, recent_nameless policy keeps t' u' s e) now
    | inr e ↦ rw (append-nil es, step) (recent-IsCurrent t' u' (t, u) (t', u') es s e now)
  ]
  step-IsCurrent t u (Op.is_dropped t' u') es s keyed now = elim (key_of_cases t' u') [
    | inl e ↦ rw (append-nil es, step, hot_evict-none t' u' s.hot e) now
    | inr e ↦
        rw (append-nil es, step, hot_evict-some t' u' e s.hot)
          (with_hot-IsCurrent (t, u) (t', u') es s now)
  ]

  run_ops-IsCurrent :
      (t u : String) (ops : List Op) (es : List Event) (s : SessionStore)
      → key_of t u ≡ some (t, u)
      → IsCurrent (t, u) es s
      → IsCurrent (t, u) (es ++ history (t, u) ops) (run_ops policy ops s)
  unfolding run_ops history
  run_ops-IsCurrent t u [] es s keyed now = rw (append-nil es) now
  run_ops-IsCurrent t u (op ∷ ops) es s keyed now =
      rw (← append_assoc es (arrived (t, u) op) (history (t, u) ops)) (
        run_ops-IsCurrent t u ops (es ++ arrived (t, u) op) (step policy op s) keyed
          (step-IsCurrent t u op es s keyed now))

  -- However events arrive, windows are read and windows are dropped, in any order and for any
  -- sessions, `recent` answers with the newest events that came for the session, as many as the
  -- policy keeps, and `replay` with all of them from the given turn on.
  pub store_refines :
      (tenant_id session_id : String) (ops : List Op) (from_turn : ℕ)
      → key_of tenant_id session_id ≡ some (tenant_id, session_id)
      → ((recent policy tenant_id session_id (run_ops policy ops empty_store)).0
          ≡ some (newest policy.hot_window_events (history (tenant_id, session_id) ops)))
        × (replay policy tenant_id session_id from_turn (run_ops policy ops empty_store)
            ≡ some (filter (from_turn_on from_turn) (history (tenant_id, session_id) ops)))
  unfolding IsCurrent find replay
  store_refines tenant_id session_id ops from_turn keyed =
      let s : SessionStore = run_ops policy ops empty_store in
      let (logged, cached) =
        run_ops-IsCurrent tenant_id session_id ops [] empty_store keyed (refl, inl refl) in
      (
        elim cached [
          | inl miss ↦
              rw
                (
                  recent_miss policy keeps tenant_id session_id (tenant_id, session_id) s keyed
                      miss,
                  logged,
                )
                refl
          | inr hit ↦
              rw
                (recent_hit policy keeps tenant_id session_id (tenant_id, session_id) s _ keyed hit)
                refl
        ],
        rw (cold_read-some tenant_id session_id keyed from_turn s.cold, logged) refl,
      )
