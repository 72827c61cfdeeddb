-- ===== src/Session/Backend/Laws.antt =====
-- The operations of src/oneops/session/backend.py under a key, and without one.
use one_ops_next_gen.Prelude.{
  ℕ, suc, ◌≤◌, String, true, false, ◌||◌, List, [], ◌∷◌, ◌++◌, map, none, some, Key, key_eq,
  key_eq_iff, find, store, remove, find-store, filter, append-nil, if◌then◌else◌, ◌==◌, Bool-cases,
  Option-cases, ltb, ◌≡◌, ◌⊎◌, inl, inr, refl, sym, ap, arith,
}
use one_ops_next_gen.Session.Backend.{
  Event, EventLog, HotWindow, key_of, entries, event_of, from_turn_on, newest, hot_push, hot_evict,
  log_append, cold_append, push_onto, window_push, log_read, cold_read, hot_window, found_window,
  hot_replace, set_window, drop_window,
}

pub key_of_cases :
    (tenant_id session_id : String)
    → (key_of tenant_id session_id ≡ none)
      ⊎ (key_of tenant_id session_id ≡ some (tenant_id, session_id))
unfolding key_of
key_of_cases tenant_id session_id = elim (Bool-cases (tenant_id == "" || session_id == "")) [
  | inl e ↦ inl (rw e)
  | inr e ↦ inr (rw e)
]

-- The events under a key.
abbrev pub events_under : Key → EventLog → List Event
events_under k cold = map event_of (entries k cold)

-- The log after an append under a key.
abbrev pub appended : Key → Event → EventLog → EventLog
appended k event cold = record {
  log = store k (entries k cold ++ ((suc cold.seq, event) ∷ [])) cold.log;
  seq = suc cold.seq;
}

abbrev pub pushed : Key → Event → ℕ → HotWindow → HotWindow
pushed k event n hot = push_onto k event n hot (find k hot)

map-append_one :
    (es : List (ℕ × Event)) (e : ℕ × Event)
    → map event_of (es ++ (e ∷ [])) ≡ map event_of es ++ (event_of e ∷ [])
map-append_one [] e = refl
map-append_one (x ∷ es) e = ap (λ r. event_of x ∷ r) (map-append_one es e)

pub events_under-appended :
    (k : Key) (event : Event) (cold : EventLog) (j : Key)
    → events_under j (appended k event cold)
      ≡ events_under j cold ++ (if key_eq k j then event ∷ [] else [])
unfolding event_of
events_under-appended k event cold j = elim (Bool-cases (key_eq k j)) [
  | inl e ↦
      let same : k ≡ j = (key_eq_iff k j).0 e in
      rw (find-store, e, same) (map-append_one (entries j cold) (suc cold.seq, event))
  | inr e ↦ rw (find-store, e) (sym (append-nil (events_under j cold)))
]

pub find-pushed :
    (k : Key) (event : Event) (n : ℕ) (hot : HotWindow) (j : Key)
    → key_eq k j ≡ false
    → find j (pushed k event n hot) ≡ find j hot
unfolding push_onto
find-pushed k event n hot j e = elim (Option-cases (find k hot)) [
  | inl h ↦ rw h
  | inr (w, h) ↦ rw (h, find-store, e)
]

pub find-pushed_miss :
    (k : Key) (event : Event) (n : ℕ) (hot : HotWindow)
    → find k hot ≡ none
    → find k (pushed k event n hot) ≡ none
unfolding push_onto
find-pushed_miss k event n hot h = rw h h

pub find-pushed_hit :
    (k : Key) (event : Event) (n : ℕ) (hot : HotWindow) (win : List Event)
    → find k hot ≡ some win
    → find k (pushed k event n hot) ≡ some (newest n (win ++ (event ∷ [])))
unfolding push_onto
find-pushed_hit k event n hot win h = rw (h, find-store, (key_eq_iff k k).1 refl)

-- Every turn is one from turn 0 on.
pub filter-from_turn_on_zero : (es : List Event) → filter (from_turn_on 0) es ≡ es
unfolding from_turn_on
filter-from_turn_on_zero [] = refl
filter-from_turn_on_zero (e ∷ es) =
    let here : from_turn_on 0 e ≡ true = ground arith in rw (here, filter-from_turn_on_zero es) refl

module _ (tenant_id session_id : String) where
  pub cold_append-none :
      (event : Event) (cold : EventLog)
      → key_of tenant_id session_id ≡ none
      → cold_append tenant_id session_id event cold ≡ none
  unfolding cold_append log_append
  cold_append-none event cold e = rw e

  pub hot_window-none :
      (hot : HotWindow)
      → key_of tenant_id session_id ≡ none
      → hot_window tenant_id session_id hot ≡ none
  unfolding hot_window found_window
  hot_window-none hot e = rw e

  pub hot_evict-none :
      (hot : HotWindow)
      → key_of tenant_id session_id ≡ none
      → hot_evict tenant_id session_id hot ≡ none
  unfolding hot_evict drop_window
  hot_evict-none hot e = rw e

  module _ {k : Key} (keyed : key_of tenant_id session_id ≡ some k) where
    pub cold_append-some :
        (event : Event) (cold : EventLog)
        → cold_append tenant_id session_id event cold ≡ some (suc cold.seq, appended k event cold)
    unfolding cold_append log_append
    cold_append-some event cold = rw keyed

    pub cold_read-some :
        (from_turn : ℕ) (cold : EventLog)
        → cold_read tenant_id session_id from_turn cold
          ≡ some (filter (from_turn_on from_turn) (events_under k cold))
    unfolding cold_read log_read
    cold_read-some from_turn cold = rw keyed

    pub hot_push-some :
        (event : Event) (n : ℕ) (hot : HotWindow)
        → 1 ≤ n
        → hot_push tenant_id session_id event n hot ≡ some (pushed k event n hot)
    unfolding hot_push window_push push_onto
    hot_push-some event n hot h =
        let decided : ltb n 1 ≡ false = ground arith in rw (keyed, decided) refl

    pub hot_window-some :
        (hot : HotWindow) → hot_window tenant_id session_id hot ≡ some (find k hot)
    unfolding hot_window found_window
    hot_window-some hot = rw keyed

    pub hot_replace-some :
        (events : List Event) (hot : HotWindow)
        → hot_replace tenant_id session_id events hot ≡ some (store k events hot)
    unfolding hot_replace set_window
    hot_replace-some events hot = rw keyed

    pub hot_evict-some :
        (hot : HotWindow) → hot_evict tenant_id session_id hot ≡ some (remove k hot)
    unfolding hot_evict drop_window
    hot_evict-some hot = rw keyed
