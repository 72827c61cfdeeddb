-- ===== src/Session/Store/Steps.antt =====
-- What `append` and `recent` of src/oneops/session/store.py do to a store under a key.
use one_ops_next_gen.Prelude.{
  ℕ, suc, ◌≤◌, String, false, List, none, some, Key, find, store, eqb, ◌≡◌, refl, arith,
}
use one_ops_next_gen.Session.Backend.{Event, key_of, newest}
use one_ops_next_gen.Session.Backend.Laws.{
  events_under, appended, pushed, filter-from_turn_on_zero, cold_append-none, hot_window-none,
  cold_append-some, cold_read-some, hot_push-some, hot_window-some, hot_replace-some,
}
use one_ops_next_gen.Session.Store.{
  RetentionPolicy, SessionStore, append, after_cold, after_push, recent, cached_or, rebuilt, filled,
  tail_slice,
}

module _ (policy : RetentionPolicy) (keeps : 1 ≤ policy.hot_window_events) where
  pub append_state :
      (tenant_id session_id : String) (k : Key) (event : Event) (s : SessionStore)
      → key_of tenant_id session_id ≡ some k
      → append policy tenant_id session_id event s ≡ (
        some (suc s.cold.seq),
        record {
          cold = appended k event s.cold;
          hot = pushed k event policy.hot_window_events s.hot;
        },
      )
  unfolding append after_cold after_push
  append_state tenant_id session_id k event s keyed =
      rw
        (
          cold_append-some tenant_id session_id keyed,
          hot_push-some tenant_id session_id keyed event policy.hot_window_events s.hot keeps,
        )
        refl

  pub append_nameless :
      (tenant_id session_id : String) (event : Event) (s : SessionStore)
      → key_of tenant_id session_id ≡ none
      → append policy tenant_id session_id event s ≡ (none, s)
  unfolding append after_cold
  append_nameless tenant_id session_id event s e =
      rw (cold_append-none tenant_id session_id event s.cold e) refl

  pub recent_nameless :
      (tenant_id session_id : String) (s : SessionStore)
      → key_of tenant_id session_id ≡ none
      → recent policy tenant_id session_id s ≡ (none, s)
  unfolding recent cached_or
  recent_nameless tenant_id session_id s e = rw (hot_window-none tenant_id session_id s.hot e) refl

  pub recent_hit :
      (tenant_id session_id : String) (k : Key) (s : SessionStore) (win : List Event)
      → key_of tenant_id session_id ≡ some k
      → find k s.hot ≡ some win
      → recent policy tenant_id session_id s ≡ (some win, s)
  unfolding recent cached_or
  recent_hit tenant_id session_id k s win keyed h =
      rw (hot_window-some tenant_id session_id keyed, h) refl

  pub recent_miss :
      (tenant_id session_id : String) (k : Key) (s : SessionStore)
      → key_of tenant_id session_id ≡ some k
      → find k s.hot ≡ none
      → recent policy tenant_id session_id s ≡ (
        some (newest policy.hot_window_events (events_under k s.cold)),
        record s { hot = store k (newest policy.hot_window_events (events_under k s.cold)) s.hot },
      )
  unfolding recent cached_or rebuilt filled tail_slice
  recent_miss tenant_id session_id k s keyed h =
      let n : ℕ = policy.hot_window_events in
      let some_kept : eqb n 0 ≡ false = ground arith in
      rw
        (
          hot_window-some tenant_id session_id keyed,
          h,
          rebuilt,
          cold_read-some tenant_id session_id keyed,
          filter-from_turn_on_zero,
          tail_slice,
          some_kept,
          hot_replace-some tenant_id session_id keyed,
        )
        refl
