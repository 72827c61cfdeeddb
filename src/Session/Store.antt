-- ===== src/Session/Store.antt =====
-- `SessionEventStore` of src/oneops/session/store.py over the backends of backend.py.
pub mod Steps
pub mod Refines
pub mod Retention
use one_ops_next_gen.Prelude.{
  ℕ, suc, ◌+◌, ◌-◌, ◌*◌, String, Bool, true, false, List, [], ◌∷◌, Option, none, some, eqb,
  if◌then◌else◌,
}
use one_ops_next_gen.Session.Backend.{
  Event, EventLog, HotWindow, cold_append, cold_read, cold_prune, hot_push, hot_window, hot_replace,
  newest,
}

pub record RetentionPolicy : Type 0 where
  pub hot_window_events : ℕ
  pub cold_retention_days : ℕ

pub record SessionStore : Type 0 where
  pub cold : EventLog
  pub hot : HotWindow

-- full[-n:], which is the whole list for n = 0.
unfoldable pub tail_slice : ℕ → List Event → List Event
unfolding newest
tail_slice n full = if eqb n 0 then full else newest n full

-- In each operation `none` is the exception, with the state that it leaves.
module _ (policy : RetentionPolicy) where
  after_push : SessionStore → ℕ → Option HotWindow → Option ℕ × SessionStore
  after_push s seq none = (none, s)
  after_push s seq (some hot) = (some seq, record s { hot = hot })

  after_cold :
      String → String → Event → SessionStore → Option (ℕ × EventLog) → Option ℕ × SessionStore
  unfolding after_push
  after_cold tenant_id session_id event s none = (none, s)
  after_cold tenant_id session_id event s (some (seq, cold)) =
      after_push (record s { cold = cold }) seq
        (hot_push tenant_id session_id event policy.hot_window_events s.hot)

  unfoldable pub append : String → String → Event → SessionStore → Option ℕ × SessionStore
  unfolding after_cold
  append tenant_id session_id event s =
      after_cold tenant_id session_id event s (cold_append tenant_id session_id event s.cold)

  filled : List Event → SessionStore → Option HotWindow → Option (List Event) × SessionStore
  filled window s none = (none, s)
  filled window s (some hot) = (some window, record s { hot = hot })

  rebuilt :
      String → String → SessionStore → Option (List Event) → Option (List Event) × SessionStore
  unfolding filled tail_slice
  rebuilt tenant_id session_id s none = (none, s)
  rebuilt tenant_id session_id s (some full) =
      let window = tail_slice policy.hot_window_events full in
      filled window s (hot_replace tenant_id session_id window s.hot)

  cached_or :
      String
      → String
      → SessionStore
      → Option (Option (List Event))
      → Option (List Event) × SessionStore
  unfolding rebuilt
  cached_or tenant_id session_id s none = (none, s)
  cached_or tenant_id session_id s (some (some cached)) = (some cached, s)
  cached_or tenant_id session_id s (some none) =
      rebuilt tenant_id session_id s (cold_read tenant_id session_id 0 s.cold)

  unfoldable pub recent : String → String → SessionStore → Option (List Event) × SessionStore
  unfolding cached_or
  recent tenant_id session_id s =
      cached_or tenant_id session_id s (hot_window tenant_id session_id s.hot)

  unfoldable pub replay : String → String → ℕ → SessionStore → Option (List Event)
  replay tenant_id session_id from_turn s = cold_read tenant_id session_id from_turn s.cold

  -- The cutoff stops at 0, where no event is older.
  unfoldable pub cold_cutoff : ℕ → ℕ
  cold_cutoff now = now - policy.cold_retention_days * 86400000

  pruned : SessionStore → Option (ℕ × EventLog) → Option ℕ × SessionStore
  pruned s none = (none, s)
  pruned s (some (removed, cold)) = (some removed, record s { cold = cold })

  unfoldable pub apply_retention : String → ℕ → SessionStore → Option ℕ × SessionStore
  unfolding pruned cold_cutoff
  apply_retention tenant_id now s = pruned s (cold_prune tenant_id (cold_cutoff now) s.cold)
