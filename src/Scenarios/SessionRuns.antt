-- ===== src/Scenarios/SessionRuns.antt =====
-- A conversation that is written, read and pruned.
use one_ops_next_gen.Prelude.{
  ℕ, List, [], ◌∷◌, Option, some, Key, find, store, remove, filter, if◌then◌else◌, ◌==◌, ◌+◌, ◌≡◌,
  refl, arith,
}
use one_ops_next_gen.Session.Backend.{
  Event, key_of, from_turn_on, newest, cold_append, cold_prune, hot_push, hot_window, hot_evict,
  hot_replace, cold_read,
}
use one_ops_next_gen.Session.Backend.Laws.{events_under}
use one_ops_next_gen.Session.Store.{
  RetentionPolicy, SessionStore, append, recent, replay, cold_cutoff, apply_retention,
}
use one_ops_next_gen.Session.Store.Refines.{Op, empty_store, run_ops, history, store_refines}
use one_ops_next_gen.Session.Store.Retention.{is_recent, total, apply_retention_exact}

abbrev policy : RetentionPolicy
policy = record { hot_window_events = 2; cold_retention_days = 1 }

abbrev said : ℕ → Event
said n = record { turn_index = n; occurred_at_unix_ms = 86400000 + n; body = "hello" }

-- The window is read before it is full, overflows, and is dropped; another tenant writes as well.
abbrev ops : List Op
ops =
    Op.arrives "acme" "s1" (said 1)
    ∷ Op.is_read "acme" "s1"
    ∷ Op.arrives "acme" "s1" (said 2)
    ∷ Op.arrives "globex" "s1" (said 7)
    ∷ Op.arrives "acme" "s1" (said 3)
    ∷ Op.is_dropped "acme" "s2"
    ∷ []

recent_text :
    (recent policy "acme" "s1" (run_ops policy ops empty_store)).0 ≡ some (said 2 ∷ said 3 ∷ [])
unfolding recent run_ops store find remove append cold_append hot_push hot_window hot_evict
    hot_replace cold_read
recent_text = refl

keyed : key_of "acme" "s1" ≡ some ("acme", "s1")
unfolding key_of
keyed = refl

store_refines_example :
    ((recent policy "acme" "s1" (run_ops policy ops empty_store)).0
      ≡ some (newest 2 (history ("acme", "s1") ops)))
    × (replay policy "acme" "s1" 2 (run_ops policy ops empty_store)
        ≡ some (filter (from_turn_on 2) (history ("acme", "s1") ops)))
store_refines_example = store_refines policy (omega arith) "acme" "s1" ops 2 keyed

abbrev session : SessionStore
session = run_ops policy ops empty_store

abbrev later : Option ℕ × SessionStore
later = apply_retention policy "acme" 172800002 session

-- A day and two milliseconds later, the first event is older than a day.
apply_retention_exact_example :
    ((k : Key)
      → events_under k later.1.cold ≡ (
          if k.0 == "acme"
          then filter (is_recent (cold_cutoff policy 172800002)) (events_under k session.cold)
          else events_under k session.cold))
    × (later.1.hot ≡ session.hot)
    × ((removed : ℕ) × (later.0 ≡ some removed)
        × (removed + total later.1.cold.log ≡ total session.cold.log))
apply_retention_exact_example = apply_retention_exact policy "acme" 172800002 session refl

one_removed : (apply_retention policy "acme" 172800002 session).0 ≡ some 1
unfolding apply_retention run_ops recent cold_prune store find remove append cold_append hot_push
    hot_window hot_evict hot_replace cold_read
one_removed = refl
