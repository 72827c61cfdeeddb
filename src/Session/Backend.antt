-- ===== src/Session/Backend.antt =====
-- `InMemoryEventLog` and `InMemoryHotWindow` of src/oneops/session/backend.py. The copies that they
-- make of an event are the event.
pub mod Windows
pub mod Laws
use one_ops_next_gen.Prelude.{
  ℕ, zero, suc, ◌+◌, ◌-◌, String, Bool, true, false, ◌||◌, not, List, [], ◌∷◌, ◌++◌, map, Option,
  none, some, Table, Key, find, store, remove, length, filter, leb, ltb, if◌then◌else◌, ◌==◌,
}

-- A ConversationEvent, as far as the store reads it.
pub record Event : Type 0 where
  pub turn_index : ℕ
  pub occurred_at_unix_ms : ℕ
  pub body : String

-- `_key`: `none` is the ValueError.
unfoldable pub key_of : String → String → Option Key
key_of tenant_id session_id =
    if tenant_id == "" || session_id == "" then none else some (tenant_id, session_id)

-- `InMemoryEventLog`
pub record EventLog : Type 0 where
  pub log : Table (List (ℕ × Event))
  pub seq : ℕ

abbrev pub or_empty {ℓ} : {A : Type ℓ} → Option (List A) → List A
or_empty none = []
or_empty (some xs) = xs

-- The entries under a key.
abbrev pub entries : Key → EventLog → List (ℕ × Event)
entries k cold = or_empty (find k cold.log)

log_append : Event → EventLog → Option Key → Option (ℕ × EventLog)
log_append event cold none = none
log_append event cold (some k) = some (
  suc cold.seq,
  record {
    log = store k (entries k cold ++ ((suc cold.seq, event) ∷ [])) cold.log;
    seq = suc cold.seq;
  },
)

unfoldable pub cold_append : String → String → Event → EventLog → Option (ℕ × EventLog)
unfolding log_append key_of
cold_append tenant_id session_id event cold = log_append event cold (key_of tenant_id session_id)

unfoldable pub event_of : ℕ × Event → Event
event_of (seq, event) = event

unfoldable pub from_turn_on : ℕ → Event → Bool
from_turn_on from_turn event = leb from_turn event.turn_index

log_read : ℕ → EventLog → Option Key → Option (List Event)
unfolding event_of from_turn_on
log_read from_turn cold none = none
log_read from_turn cold (some k) =
    some (filter (from_turn_on from_turn) (map event_of (entries k cold)))

unfoldable pub cold_read : String → String → ℕ → EventLog → Option (List Event)
unfolding log_read key_of
cold_read tenant_id session_id from_turn cold =
    log_read from_turn cold (key_of tenant_id session_id)

unfoldable pub is_kept : ℕ → ℕ × Event → Bool
is_kept cutoff (seq, event) = leb cutoff event.occurred_at_unix_ms

-- The entries of a tenant's keys without the old ones, and how many went.
unfoldable pub prune_log : String → ℕ → Table (List (ℕ × Event)) → ℕ × Table (List (ℕ × Event))
unfolding is_kept
prune_log tenant_id cutoff [] = (0, [])
prune_log tenant_id cutoff (((tenant, session), es) ∷ rest) =
    let (removed, log) = prune_log tenant_id cutoff rest in
    let kept = filter (is_kept cutoff) es in
    if tenant == tenant_id
    then (length es - length kept + removed, ((tenant, session), kept) ∷ log)
    else (removed, ((tenant, session), es) ∷ log)

unfoldable pub cold_prune : String → ℕ → EventLog → Option (ℕ × EventLog)
unfolding prune_log
cold_prune tenant_id older_than cold =
    let (removed, log) = prune_log tenant_id older_than cold.log in
    if tenant_id == "" then none else some (removed, record cold { log = log })

-- `InMemoryHotWindow`
abbrev pub HotWindow : Type 0
HotWindow = Table (List Event)

abbrev pub drop {ℓ} : {A : Type ℓ} → ℕ → List A → List A
drop zero xs = xs
drop (suc n) [] = []
drop (suc n) (x ∷ xs) = drop n xs

-- The newest n: what `del win[:-n]` leaves, for n >= 1.
unfoldable pub newest {ℓ} : {A : Type ℓ} → ℕ → List A → List A
newest n xs = drop (length xs - n) xs

unfoldable pub push_onto : Key → Event → ℕ → HotWindow → Option (List Event) → HotWindow
unfolding newest
push_onto k event max_events hot none = hot
push_onto k event max_events hot (some win) = store k (newest max_events (win ++ (event ∷ []))) hot

window_push : Event → ℕ → HotWindow → Option Key → Option HotWindow
unfolding push_onto
window_push event max_events hot none = none
window_push event max_events hot (some k) = some (push_onto k event max_events hot (find k hot))

unfoldable pub hot_push : String → String → Event → ℕ → HotWindow → Option HotWindow
unfolding window_push key_of
hot_push tenant_id session_id event max_events hot =
    if ltb max_events 1
    then none
    else window_push event max_events hot (key_of tenant_id session_id)

found_window : HotWindow → Option Key → Option (Option (List Event))
found_window hot none = none
found_window hot (some k) = some (find k hot)

-- Outside, `none` is the ValueError; inside, a miss.
unfoldable pub hot_window : String → String → HotWindow → Option (Option (List Event))
unfolding found_window key_of
hot_window tenant_id session_id hot = found_window hot (key_of tenant_id session_id)

set_window : List Event → HotWindow → Option Key → Option HotWindow
set_window events hot none = none
set_window events hot (some k) = some (store k events hot)

unfoldable pub hot_replace : String → String → List Event → HotWindow → Option HotWindow
unfolding set_window key_of
hot_replace tenant_id session_id events hot = set_window events hot (key_of tenant_id session_id)

drop_window : HotWindow → Option Key → Option HotWindow
drop_window hot none = none
drop_window hot (some k) = some (remove k hot)

unfoldable pub hot_evict : String → String → HotWindow → Option HotWindow
unfolding drop_window key_of
hot_evict tenant_id session_id hot = drop_window hot (key_of tenant_id session_id)
