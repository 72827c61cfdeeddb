-- ===== src/Nats/Breaker.antt =====
-- The circuit breaker of src/oneops/adapters/nats_resilience.py: one state for each key, and the
-- rolling window of outcomes. A section under the lock happens at one tick of time.monotonic().
pub mod Cooldown
pub mod Threshold
use one_ops_next_gen.Prelude.{
  ℕ, ◌+◌, ◌*◌, ◌-◌, String, Bool, true, false, not, ◌&&◌, List, [], ◌∷◌, ◌++◌, Option, none, some,
  Dict, lookup, insert, ltb, leb, if◌then◌else◌, length, filter,
}

-- `_State`
pub data BreakerMode : Type 0 where
  closed : BreakerMode
  opened : BreakerMode
  half_open : BreakerMode

-- The events of a `_Window`, oldest first.
abbrev pub Window : Type 0
Window = List (ℕ × Bool)

-- `_BreakerState`
pub record BreakerState : Type 0 where
  pub state : BreakerMode
  pub opened_at : ℕ
  pub window : Window

-- `CircuitBreakerConfig`; the ratio is `ratio_num / ratio_den`.
pub record BreakerConfig : Type 0 where
  pub ratio_num : ℕ
  pub ratio_den : ℕ
  pub min_requests : ℕ
  pub window_seconds : ℕ
  pub cooldown_seconds : ℕ

abbrev pub Breaker : Type 0
Breaker = Dict BreakerState

-- Drops the events before `now - seconds`, from the oldest.
unfoldable pub trim : ℕ → ℕ → Window → Window
trim seconds now [] = []
trim seconds now ((at, ok) ∷ events) =
    let rest = trim seconds now events in if ltb (at + seconds) now then rest else (at, ok) ∷ events

-- `_Window.record`
unfoldable pub window_record : ℕ → ℕ → Bool → Window → Window
window_record seconds now success events = trim seconds now (events ++ ((now, success) ∷ []))

is_failure : ℕ × Bool → Bool
is_failure (at, ok) = not ok

unfoldable pub failures_of : Window → ℕ
unfolding is_failure
failures_of events = length (filter is_failure events)

unfoldable pub new_state : BreakerState
new_state = record { state = BreakerMode.closed; opened_at = 0; window = [] }

-- self._states.setdefault(subject, ...): an absent key has the new state.
unfoldable pub state_or_new : Option BreakerState → BreakerState
unfolding new_state
state_or_new none = new_state
state_or_new (some st) = st

unfoldable pub state_of : String → Breaker → BreakerState
unfolding state_or_new
state_of subject cb = state_or_new (lookup subject cb)

-- st.state = mode
abbrev pub with_mode : BreakerMode → BreakerState → BreakerState
with_mode mode st = record { state = mode; opened_at = st.opened_at; window = st.window }

unfoldable pub admit_in : BreakerConfig → ℕ → BreakerState → BreakerMode → Bool × BreakerState
admit_in cfg now st BreakerMode.opened =
    if leb cfg.cooldown_seconds (now - st.opened_at)
    then (true, with_mode BreakerMode.half_open st)
    else (false, st)
admit_in cfg now st BreakerMode.closed = (true, st)
admit_in cfg now st BreakerMode.half_open = (true, st)

-- Whether the call may go on, with the new state.
unfoldable pub admit : BreakerConfig → ℕ → BreakerState → Bool × BreakerState
unfolding admit_in
admit cfg now st = admit_in cfg now st st.state

unfoldable pub stored : String → Breaker → Bool × BreakerState → Bool × Breaker
stored subject cb (admitted, st) = (admitted, insert subject st cb)

-- `before_call`: false is the `NATSUnavailableError`.
unfoldable pub before_call : BreakerConfig → ℕ → String → Breaker → Bool × Breaker
unfolding admit state_of stored
before_call cfg now subject cb = stored subject cb (admit cfg now (state_of subject cb))

-- The test of a closed breaker: enough requests in the window, and a failure ratio that is reached.
unfoldable pub is_tripped : BreakerConfig → Window → Bool
unfolding failures_of
is_tripped cfg events =
    leb cfg.min_requests (length events)
    && leb (cfg.ratio_num * length events) (failures_of events * cfg.ratio_den)

unfoldable pub opened_now : ℕ → Window → BreakerState
opened_now now events = record { state = BreakerMode.opened; opened_at = now; window = events }

-- The new state by the old mode, where `events` is the window with the outcome.
unfoldable pub settle_in : BreakerConfig → ℕ → Bool → Window → ℕ → BreakerMode → BreakerState
unfolding is_tripped opened_now
settle_in cfg now success events at BreakerMode.half_open =
    if success
    then record { state = BreakerMode.closed; opened_at = at; window = events }
    else opened_now now events
settle_in cfg now success events at BreakerMode.closed =
    let recent = trim cfg.window_seconds now events in
    if is_tripped cfg recent
    then opened_now now recent
    else record { state = BreakerMode.closed; opened_at = at; window = recent }
settle_in cfg now success events at BreakerMode.opened = record {
  state = BreakerMode.opened;
  opened_at = at;
  window = events;
}

unfoldable pub record_state : BreakerConfig → ℕ → Bool → BreakerState → BreakerState
unfolding settle_in window_record
record_state cfg now success st =
    settle_in cfg now success (window_record cfg.window_seconds now success st.window) st.opened_at
      st.state

unfoldable pub record_outcome : BreakerConfig → ℕ → String → Bool → Breaker → Breaker
unfolding record_state state_of
record_outcome cfg now subject success cb =
    insert subject (record_state cfg now success (state_of subject cb)) cb
