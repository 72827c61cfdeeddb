-- ===== src/Scenarios/BreakerRuns.antt =====
-- Runs of the circuit breaker and of a resilient call.
use one_ops_next_gen.Prelude.{
  ℕ, ◌+◌, ◌*◌, ◌≤◌, String, true, false, List, [], ◌∷◌, ◌≡◌, ◌↔◌, refl, lookup, arith, length, eqb,
  if◌then◌else◌,
}
use one_ops_next_gen.Nats.Breaker.{
  BreakerMode, BreakerState, BreakerConfig, Breaker, failures_of, record_state, trim, state_of,
  before_call,
}
use one_ops_next_gen.Nats.Breaker.Cooldown.{
  Event, after, IsBefore, IsOpenSince, before_call_open, time,
}
use one_ops_next_gen.Nats.Breaker.Threshold.{
  IsOrdered, counted, record_state_opens, all_admitted, probes-all_admitted,
}
use one_ops_next_gen.Nats.Call.{RetryPolicy, Reply, Attempt, Outcome, resilient_call}
use one_ops_next_gen.Nats.Call.Bounded.{IsAnswered, resilient_call-IsAnswered}
use one_ops_next_gen.Nats.Call.FailFast.{resilient_call_open}

-- The defaults: a ratio of one half of five requests in 30 seconds, and 15 seconds of cooldown.
abbrev cfg : BreakerConfig
cfg = record {
  ratio_num = 1;
  ratio_den = 2;
  min_requests = 5;
  window_seconds = 30;
  cooldown_seconds = 15;
}

abbrev policy : RetryPolicy
policy = record { max_attempts = 3; initial_delay = 1; max_delay = 2 }

abbrev open_state : BreakerState
open_state = record { state = BreakerMode.opened; opened_at = 100; window = [] }

abbrev open_breaker : Breaker
open_breaker = ("nats", open_state) ∷ []

opened_since : IsOpenSince 100 "nats" open_breaker
unfolding IsOpenSince state_of lookup
opened_since = (refl, refl)

-- A caller asks, and one whose call began before the breaker opened reports a success.
abbrev events : List Event
events = Event.asks 103 "nats" ∷ Event.reports 104 "nats" true ∷ []

events_early : IsBefore (100 + 15) events
unfolding IsBefore time
events_early = (omega arith, (omega arith, tt))

before_call_open_example : (before_call cfg 110 "nats" (after cfg events open_breaker)).0 ≡ false
before_call_open_example =
    before_call_open cfg 100 "nats" events open_breaker 110 (omega arith) opened_since events_early
      (omega arith)

-- The first attempt meets no server, the others are answered.
abbrev second_time : ℕ → Attempt String
second_time n = record {
  checked_at = 110 + n;
  recorded_at = 110 + n;
  connected = true;
  reply = if eqb n 0 then Reply.unavailable else Reply.replied "pong";
}

resilient_call_open_example :
    ((resilient_call cfg policy "nats" second_time (after cfg events open_breaker)).0
      ≡ Outcome.unavailable_error)
    × ((resilient_call cfg policy "nats" second_time (after cfg events open_breaker)).1 ≡ 0)
resilient_call_open_example =
    resilient_call_open cfg policy "nats" second_time 100 events open_breaker (omega arith)
      (omega arith) opened_since events_early (omega arith)

resilient_call-IsAnswered_example :
    IsAnswered cfg policy "nats" second_time [] (resilient_call cfg policy "nats" second_time [])
resilient_call-IsAnswered_example =
    resilient_call-IsAnswered cfg policy "nats" second_time [] (omega arith)

-- Five failures in the window: the probe's success has closed the breaker.
abbrev after_probe : BreakerState
after_probe = record {
  state = BreakerMode.closed;
  opened_at = 100;
  window = (98, false) ∷ (98, false) ∷ (99, false) ∷ (99, false) ∷ (100, false) ∷ (115, true) ∷ [];
}

probe-IsOrdered : IsOrdered 116 after_probe.window
unfolding IsOrdered
probe-IsOrdered =
    (omega arith, (omega arith, (omega arith, (omega arith, (omega arith, omega arith)))))

record_state_opens_example :
    ((record_state cfg 116 true after_probe).state ≡ BreakerMode.opened) ↔ (
      (5 ≤ length (counted cfg 116 true after_probe.window))
      × (1 * length (counted cfg 116 true after_probe.window)
          ≤ failures_of (counted cfg 116 true after_probe.window) * 2))
record_state_opens_example = record_state_opens cfg 116 true after_probe refl probe-IsOrdered

-- The next success opens it again.
success_opens : (record_state cfg 116 true after_probe).state ≡ BreakerMode.opened
unfolding record_state trim
success_opens = refl

probes-all_admitted_example : all_admitted cfg "nats" (116 ∷ 116 ∷ 117 ∷ []) open_breaker ≡ true
unfolding state_of lookup
probes-all_admitted_example =
    probes-all_admitted cfg "nats" 116 (116 ∷ 117 ∷ []) open_breaker refl (omega arith)
