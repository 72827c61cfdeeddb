-- ===== src/Nats/Call/FailFast.antt =====
-- An open breaker keeps `resilient_call` from calling.
use one_ops_next_gen.Prelude.{ℕ, zero, suc, ◌+◌, ◌<◌, String, Bool, false, List, ◌≡◌, refl, arith}
use one_ops_next_gen.Nats.Breaker.{Breaker, BreakerConfig, before_call}
use one_ops_next_gen.Nats.Breaker.Cooldown.{Event, after, IsBefore, IsOpenSince, before_call_open}
use one_ops_next_gen.Nats.Call.{
  RetryPolicy, Attempt, Outcome, Step, after_breaker, run_one_attempt, proceed, attempts,
  resilient_call,
}

refused_step :
    {A : Type 0} (cfg : BreakerConfig) (policy : RetryPolicy) (key : String) (attempt : ℕ)
    (a : Attempt A) (verdict : Bool × Breaker)
    → verdict.0 ≡ false
    → after_breaker cfg policy key attempt a verdict
      ≡ Step.done Outcome.unavailable_error 0 verdict.1
unfolding after_breaker
refused_step cfg policy key attempt a (admitted, cb) e = rw e

-- While the cooldown of an open breaker runs, a call with its key fails at once with
-- `NATSUnavailableError` and does not run `fn`, whatever other callers asked and reported since the
-- breaker opened, and whatever the attempts would meet. There is to be an attempt at all.
pub resilient_call_open :
    {A : Type 0} (cfg : BreakerConfig) (policy : RetryPolicy) (key : String) (env : ℕ → Attempt A)
    (at : ℕ) (events : List Event) (cb : Breaker)
    → 0 < cfg.cooldown_seconds
    → 0 < policy.max_attempts
    → IsOpenSince at key cb
    → IsBefore (at + cfg.cooldown_seconds) events
    → (env 0).checked_at < at + cfg.cooldown_seconds
    → ((resilient_call cfg policy key env (after cfg events cb)).0 ≡ Outcome.unavailable_error)
      × ((resilient_call cfg policy key env (after cfg events cb)).1 ≡ 0)
unfolding resilient_call attempts run_one_attempt proceed
resilient_call_open {A} cfg policy key env at events cb pos some_attempt h early soon =
    go policy.max_attempts some_attempt
  where
    go :
        (left : ℕ)
        → 0 < left
        → ((attempts cfg policy key env left 0 0 (after cfg events cb)).0
            ≡ Outcome.unavailable_error)
          × ((attempts cfg policy key env left 0 0 (after cfg events cb)).1 ≡ 0)
    go zero z = absurd (omega arith)
    go (suc left) z =
        rw
          (refused_step cfg policy key 0 (env 0)
            (before_call cfg (env 0).checked_at key (after cfg events cb))
            (before_call_open cfg at key events cb (env 0).checked_at pos h early soon))
          (refl, refl)
