-- ===== src/Nats/Call.antt =====
-- `resilient_call` of src/oneops/adapters/nats_resilience.py with the functions that it calls.
pub mod Bounded
pub mod FailFast
use one_ops_next_gen.Prelude.{
  ℕ, zero, suc, ◌+◌, ◌-◌, ◌*◌, String, Bool, true, false, List, [], ◌∷◌, Option, none, some, leb,
  ltb, if◌then◌else◌, ◌==◌,
}
use Prim.Native.String.{◌++◌}
use one_ops_next_gen.Nats.Breaker.{Breaker, BreakerConfig, before_call, record_outcome}

-- `RetryPolicy`, its delays in ticks.
pub record RetryPolicy : Type 0 where
  pub max_attempts : ℕ
  pub initial_delay : ℕ
  pub max_delay : ℕ

power : ℕ → ℕ
power zero = 1
power (suc n) = 2 * power n

-- The largest delay before the retry; the jitter is drawn from 0 to it.
unfoldable pub delay_cap : RetryPolicy → ℕ → ℕ
unfolding power
delay_cap policy attempt =
    let base = policy.initial_delay * power attempt in
    if leb base policy.max_delay then base else policy.max_delay

-- How `fn` ends: with a reply, with `NATSUnavailableError`, or with another exception.
pub data Reply (A : Type 0) : Type 0 where
  replied : A → Reply A
  unavailable : Reply A
  raised : String → Reply A

-- What one attempt meets: the ticks of its two locked sections, whether the client is connected,
-- and how `fn` ends if it is called.
pub record Attempt (A : Type 0) : Type 0 where
  pub checked_at : ℕ
  pub recorded_at : ℕ
  pub connected : Bool
  pub reply : Reply A

-- What a caller gets.
pub data Outcome (A : Type 0) : Type 0 where
  returned : A → Outcome A
  unavailable_error : Outcome A
  other_error : String → Outcome A

-- How one attempt ends: for good, or with another attempt to come; `calls` counts the calls of `fn`.
pub data Step (A : Type 0) : Type 0 where
  done : (outcome : Outcome A) (calls : ℕ) (cb : Breaker) → Step A
  again : (calls : ℕ) (cb : Breaker) → Step A

unfoldable pub breaker_key : String → String → String
breaker_key subject tenant_id = if tenant_id == "" then subject else subject ++ ("|" ++ tenant_id)

module _ {A : Type 0} (cfg : BreakerConfig) (policy : RetryPolicy) (key : String) where
  -- `_retry_or_exhaust`; the sleep changes no state.
  unfoldable pub retry_or_exhaust : ℕ → ℕ → ℕ → Breaker → Step A
  retry_or_exhaust attempt now calls cb =
      let cb' = record_outcome cfg now key false cb in
      if leb policy.max_attempts (attempt + 1)
      then Step.done Outcome.unavailable_error calls cb'
      else Step.again calls cb'

  -- After the probe of the connection.
  unfoldable pub after_reply : ℕ → ℕ → Breaker → Reply A → Step A
  unfolding retry_or_exhaust
  after_reply attempt now cb (Reply.replied value) =
      Step.done (Outcome.returned value) 1 (record_outcome cfg now key true cb)
  after_reply attempt now cb Reply.unavailable = retry_or_exhaust attempt now 1 cb
  after_reply attempt now cb (Reply.raised error) =
      Step.done (Outcome.other_error error) 1 (record_outcome cfg now key false cb)

  unfoldable pub after_breaker : ℕ → Attempt A → Bool × Breaker → Step A
  unfolding after_reply
  after_breaker attempt a (admitted, cb) =
      if admitted
      then (if a.connected
          then after_reply attempt a.recorded_at cb a.reply
          else retry_or_exhaust attempt a.recorded_at 0 cb)
      else Step.done Outcome.unavailable_error 0 cb

  unfoldable pub run_one_attempt : ℕ → Attempt A → Breaker → Step A
  unfolding after_breaker
  run_one_attempt attempt a cb = after_breaker attempt a (before_call cfg a.checked_at key cb)

  -- With the calls made before, the end of a step or what the next attempts give.
  unfoldable pub proceed :
      ℕ → (ℕ → Breaker → Outcome A × ℕ × Breaker) → Step A → Outcome A × ℕ × Breaker
  proceed made next (Step.done outcome calls cb) = (outcome, made + calls, cb)
  proceed made next (Step.again calls cb) = next (made + calls) cb

  -- The last `left` rounds of `for attempt in range(policy.max_attempts)`.
  unfoldable pub attempts : (ℕ → Attempt A) → ℕ → ℕ → ℕ → Breaker → Outcome A × ℕ × Breaker
  unfolding run_one_attempt proceed
  attempts env zero attempt made cb = (Outcome.unavailable_error, made, cb)
  attempts env (suc left) attempt made cb =
      proceed made (attempts env left (attempt + 1)) (run_one_attempt attempt (env attempt) cb)

  unfoldable pub resilient_call : (ℕ → Attempt A) → Breaker → Outcome A × ℕ × Breaker
  unfolding attempts
  resilient_call env cb = attempts env policy.max_attempts 0 0 cb
