-- ===== src/Nats/Call/Bounded.antt =====
-- `resilient_call` against an account of a call by its attempts: who was asked, what was heard, when
-- it gave up, and what the breaker was told.
use one_ops_next_gen.Prelude.{
  ℕ, zero, suc, ◌+◌, ◌<◌, String, Bool, true, false, ◌≡◌, ◌∙◌, ap, sym, ◌⊎◌, inl, inr, refl, subst,
  eqb, arith, leb, if◌then◌else◌, Bool-cases,
}
use one_ops_next_gen.Nats.Breaker.{Breaker, BreakerConfig, before_call, record_outcome}
use one_ops_next_gen.Nats.Call.{
  RetryPolicy, Reply, Attempt, Outcome, Step, retry_or_exhaust, after_reply, after_breaker,
  run_one_attempt, proceed, attempts, resilient_call,
}

-- An attempt that the call retries: there is no connection, or no server answers.
unfoldable pub IsRetryable : {A : Type 0} → Attempt A → Type 0
IsRetryable a = (a.connected ≡ false) ⊎ (a.reply ≡ Reply.unavailable)

module _ {A : Type 0} (cfg : BreakerConfig) (policy : RetryPolicy) (key : String)
    (env : ℕ → Attempt A) (cb : Breaker) where
  -- The breaker after the attempts below a number, each of which asked it and reported a failure.
  unfoldable pub met : ℕ → Breaker
  met zero = cb
  met (suc j) =
      record_outcome cfg (env j).recorded_at key false
        (before_call cfg (env j).checked_at key (met j)).1

  -- The calls of `fn` in the attempts below a number: one for each that finds a connection.
  unfoldable pub fn_calls : ℕ → ℕ
  fn_calls zero = 0
  fn_calls (suc j) = fn_calls j + (if (env j).connected then 1 else 0)

  abbrev pub asked : ℕ → Bool × Breaker
  asked j = before_call cfg (env j).checked_at key (met j)

  -- The attempt is admitted by the breaker, and is retried.
  unfoldable pub IsRetried : ℕ → Type 0
  IsRetried j = ((asked j).0 ≡ true) × IsRetryable (env j)

  -- How attempt `last` ends the call: the breaker refuses it, `fn` replies or raises, or it is a
  -- failure to retry with no attempt left.
  pub data Ends (last : ℕ) : Outcome A × ℕ × Breaker → Type 0 where
    refused :
        (asked last).0 ≡ false
        → Ends last (Outcome.unavailable_error, fn_calls last, (asked last).1)
    answered :
        {value : A}
        → (asked last).0 ≡ true
        → (env last).connected ≡ true
        → (env last).reply ≡ Reply.replied value
        → Ends last (
          Outcome.returned value,
          fn_calls last + 1,
          record_outcome cfg (env last).recorded_at key true (asked last).1,
        )
    failed :
        {error : String}
        → (asked last).0 ≡ true
        → (env last).connected ≡ true
        → (env last).reply ≡ Reply.raised error
        → Ends last (
          Outcome.other_error error,
          fn_calls last + 1,
          record_outcome cfg (env last).recorded_at key false (asked last).1,
        )
    exhausted :
        IsRetried last
        → suc last ≡ policy.max_attempts
        → Ends last (Outcome.unavailable_error, fn_calls (suc last), met (suc last))

  -- Attempt `last` ends the call, and all attempts before it were retried.
  unfoldable pub IsAnswered : Outcome A × ℕ × Breaker → Type 0
  IsAnswered result =
      (last : ℕ) × (last < policy.max_attempts)
      × Ends last result
      × ((j : ℕ) → j < last → IsRetried j)

  -- What the loop makes of a step at attempt `j`: the end of the call, or the state before the next.
  data Goes (j : ℕ) : Step A → Type 0 where
    ends :
        {outcome : Outcome A} {calls : ℕ} {cb' : Breaker}
        → Ends j (outcome, fn_calls j + calls, cb')
        → Goes j (Step.done outcome calls cb')
    goes_on :
        {calls : ℕ} {cb' : Breaker}
        → IsRetried j
        → suc j < policy.max_attempts
        → fn_calls j + calls ≡ fn_calls (suc j)
        → cb' ≡ met (suc j)
        → Goes j (Step.again calls cb')

  retry_or_exhaust-Goes :
      (j calls : ℕ)
      → IsRetried j
      → j < policy.max_attempts
      → fn_calls j + calls ≡ fn_calls (suc j)
      → Goes j (retry_or_exhaust cfg policy key j (env j).recorded_at calls (asked j).1)
  unfolding retry_or_exhaust met
  retry_or_exhaust-Goes j calls r below counted =
      elim (Bool-cases (leb policy.max_attempts (j + 1))) [
        | inl e ↦ rw e (
            Goes.ends (
              subst (λ n. Ends j (Outcome.unavailable_error, n, met (suc j))) (sym counted)
                (Ends.exhausted r (ground arith))))
        | inr e ↦ rw e (Goes.goes_on r (ground arith) counted refl)
      ]

  after_reply-Goes :
      (j : ℕ) (reply : Reply A)
      → (asked j).0 ≡ true
      → (env j).connected ≡ true
      → (env j).reply ≡ reply
      → j < policy.max_attempts
      → Goes j (after_reply cfg policy key j (env j).recorded_at (asked j).1 reply)
  unfolding after_reply IsRetryable IsRetried fn_calls
  after_reply-Goes j (Reply.replied value) ok c e below = Goes.ends (Ends.answered ok c e)
  after_reply-Goes j (Reply.raised error) ok c e below = Goes.ends (Ends.failed ok c e)
  after_reply-Goes j Reply.unavailable ok c e below =
      retry_or_exhaust-Goes j 1 (ok, inr e) below (rw c refl)

  run_one_attempt-Goes :
      (j : ℕ) → j < policy.max_attempts → Goes j (run_one_attempt cfg policy key j (env j) (met j))
  unfolding run_one_attempt after_breaker IsRetryable IsRetried fn_calls
  run_one_attempt-Goes j below = elim (Bool-cases (asked j).0) [
    | inr closed ↦ rw closed (
        Goes.ends (
          subst (λ n. Ends j (Outcome.unavailable_error, n, (asked j).1)) (omega arith)
            (Ends.refused closed)))
    | inl ok ↦ elim (Bool-cases (env j).connected) [
      | inl c ↦ rw (ok, c) (after_reply-Goes j (env j).reply ok c refl below)
      | inr c ↦ rw (ok, c) (retry_or_exhaust-Goes j 0 (ok, inl c) below (rw c refl))
    ]
  ]

  attempts-IsAnswered :
      (left j made : ℕ) (cb' : Breaker)
      → 0 < left
      → j + left ≡ policy.max_attempts
      → made ≡ fn_calls j
      → cb' ≡ met j
      → ((i : ℕ) → i < j → IsRetried i)
      → IsAnswered (attempts cfg policy key env left j made cb')
  unfolding attempts proceed IsAnswered
  attempts-IsAnswered zero j made cb' pos e counted at_j before = absurd (omega arith)
  attempts-IsAnswered (suc left) j made cb' pos e counted at_j before =
      go (run_one_attempt cfg policy key j (env j) cb')
        (subst (λ x. Goes j (run_one_attempt cfg policy key j (env j) x)) (sym at_j)
          (run_one_attempt-Goes j (omega arith)))
        (λ made' cb'' more counted' at_next before'.
          let step : suc j ≡ j + 1 = omega arith in
          attempts-IsAnswered left (j + 1) made' cb'' more (omega arith)
            (counted' ∙ ap fn_calls step) (at_next ∙ ap met step) before')
    where
      go :
          (s : Step A)
          → Goes j s
          → ((made' : ℕ) (cb'' : Breaker)
              → 0 < left
              → made' ≡ fn_calls (suc j)
              → cb'' ≡ met (suc j)
              → ((i : ℕ) → i < j + 1 → IsRetried i)
              → IsAnswered (attempts cfg policy key env left (j + 1) made' cb''))
          → IsAnswered (proceed cfg policy key made (attempts cfg policy key env left (j + 1)) s)
      go s (Goes.ends {outcome} {calls} {cb' = next_cb} end) next = (
        j,
        omega arith,
        subst (λ n. Ends j (outcome, n + calls, next_cb)) (sym counted) end,
        before,
      )
      go s (Goes.goes_on {calls} {cb' = next_cb} r more counted' at_next) next =
          next (made + calls) next_cb (omega arith) (ap (λ n. n + calls) counted ∙ counted') at_next
            (λ i h. elim (Bool-cases (eqb j i)) [
              | inl same ↦ let at_i : j ≡ i = ground arith in subst IsRetried at_i r
              | inr other ↦ before i (ground arith)
            ])

-- The whole of a call, with any breaker and whatever the attempts meet: there is an attempt, below
-- `max_attempts`, that ends the call, and all attempts before it were admitted, retried and
-- reported to the breaker as failures. It ends the call in one of four ways: the breaker refuses it,
-- and the caller gets `NATSUnavailableError`; `fn` replies, and the caller gets that reply; `fn`
-- raises an error of another kind, and the caller gets that error; or it fails as those before it
-- and is the last that the policy allows, and the caller gets `NATSUnavailableError`. The calls of
-- `fn` are the attempts that found a connection, and the breaker was told of a success exactly for a
-- reply. There is to be an attempt at all.
pub resilient_call-IsAnswered :
    {A : Type 0} (cfg : BreakerConfig) (policy : RetryPolicy) (key : String) (env : ℕ → Attempt A)
    (cb : Breaker)
    → 0 < policy.max_attempts
    → IsAnswered cfg policy key env cb (resilient_call cfg policy key env cb)
unfolding resilient_call fn_calls met
resilient_call-IsAnswered cfg policy key env cb pos =
    attempts-IsAnswered cfg policy key env cb policy.max_attempts 0 0 cb pos (omega arith) refl refl
      (λ j h. absurd (omega arith))
