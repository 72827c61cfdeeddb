-- ===== src/ToolRunner/Outcomes.antt =====
-- The three ways in which a run ends: unresolved, replayed, or with a call of the handler.
use one_ops_next_gen.Prelude.{
  ℕ, suc, ◌+◌, String, true, false, Option, none, some, ◌≡◌, ◌≢◌, refl, inl, inr, arith, lookup,
  erase, lookup-insert_self, lookup-erase_cases, leb, ltb, Bool-cases,
}
use one_ops_next_gen.ToolRunner.{
  ToolResult, ToolStatus, Handler, HandlerEnd, HandlerResolver, Output, Store, success_result,
  failed_result, timed_out_result, get, put, put_by, live_result, resolve,
}
use one_ops_next_gen.ToolRunner.Run.{
  Runner, Config, Request, ttl, put_if, completed, finish, wait_for, call_handler, after_lookup,
  run_keyed,
}

module _ {P : Type 0} {A : Type 0} (config : Config A)
    (import_handler : String → Option (Handler P A)) where
  -- What a run that calls the handler leaves: its result is stored exactly when it succeeded, and
  -- nothing else is written unless it did.
  pub record IsFresh (q : Request P) (key : Option String) (before : Runner P A)
      (r : ToolResult (Output A)) (after : Runner P A) : Type 0 where
    pub ran : after.runs ≡ before.runs
    pub fresh : r.from_idempotency_cache ≡ false
    pub stored :
        (k : String)
        → key ≡ some k
        → r.status ≡ ToolStatus.success
        → lookup k after.idempotency ≡ some (r, q.now + r.latency_ms + ttl)
    pub kept :
        r.status ≢ ToolStatus.success
        → (after.idempotency ≡ before.idempotency)
          × (after.variables ≡ before.variables)
          × (r.output ≡ none)

  finish-IsFresh :
      (q : Request P) (key : Option String) (latency : ℕ) (e : HandlerEnd A) (runner : Runner P A)
      → IsFresh q key runner
          (finish config import_handler q key latency e runner).0
          (finish config import_handler q key latency e runner).1
  unfolding finish completed success_result failed_result timed_out_result put_if put put_by
  finish-IsFresh q key latency (HandlerEnd.returned raw) runner = record {
    ran = refl;
    fresh = refl;
    stored = λ k named s. rw named (lookup-insert_self k _ runner.idempotency);
    kept = λ n. absurd (n refl);
  }
  finish-IsFresh q key latency HandlerEnd.raised_timeout runner = record {
    ran = refl;
    fresh = refl;
    stored = λ k named s. cc;
    kept = λ n. (refl, refl, refl);
  }
  finish-IsFresh q key latency (HandlerEnd.raised exception) runner = record {
    ran = refl;
    fresh = refl;
    stored = λ k named s. cc;
    kept = λ n. (refl, refl, refl);
  }

  wait_for-IsFresh :
      (q : Request P) (key : Option String) (ended : ℕ × HandlerEnd A) (runner : Runner P A)
      → IsFresh q key runner
          (wait_for config import_handler q key ended runner).0
          (wait_for config import_handler q key ended runner).1
  unfolding wait_for timed_out_result
  wait_for-IsFresh q key (took, ending) runner = elim (Bool-cases (ltb q.tool.timeout_ms took)) [
    | inl late ↦ rw late (record {
      ran = refl;
      fresh = refl;
      stored = λ k named s. cc;
      kept = λ n. (refl, refl, refl);
    })
    | inr soon ↦ rw soon (finish-IsFresh q key (took + q.lag) ending runner)
  ]

  -- A run either calls no handler, with a replayed result or none, or is fresh.
  pub data Ran (q : Request P) (key : Option String) (runner : Runner P A)
      : Option (ToolResult (Output A)) × Runner P A → Type 0 where
    unresolved : {after : Runner P A} → after.runs ≡ runner.runs → Ran q key runner (none, after)
    replay :
        {r : ToolResult (Output A)} {after : Runner P A}
        → r.from_idempotency_cache ≡ true
        → after.runs ≡ runner.runs
        → Ran q key runner (some r, after)
    called :
        {r : ToolResult (Output A)} {after : Runner P A} (before : Runner P A)
        → before.runs ≡ suc runner.runs
        → before.variables ≡ runner.variables
        → ((k : String) (v : ToolResult (Output A) × ℕ)
            → lookup k before.idempotency ≡ some v
            → lookup k runner.idempotency ≡ some v)
        → IsFresh q key before r after
        → Ran q key runner (some r, after)

  after_lookup-Ran :
      (q : Request P) (key : Option String) (runner : Runner P A) (store : Store (Output A))
      → ((k : String) (v : ToolResult (Output A) × ℕ)
          → lookup k store ≡ some v
          → lookup k runner.idempotency ≡ some v)
      → Ran q key runner (after_lookup config import_handler q key runner (none, store))
  unfolding after_lookup call_handler
  after_lookup-Ran q key runner store old =
      go (resolve import_handler q.tool.handler_ref runner.resolver)
    where
      go :
          (found : Option (Handler P A) × HandlerResolver P A)
          → Ran q key runner (
              call_handler config import_handler q key
                (record runner { idempotency = store })
                found)
      go (none, resolver) = Ran.unresolved refl
      go (some handler, resolver) =
          Ran.called _ (omega arith) refl old (wait_for-IsFresh q key (handler.call q.arguments) _)

  pub run_keyed-Ran :
      (q : Request P) (key : Option String) (runner : Runner P A)
      → Ran q key runner (run_keyed config import_handler q key runner)
  unfolding run_keyed get live_result after_lookup
  run_keyed-Ran q none runner = after_lookup-Ran q none runner runner.idempotency (λ k v h. h)
  run_keyed-Ran q (some k) runner = go (lookup k runner.idempotency)
    where
      go :
          (found : Option (ToolResult (Output A) × ℕ))
          → Ran q (some k) runner (
              after_lookup config import_handler q
                (some k)
                runner
                (live_result k q.now runner.idempotency found))
      go none = after_lookup-Ran q (some k) runner runner.idempotency (λ j v h. h)
      go (some (r, expires_at)) = elim (Bool-cases (leb expires_at q.now)) [
        | inl due ↦ rw due (
            after_lookup-Ran q (some k) runner (erase k runner.idempotency)
              (λ j v h. lookup-erase_cases k j runner.idempotency h))
        | inr live ↦ rw live (Ran.replay refl refl)
      ]
