-- ===== src/ToolRunner/Replay.antt =====
-- Re-delivery: a key whose tool succeeded is replayed, and a tool that failed is called again.
use one_ops_next_gen.Prelude.{
  ℕ, suc, ◌+◌, ◌<◌, String, false, List, [], ◌∷◌, Option, none, some, ◌≡◌, ◌≢◌, sym, ap, ◌∙◌,
  lookup,
}
use one_ops_next_gen.ToolRunner.{ToolResult, ToolStatus, Handler, Output, replayed}
use one_ops_next_gen.ToolRunner.Run.{
  Runner, Config, Request, ttl, active_key, run, run_keyed, after_lookup,
}
use one_ops_next_gen.ToolRunner.Steps.{run-entry, get_hit}
use one_ops_next_gen.ToolRunner.Outcomes.{Ran, run_keyed-Ran}

module _ {P : Type 0} {A : Type 0} (config : Config A)
    (import_handler : String → Option (Handler P A)) where
  -- The runner after a row of runs.
  unfoldable pub after_runs : List (Request P) → Runner P A → Runner P A
  after_runs [] runner = runner
  after_runs (q ∷ qs) runner = after_runs qs (run config import_handler q runner).1

  -- Every run starts before the tick.
  unfoldable pub AllBefore : ℕ → List (Request P) → Type 0
  AllBefore limit [] = Unit
  AllBefore limit (q ∷ qs) = (q.now < limit) × AllBefore limit qs

  after_runs-entry :
      (j : String) (qs : List (Request P)) (runner : Runner P A) (r : ToolResult (Output A))
      (expires_at : ℕ)
      → lookup j runner.idempotency ≡ some (r, expires_at)
      → AllBefore expires_at qs
      → lookup j (after_runs qs runner).idempotency ≡ some (r, expires_at)
  unfolding after_runs AllBefore
  after_runs-entry j [] runner r expires_at e early = e
  after_runs-entry j (q ∷ qs) runner r expires_at e early =
      let (soon, rest) = early in
      after_runs-entry j qs _ r expires_at
        (run-entry config import_handler j q runner r expires_at e soon) rest

  -- A run that is not a replay and succeeded leaves its result under its key.
  run-stored :
      (q : Request P) (runner : Runner P A) (r : ToolResult (Output A)) (key : String)
      → active_key config import_handler q.idempotency_key ≡ some key
      → (run config import_handler q runner).0 ≡ some r
      → r.from_idempotency_cache ≡ false
      → r.status ≡ ToolStatus.success
      → lookup key (run config import_handler q runner).1.idempotency
        ≡ some (r, q.now + r.latency_ms + ttl)
  unfolding run
  run-stored q runner r key named e new good =
      let k = active_key config import_handler q.idempotency_key in
      go (run_keyed config import_handler q k runner)
        (run_keyed-Ran config import_handler q k runner) e
    where
      go :
          (result : Option (ToolResult (Output A)) × Runner P A)
          → Ran config import_handler q
              (active_key config import_handler q.idempotency_key)
              runner
              result
          → result.0 ≡ some r
          → lookup key result.1.idempotency ≡ some (r, q.now + r.latency_ms + ttl)
      go x (Ran.unresolved n) e' = cc
      go x (Ran.replay {r = r'} c n) e' =
          let same : r' ≡ r = cc in cc (sym c ∙ ap (λ x. x.from_idempotency_cache) same ∙ new)
      go x (Ran.called {r = r'} {after} before n same_variables old f) e' =
          let same : r' ≡ r = cc in
          f.stored key named (ap (λ x. x.status) same ∙ good)
          ∙ ap (λ x. some (x, q.now + x.latency_ms + ttl)) same

-- Once a run under a key succeeded, a delivery with that key is answered by its result for the
-- next 86,400 seconds, marked as a replay, and no handler is called and no state changed, whatever
-- other runs came in between, under this key and others. The first run is not to be a replay
-- itself.
pub run_replays :
    {P : Type 0} {A : Type 0} (config : Config A) (import_handler : String → Option (Handler P A))
    (q q' : Request P) (between : List (Request P)) (runner : Runner P A)
    (r : ToolResult (Output A)) (key : String)
    → active_key config import_handler q.idempotency_key ≡ some key
    → active_key config import_handler q'.idempotency_key ≡ some key
    → (run config import_handler q runner).0 ≡ some r
    → r.from_idempotency_cache ≡ false
    → r.status ≡ ToolStatus.success
    → AllBefore config import_handler (q.now + r.latency_ms + ttl) between
    → q'.now < q.now + r.latency_ms + ttl
    → run config import_handler q'
        (after_runs config import_handler between (run config import_handler q runner).1)
      ≡ (
        some (replayed r),
        after_runs config import_handler between (run config import_handler q runner).1,
      )
unfolding run
run_replays config import_handler q q' between runner r key named named' e new good early soon =
    let found =
      after_runs-entry config import_handler key between _ r _
        (run-stored config import_handler q runner r key named e new good) early in
    let last = after_runs config import_handler between (run config import_handler q runner).1 in
    rw (
      named',
      run_keyed,
      get_hit config import_handler key q'.now r _ last.idempotency found soon,
      after_lookup,
    )

-- A run that fails or times out writes nothing, so that the key stays to be retried: what the store
-- holds afterwards it held before, no variable is written, the result has no output, and the handler
-- was called once. The run is not to be a replay.
pub run_failed :
    {P : Type 0} {A : Type 0} (config : Config A) (import_handler : String → Option (Handler P A))
    (q : Request P) (runner : Runner P A) (r : ToolResult (Output A))
    → (run config import_handler q runner).0 ≡ some r
    → r.from_idempotency_cache ≡ false
    → r.status ≢ ToolStatus.success
    → (r.output ≡ none)
      × ((run config import_handler q runner).1.runs ≡ suc runner.runs)
      × ((run config import_handler q runner).1.variables ≡ runner.variables)
      × ((k : String) (v : ToolResult (Output A) × ℕ)
          → lookup k (run config import_handler q runner).1.idempotency ≡ some v
          → lookup k runner.idempotency ≡ some v)
unfolding run
run_failed {P} {A} config import_handler q runner r e new bad =
    let k = active_key config import_handler q.idempotency_key in
    go (run_keyed config import_handler q k runner) (run_keyed-Ran config import_handler q k runner)
      e
  where
    go :
        (result : Option (ToolResult (Output A)) × Runner P A)
        → Ran config import_handler q
            (active_key config import_handler q.idempotency_key)
            runner
            result
        → result.0 ≡ some r
        → (r.output ≡ none)
          × (result.1.runs ≡ suc runner.runs)
          × (result.1.variables ≡ runner.variables)
          × ((k : String) (v : ToolResult (Output A) × ℕ)
              → lookup k result.1.idempotency ≡ some v
              → lookup k runner.idempotency ≡ some v)
    go x (Ran.unresolved n) e' = cc
    go x (Ran.replay {r = r'} c n) e' =
        let same : r' ≡ r = cc in cc (sym c ∙ ap (λ x. x.from_idempotency_cache) same ∙ new)
    go x (Ran.called {r = r'} {after} before n same_variables old f) e' =
        let same : r' ≡ r = cc in
        let (unchanged, no_variable, no_output) =
          f.kept (λ s. bad (sym (ap (λ x. x.status) same) ∙ s)) in
        (
          sym (ap (λ x. x.output) same) ∙ no_output,
          f.ran ∙ n,
          no_variable ∙ same_variables,
          λ k v h. old k v (rw (← unchanged) h),
        )
