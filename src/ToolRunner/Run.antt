-- ===== src/ToolRunner/Run.antt =====
-- `ToolRunner.run` of src/oneops/toolrunner/runner.py with the variable store of variables.py.
use one_ops_next_gen.Prelude.{
  ℕ, ◌+◌, String, Bool, not, ◌&&◌, Option, none, some, Dict, insert, leb, ltb, if◌then◌else◌, ◌==◌,
}
use one_ops_next_gen.ToolRunner.{
  ToolRecord, ToolResult, ToolError, Handler, HandlerEnd, HandlerResolver, Output, Store,
  success_result, failed_result, timed_out_result, get, put, resolve,
}

-- The runner's stores; `runs` counts the calls of handlers.
pub record Runner (P : Type 0) (A : Type 0) : Type 0 where
  pub resolver : HandlerResolver P A
  pub variables : Dict A
  pub idempotency : Store (Output A)
  pub runs : ℕ

-- The configuration: whether there is an idempotency store, the size of a serialised value and the
-- threshold of the variable store.
pub record Config (A : Type 0) : Type 0 where
  pub has_store : Bool
  pub serialised_size : A → ℕ
  pub threshold_bytes : ℕ

-- One request: `name` is the name that the variable store would generate, `now` the tick, in
-- milliseconds, at which it starts, and `lag` the milliseconds that pass from the end of the handler,
-- or from its timeout, to the tick at which the runner measures the latency.
pub record Request (P : Type 0) : Type 0 where
  pub tool : ToolRecord
  pub arguments : P
  pub idempotency_key : Option String
  pub name : String
  pub now : ℕ
  pub lag : ℕ

-- 86_400 seconds.
abbrev pub ttl : ℕ
ttl = 86400000

module _ {P : Type 0} {A : Type 0} (config : Config A)
    (import_handler : String → Option (Handler P A)) where
  -- The key that the store is asked for, where there is a store and a key that is not empty.
  unfoldable pub active_key : Option String → Option String
  active_key none = none
  active_key (some key) = if config.has_store && not (key == "") then some key else none

  -- `capture`
  unfoldable pub capture : A → String → Dict A → Output A × Dict A
  capture value name variables =
      if leb (config.serialised_size value) config.threshold_bytes
      then (Output.inline value, variables)
      else (Output.variable_ref name (config.serialised_size value), insert name value variables)

  unfoldable pub put_if :
      Option String → ToolResult (Output A) → ℕ → Store (Output A) → Store (Output A)
  put_if none result now store = store
  put_if (some key) result now store = put key result ttl now store

  unfoldable pub completed :
      Request P
      → Option String
      → ℕ
      → Output A × Dict A
      → Runner P A
      → ToolResult (Output A) × Runner P A
  unfolding put_if
  completed q key latency (output, variables) runner =
      let result = success_result q.tool.id output latency in
      (
        result,
        record runner {
          variables = variables;
          idempotency = put_if key result (q.now + latency) runner.idempotency;
        },
      )

  -- The end of the call under `asyncio.wait_for`.
  unfoldable pub finish :
      Request P → Option String → ℕ → HandlerEnd A → Runner P A → ToolResult (Output A) × Runner P A
  unfolding completed capture
  finish q key latency (HandlerEnd.returned raw) runner =
      completed q key latency (capture raw q.name runner.variables) runner
  finish q key latency HandlerEnd.raised_timeout runner =
      (timed_out_result q.tool.id q.tool.timeout_ms latency, runner)
  finish q key latency (HandlerEnd.raised exception) runner =
      (failed_result q.tool.id (ToolError.handler_raised exception) latency, runner)

  unfoldable pub wait_for :
      Request P → Option String → ℕ × HandlerEnd A → Runner P A → ToolResult (Output A) × Runner P A
  unfolding finish
  wait_for q key (took, ending) runner =
      if ltb q.tool.timeout_ms took
      then (timed_out_result q.tool.id q.tool.timeout_ms (q.tool.timeout_ms + q.lag), runner)
      else finish q key (took + q.lag) ending runner

  -- The handler is called once it is resolved; `none` is the `ToolHandlerError`.
  unfoldable pub call_handler :
      Request P
      → Option String
      → Runner P A
      → Option (Handler P A) × HandlerResolver P A
      → Option (ToolResult (Output A)) × Runner P A
  unfolding wait_for
  call_handler q key runner (none, resolver) = (none, record runner { resolver = resolver })
  call_handler q key runner (some handler, resolver) =
      let (result, runner') =
        wait_for q key (handler.call q.arguments)
          (record runner { resolver = resolver; runs = runner.runs + 1 }) in
      (some result, runner')

  unfoldable pub after_lookup :
      Request P
      → Option String
      → Runner P A
      → Option (ToolResult (Output A)) × Store (Output A)
      → Option (ToolResult (Output A)) × Runner P A
  unfolding call_handler
  after_lookup q key runner (some cached, store) =
      (some cached, record runner { idempotency = store })
  after_lookup q key runner (none, store) =
      let runner' = record runner { idempotency = store } in
      call_handler q key runner' (resolve import_handler q.tool.handler_ref runner'.resolver)

  unfoldable pub run_keyed :
      Request P → Option String → Runner P A → Option (ToolResult (Output A)) × Runner P A
  unfolding after_lookup
  run_keyed q none runner = after_lookup q none runner (none, runner.idempotency)
  run_keyed q (some key) runner =
      after_lookup q (some key) runner (get key q.now runner.idempotency)

  unfoldable pub run : Request P → Runner P A → Option (ToolResult (Output A)) × Runner P A
  unfolding run_keyed active_key
  run q runner = run_keyed q (active_key q.idempotency_key) runner
