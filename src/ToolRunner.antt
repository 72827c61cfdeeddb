-- ===== src/ToolRunner.antt =====
-- `ToolRunner.run` of src/oneops/toolrunner/runner.py with the values of models.py, the resolver of
-- resolver.py (its explicit registry and its import cache), and the idempotency store of
-- idempotency.py. Times are ticks of time.monotonic(), one for the whole of a `run`'s end.
pub mod Run
pub mod Steps
pub mod Outcomes
pub mod Replay
use text.Mathlib.Text.{find?}
use one_ops_next_gen.Prelude.{
  ℕ, ◌+◌, ◌-◌, String, Bool, true, false, List, [], ◌∷◌, Option, none, some, Dict, lookup, insert,
  erase, leb, if◌then◌else◌, ◌==◌,
}

-- `ToolStatus`
pub data ToolStatus : Type 0 where
  success : ToolStatus
  failed : ToolStatus
  timeout : ToolStatus

-- `ToolResult` with an output of type `A`; of an error, what raised it.
pub data ToolError : Type 0 where
  handler_raised : (exception : String) → ToolError
  exceeded : (timeout_ms : ℕ) → ToolError

pub record ToolResult (A : Type 0) : Type 0 where
  pub tool_id : String
  pub status : ToolStatus
  pub output : Option A
  pub error : Option ToolError
  pub latency_ms : ℕ
  pub from_idempotency_cache : Bool

-- What a run reads of the `ToolRecord`.
pub record ToolRecord : Type 0 where
  pub id : String
  pub handler_ref : String
  pub timeout_ms : ℕ

-- How a handler ends: with a value, with `TimeoutError`, or with another exception.
pub data HandlerEnd (A : Type 0) : Type 0 where
  returned : A → HandlerEnd A
  raised_timeout : HandlerEnd A
  raised : (exception : String) → HandlerEnd A

-- A handler, by its arguments and context: how long it would take, in milliseconds, and its end.
pub record Handler (P : Type 0) (A : Type 0) : Type 0 where
  pub call : P → ℕ × HandlerEnd A

-- `VariableRef`, or the value itself where it is small.
pub data Output (A : Type 0) : Type 0 where
  inline : A → Output A
  variable_ref : (name : String) (size_bytes : ℕ) → Output A

-- A stored result and when it expires: `InMemoryIdempotencyStore`.
abbrev pub Store : Type 0 → Type 0
Store A = Dict (ToolResult A × ℕ)

module _ {A : Type 0} where
  unfoldable pub success_result : String → A → ℕ → ToolResult A
  success_result tool_id output latency_ms = record {
    tool_id = tool_id;
    status = ToolStatus.success;
    output = some output;
    error = none;
    latency_ms = latency_ms;
    from_idempotency_cache = false;
  }

  unfoldable pub failed_result : String → ToolError → ℕ → ToolResult A
  failed_result tool_id error latency_ms = record {
    tool_id = tool_id;
    status = ToolStatus.failed;
    output = none;
    error = some error;
    latency_ms = latency_ms;
    from_idempotency_cache = false;
  }

  unfoldable pub timed_out_result : String → ℕ → ℕ → ToolResult A
  timed_out_result tool_id timeout_ms latency_ms = record {
    tool_id = tool_id;
    status = ToolStatus.timeout;
    output = none;
    error = some (ToolError.exceeded timeout_ms);
    latency_ms = latency_ms;
    from_idempotency_cache = false;
  }

  unfoldable pub replayed : ToolResult A → ToolResult A
  replayed result = record result { from_idempotency_cache = true }

  unfoldable pub live_result :
      String → ℕ → Store A → Option (ToolResult A × ℕ) → Option (ToolResult A) × Store A
  unfolding replayed
  live_result key now store none = (none, store)
  live_result key now store (some (result, expires_at)) =
      if leb expires_at now then (none, erase key store) else (some (replayed result), store)

  unfoldable pub get : String → ℕ → Store A → Option (ToolResult A) × Store A
  unfolding live_result
  get key now store = live_result key now store (lookup key store)

  unfoldable pub put_by : ToolStatus → String → ToolResult A → ℕ → ℕ → Store A → Store A
  put_by ToolStatus.success key result ttl_seconds now store =
      insert key (result, now + ttl_seconds) store
  put_by _ key result ttl_seconds now store = store

  -- Only completed work is stored.
  unfoldable pub put : String → ToolResult A → ℕ → ℕ → Store A → Store A
  unfolding put_by
  put key result ttl_seconds now store = put_by result.status key result ttl_seconds now store

-- `HandlerResolver`: its two tables. `import_handler` is what importlib and getattr find for a
-- reference in 'module:function' form, `none` where the module, the attribute or its call is missing.
pub record HandlerResolver (P : Type 0) (A : Type 0) : Type 0 where
  pub explicit : Dict (Handler P A)
  pub import_cache : Dict (Handler P A)

module _ {P : Type 0} {A : Type 0} (import_handler : String → Option (Handler P A)) where
  -- `none` is the `ValueError` of a reference that is registered.
  unfoldable pub register :
      String → Handler P A → HandlerResolver P A → Option (HandlerResolver P A)
  register handler_ref handler resolver = add (lookup handler_ref resolver.explicit)
    where
      add : Option (Handler P A) → Option (HandlerResolver P A)
      add (some old) = none
      add none = some (record resolver { explicit = insert handler_ref handler resolver.explicit })

  cache_import :
      String
      → HandlerResolver P A
      → Option (Handler P A)
      → Option (Handler P A) × HandlerResolver P A
  cache_import handler_ref resolver none = (none, resolver)
  cache_import handler_ref resolver (some handler) = (
    some handler,
    record resolver { import_cache = insert handler_ref handler resolver.import_cache },
  )

  import_if_colon :
      String → HandlerResolver P A → Option ℕ → Option (Handler P A) × HandlerResolver P A
  unfolding cache_import
  import_if_colon handler_ref resolver none = (none, resolver)
  import_if_colon handler_ref resolver (some colon) =
      cache_import handler_ref resolver (import_handler handler_ref)

  resolve_cached :
      String
      → HandlerResolver P A
      → Option (Handler P A)
      → Option (Handler P A) × HandlerResolver P A
  unfolding import_if_colon
  resolve_cached handler_ref resolver (some handler) = (some handler, resolver)
  resolve_cached handler_ref resolver none =
      import_if_colon handler_ref resolver (find? handler_ref ":")

  resolve_explicit :
      String
      → HandlerResolver P A
      → Option (Handler P A)
      → Option (Handler P A) × HandlerResolver P A
  unfolding resolve_cached
  resolve_explicit handler_ref resolver (some handler) = (some handler, resolver)
  resolve_explicit handler_ref resolver none =
      resolve_cached handler_ref resolver (lookup handler_ref resolver.import_cache)

  -- `none` is the `ToolHandlerError`.
  unfoldable pub resolve : String → HandlerResolver P A → Option (Handler P A) × HandlerResolver P A
  unfolding resolve_explicit
  resolve handler_ref resolver =
      resolve_explicit handler_ref resolver (lookup handler_ref resolver.explicit)
