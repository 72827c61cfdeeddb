-- ===== src/Scenarios/ToolRuns.antt =====
-- Runs of the tool runner and of the quota.
use one_ops_next_gen.Prelude.{
  ℕ, suc, ◌+◌, String, true, List, [], ◌∷◌, Option, none, some, ◌≡◌, ◌≢◌, refl, lookup, arith,
}
use one_ops_next_gen.Quota.{QuotaGuard, limit_for, used}
use one_ops_next_gen.Quota.Budget.{charge_all, calls_of, granted, charge_all-granted}
use one_ops_next_gen.ToolRunner.{
  ToolResult, ToolStatus, HandlerEnd, Handler, Output, replayed, success_result, timed_out_result,
  get, resolve,
}
use one_ops_next_gen.ToolRunner.Run.{Runner, Config, Request, ttl, active_key, run}
use one_ops_next_gen.ToolRunner.Replay.{after_runs, AllBefore, run_replays, run_failed}

abbrev guard : QuotaGuard
guard = record { default_limit = 2; limits = []; used_calls = [] }

-- A tenant with a limit of two calls makes three, and another makes one.
charge_all-granted_example :
    (charge_all "acme" ("acme" ∷ "globex" ∷ "acme" ∷ "acme" ∷ []) guard).0
    ≡ granted
        (limit_for "acme" guard)
        (calls_of "acme" ("acme" ∷ "globex" ∷ "acme" ∷ "acme" ∷ []))
        (used "acme" guard)
charge_all-granted_example =
    charge_all-granted "acme" ("acme" ∷ "globex" ∷ "acme" ∷ "acme" ∷ []) guard

abbrev handler : Handler String String
handler = record { call = λ arguments. (20, HandlerEnd.returned "closed") }

abbrev slow_handler : Handler String String
slow_handler = record { call = λ arguments. (900, HandlerEnd.returned "closed") }

abbrev no_import : String → Option (Handler String String)
no_import handler_ref = none

abbrev config : Config String
config = record { has_store = true; serialised_size = λ value. 8; threshold_bytes = 4096 }

abbrev runner : Runner String String
runner = record {
  resolver = record {
    explicit = ("close", handler) ∷ ("slow", slow_handler) ∷ [];
    import_cache = [];
  };
  variables = [];
  idempotency = [];
  runs = 0;
}

abbrev request : String → String → ℕ → Request String
request handler_ref key now = record {
  tool = record { id = "close_incident"; handler_ref = handler_ref; timeout_ms = 500 };
  arguments = "INC1";
  idempotency_key = some key;
  name = "close_incident_1";
  now = now;
  lag = 2;
}

abbrev closed : ToolResult (Output String)
closed = success_result "close_incident" (Output.inline "closed") 22

key_active : active_key config no_import (some "k1") ≡ some "k1"
unfolding active_key
key_active = refl

closed_at_once : (run config no_import (request "close" "k1" 1000) runner).0 ≡ some closed
unfolding run success_result lookup resolve get
closed_at_once = refl

-- The same delivery comes again, after a run under another key.
abbrev between : List (Request String)
between = request "close" "k2" 1100 ∷ []

between_early : AllBefore config no_import (1000 + 22 + ttl) between
unfolding AllBefore
between_early = (omega arith, tt)

run_replays_example :
    run config no_import (request "close" "k1" 2000) (
      after_runs config no_import between
        (run config no_import (request "close" "k1" 1000) runner).1)
    ≡ (
      some (replayed closed),
      after_runs config no_import between
          (run config no_import (request "close" "k1" 1000) runner).1,
    )
unfolding success_result
run_replays_example =
    run_replays config no_import (request "close" "k1" 1000) (request "close" "k1" 2000) between
      runner closed "k1" key_active key_active closed_at_once refl refl between_early (omega arith)

abbrev late : ToolResult (Output String)
late = timed_out_result "close_incident" 500 502

timed_out : (run config no_import (request "slow" "k3" 1000) runner).0 ≡ some late
unfolding run timed_out_result lookup resolve get
timed_out = refl

timeout_ne_success : ToolStatus.timeout ≢ ToolStatus.success
timeout_ne_success e = cc e

run_failed_example :
    (late.output ≡ none)
    × ((run config no_import (request "slow" "k3" 1000) runner).1.runs ≡ suc 0)
    × ((run config no_import (request "slow" "k3" 1000) runner).1.variables ≡ [])
    × ((k : String) (v : ToolResult (Output String) × ℕ)
        → lookup k (run config no_import (request "slow" "k3" 1000) runner).1.idempotency ≡ some v
        → lookup k runner.idempotency ≡ some v)
unfolding timed_out_result
run_failed_example =
    run_failed config no_import (request "slow" "k3" 1000) runner late timed_out refl
      timeout_ne_success
