-- ===== src/ToolRunner/Steps.antt =====
-- What the steps of a run do to the idempotency store.
use one_ops_next_gen.Prelude.{
  ℕ, ◌+◌, ◌<◌, String, false, Option, none, some, ◌≡◌, refl, ◌∙◌, inl, inr, arith, lookup,
  lookup-insert, lookup-erase, leb, ltb, Bool-cases, ◌==◌, eq_iff, if_ind,
}
use one_ops_next_gen.ToolRunner.{
  ToolResult, ToolStatus, Handler, HandlerEnd, HandlerResolver, Output, Store, success_result, get,
  put, put_by, replayed, live_result, resolve,
}
use one_ops_next_gen.ToolRunner.Run.{
  Runner, Config, Request, active_key, put_if, completed, finish, wait_for, call_handler,
  after_lookup, run_keyed, run,
}

module _ {P : Type 0} {A : Type 0} (config : Config A)
    (import_handler : String → Option (Handler P A)) where
  -- The run's key is not the text.
  unfoldable Apart : String → Option String → Type 0
  Apart j none = Unit
  Apart j (some k) = (k == j) ≡ false

  -- The key's entry in a runner's store.
  abbrev pub entry : String → Runner P A → Option (ToolResult (Output A) × ℕ)
  entry j runner = lookup j runner.idempotency

  put_if-Apart :
      (j : String) (key : Option String) (result : ToolResult (Output A)) (now : ℕ)
      (store : Store (Output A))
      → result.status ≡ ToolStatus.success
      → Apart j key
      → lookup j (put_if config import_handler key result now store) ≡ lookup j store
  unfolding put_if put Apart
  put_if-Apart j none result now store s a = refl
  put_if-Apart j (some k) result now store s a = rw (s, put_by, lookup-insert, a)

  wait_for-Apart :
      (j : String) (q : Request P) (key : Option String) (ended : ℕ × HandlerEnd A)
      (runner : Runner P A)
      → Apart j key
      → entry j (wait_for config import_handler q key ended runner).1 ≡ entry j runner
  unfolding wait_for finish completed success_result
  wait_for-Apart j q key (took, ending) runner a =
      if_ind (λ (r : ToolResult (Output A) × Runner P A). entry j r.1 ≡ entry j runner)
        (ltb q.tool.timeout_ms took) refl (go ending)
    where
      go :
          (e : HandlerEnd A)
          → entry j (finish config import_handler q key (took + q.lag) e runner).1 ≡ entry j runner
      go (HandlerEnd.returned raw) =
          put_if-Apart j key _ (q.now + (took + q.lag)) runner.idempotency refl a
      go HandlerEnd.raised_timeout = refl
      go (HandlerEnd.raised exception) = refl

  after_lookup-Apart :
      (j : String) (q : Request P) (key : Option String) (runner : Runner P A)
      (cached : Option (ToolResult (Output A))) (store : Store (Output A))
      → Apart j key
      → entry j (after_lookup config import_handler q key runner (cached, store)).1 ≡ lookup j store
  unfolding after_lookup call_handler
  after_lookup-Apart j q key runner (some r) store a = refl
  after_lookup-Apart j q key runner none store a =
      go (resolve import_handler q.tool.handler_ref runner.resolver)
    where
      go :
          (found : Option (Handler P A) × HandlerResolver P A)
          → entry j
              (call_handler config import_handler q key
                (record runner { idempotency = store })
                found).1
            ≡ lookup j store
      go (none, resolver) = refl
      go (some handler, resolver) = wait_for-Apart j q key (handler.call q.arguments) _ a

  pub get_hit :
      (k : String) (now : ℕ) (r : ToolResult (Output A)) (expires_at : ℕ) (store : Store (Output A))
      → lookup k store ≡ some (r, expires_at)
      → now < expires_at
      → get k now store ≡ (some (replayed r), store)
  unfolding get
  get_hit k now r expires_at store e early =
      let live : leb expires_at now ≡ false = ground arith in rw (e, live_result) (rw live)

  get_other :
      (j k : String) (now : ℕ) (store : Store (Output A))
      → (k == j) ≡ false
      → lookup j (get k now store).1 ≡ lookup j store
  unfolding get
  get_other j k now store a = go (lookup k store)
    where
      go :
          (found : Option (ToolResult (Output A) × ℕ))
          → lookup j (live_result k now store found).1 ≡ lookup j store
      go none = refl
      go (some (r, expires_at)) =
          if_ind
            (λ (x : Option (ToolResult (Output A)) × Store (Output A)).
              lookup j x.1 ≡ lookup j store)
            (leb expires_at now) (rw (lookup-erase, a)) refl

  -- A run before the entry's expiry keeps it, whatever its key.
  pub run-entry :
      (j : String) (q : Request P) (runner : Runner P A) (r : ToolResult (Output A))
      (expires_at : ℕ)
      → entry j runner ≡ some (r, expires_at)
      → q.now < expires_at
      → entry j (run config import_handler q runner).1 ≡ some (r, expires_at)
  unfolding run Apart run_keyed after_lookup live_result
  run-entry j q runner r expires_at e early =
      go (active_key config import_handler q.idempotency_key)
    where
      go :
          (key : Option String)
          → entry j (run_keyed config import_handler q key runner).1 ≡ some (r, expires_at)
      go none = after_lookup-Apart j q none runner none runner.idempotency tt ∙ e
      go (some k) = elim (Bool-cases (k == j)) [
        | inl same ↦
            let here : lookup k runner.idempotency ≡ some (r, expires_at) =
              rw ((eq_iff k j).0 same) e in
            rw (get_hit k q.now r expires_at runner.idempotency here early) e
        | inr other ↦
            after_lookup-Apart j q (some k) runner (get k q.now runner.idempotency).0
              (get k q.now runner.idempotency).1 other
            ∙ get_other j k q.now runner.idempotency other
            ∙ e
      ]
