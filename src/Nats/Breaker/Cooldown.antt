-- ===== src/Nats/Breaker/Cooldown.antt =====
-- What an open breaker does until its cooldown has passed, however callers interleave.
use one_ops_next_gen.Prelude.{
  ℕ, ◌+◌, ◌-◌, ◌<◌, String, Bool, false, List, [], ◌∷◌, ◌≡◌, refl, sym, ap, subst, ◌∙◌, inl, inr,
  arith, insert, lookup-insert, leb, if◌then◌else◌, Bool-cases, ◌==◌, eq_iff,
}
use one_ops_next_gen.Nats.Breaker.{
  BreakerMode, BreakerState, BreakerConfig, Breaker, admit, admit_in, before_call, record_state,
  record_outcome, state_of, state_or_new, settle_in, stored,
}

-- What callers do with one breaker, each at its tick.
pub data Event : Type 0 where
  asks : ℕ → String → Event
  reports : ℕ → String → Bool → Event

unfoldable pub time : Event → ℕ
time (Event.asks now subject) = now
time (Event.reports now subject success) = now

unfoldable pub after : BreakerConfig → List Event → Breaker → Breaker
after cfg [] cb = cb
after cfg (Event.asks now subject ∷ events) cb = after cfg events (before_call cfg now subject cb).1
after cfg (Event.reports now subject success ∷ events) cb =
    after cfg events (record_outcome cfg now subject success cb)

-- Every event is before the tick.
unfoldable pub IsBefore : ℕ → List Event → Type 0
unfolding time
IsBefore limit [] = Unit
IsBefore limit (e ∷ events) = (time e < limit) × IsBefore limit events

-- The key's breaker is open since the tick.
unfoldable pub IsOpenSince : ℕ → String → Breaker → Type 0
IsOpenSince at subject cb =
    ((state_of subject cb).state ≡ BreakerMode.opened) × ((state_of subject cb).opened_at ≡ at)

state_of-insert :
    (k j : String) (st : BreakerState) (cb : Breaker)
    → state_of j (insert k st cb) ≡ (if k == j then st else state_of j cb)
unfolding state_of
state_of-insert k j st cb = elim (Bool-cases (k == j)) [
  | inl e ↦ rw (lookup-insert, e, state_or_new)
  | inr e ↦ rw (lookup-insert, e)
]

admit_open :
    (cfg : BreakerConfig) (now : ℕ) (st : BreakerState)
    → st.state ≡ BreakerMode.opened
    → now < st.opened_at + cfg.cooldown_seconds
    → 0 < cfg.cooldown_seconds
    → admit cfg now st ≡ (false, st)
unfolding admit admit_in
admit_open cfg now st e early pos =
    let waits : leb cfg.cooldown_seconds (now - st.opened_at) ≡ false = ground arith in
    let still : admit_in cfg now st BreakerMode.opened ≡ (false, st) = rw waits in
    ap (admit_in cfg now st) e ∙ still

record_state_open :
    (cfg : BreakerConfig) (now : ℕ) (success : Bool) (st : BreakerState)
    → st.state ≡ BreakerMode.opened
    → ((record_state cfg now success st).state ≡ BreakerMode.opened)
      × ((record_state cfg now success st).opened_at ≡ st.opened_at)
unfolding record_state settle_in
record_state_open cfg now success st e = rw e (refl, refl)

-- A locked section on one key leaves another key open, and a report leaves its own key open.
IsOpenSince-insert :
    (at : ℕ) (k j : String) (st : BreakerState) (cb : Breaker)
    → IsOpenSince at j cb
    → (k ≡ j → (st.state ≡ BreakerMode.opened) × (st.opened_at ≡ at))
    → IsOpenSince at j (insert k st cb)
unfolding IsOpenSince
IsOpenSince-insert at k j st cb h f = elim (Bool-cases (k == j)) [
  | inl e ↦ rw (state_of-insert, e) (f ((eq_iff k j).0 e))
  | inr e ↦ rw (state_of-insert, e) h
]

IsOpenSince-reports :
    (cfg : BreakerConfig) (at now : ℕ) (k j : String) (success : Bool) (cb : Breaker)
    → IsOpenSince at j cb
    → IsOpenSince at j (record_outcome cfg now k success cb)
unfolding record_outcome IsOpenSince
IsOpenSince-reports cfg at now k j success cb h = IsOpenSince-insert at k j _ cb h (λ e.
    let (m, t) = subst (λ x. IsOpenSince at x cb) (sym e) h in
    let (m', t') = record_state_open cfg now success (state_of k cb) m in (m', t' ∙ t))

IsOpenSince-asks :
    (cfg : BreakerConfig) (at now : ℕ) (k j : String) (cb : Breaker)
    → 0 < cfg.cooldown_seconds
    → now < at + cfg.cooldown_seconds
    → IsOpenSince at j cb
    → IsOpenSince at j (before_call cfg now k cb).1
unfolding before_call stored IsOpenSince
IsOpenSince-asks cfg at now k j cb pos early h = IsOpenSince-insert at k j _ cb h (λ e.
    let (m, t) = subst (λ x. IsOpenSince at x cb) (sym e) h in
    rw (admit_open cfg now (state_of k cb) m (rw t early) pos) (m, t))

stays_open :
    (cfg : BreakerConfig) (at : ℕ) (k : String) (events : List Event) (cb : Breaker)
    → 0 < cfg.cooldown_seconds
    → IsBefore (at + cfg.cooldown_seconds) events
    → IsOpenSince at k cb
    → IsOpenSince at k (after cfg events cb)
unfolding after IsBefore time
stays_open cfg at k [] cb pos early h = h
stays_open cfg at k (Event.asks now j ∷ events) cb pos early h =
    let (e, rest) = early in
    stays_open cfg at k events _ pos rest (IsOpenSince-asks cfg at now j k cb pos e h)
stays_open cfg at k (Event.reports now j success ∷ events) cb pos early h =
    let (e, rest) = early in
    stays_open cfg at k events _ pos rest (IsOpenSince-reports cfg at now j k success cb h)

-- While the cooldown of an open breaker runs, no call of its key is admitted, whatever callers ask
-- and report in between, for this key and the others. The cooldown is to be positive.
pub before_call_open :
    (cfg : BreakerConfig) (at : ℕ) (k : String) (events : List Event) (cb : Breaker) (now : ℕ)
    → 0 < cfg.cooldown_seconds
    → IsOpenSince at k cb
    → IsBefore (at + cfg.cooldown_seconds) events
    → now < at + cfg.cooldown_seconds
    → (before_call cfg now k (after cfg events cb)).0 ≡ false
unfolding before_call stored IsOpenSince
before_call_open cfg at k events cb now pos h early soon =
    let (m, t) = stays_open cfg at k events cb pos early h in
    rw (admit_open cfg now (state_of k (after cfg events cb)) m (rw t soon) pos)
