-- ===== src/Nats/Breaker/Threshold.antt =====
-- When a report opens a closed breaker, and what a half-open one admits.
use one_ops_next_gen.Prelude.{
  ℕ, ◌+◌, ◌*◌, ◌-◌, ◌≤◌, String, Bool, true, false, ◌&&◌, List, [], ◌∷◌, ◌++◌, ◌≡◌, ◌↔◌, refl, sym,
  ap, ◌∙◌, arith, length, filter, leb, ltb, Bool-cases, inl, inr, lookup-insert_self, insert,
}
use one_ops_next_gen.Nats.Breaker.{
  BreakerMode, BreakerState, BreakerConfig, Breaker, Window, trim, window_record, is_tripped,
  failures_of, settle_in, opened_now, record_state, state_of, state_or_new, before_call, admit,
  admit_in, stored, with_mode,
}

-- The event is in the last `seconds`.
unfoldable pub is_recent : ℕ → ℕ → ℕ × Bool → Bool
is_recent seconds now (at, ok) = leb now (at + seconds)

-- In the order of time, and not after `now`.
unfoldable pub IsOrdered : ℕ → Window → Type 0
IsOrdered now [] = Unit
IsOrdered now ((at, ok) ∷ []) = at ≤ now
IsOrdered now ((at, ok) ∷ (at', ok') ∷ events) = (at ≤ at') × IsOrdered now ((at', ok') ∷ events)

all_recent :
    (seconds now at : ℕ) (ok : Bool) (events : Window)
    → IsOrdered now ((at, ok) ∷ events)
    → now ≤ at + seconds
    → filter (is_recent seconds now) events ≡ events
unfolding IsOrdered is_recent
all_recent seconds now at ok [] h r = refl
all_recent seconds now at ok ((at', ok') ∷ events) h r =
    let (le, h') = h in
    let recent : leb now (at' + seconds) ≡ true = ground arith in
    rw recent (ap (λ es. (at', ok') ∷ es) (all_recent seconds now at' ok' events h' (omega arith)))

IsOrdered-tail :
    (now : ℕ) (e : ℕ × Bool) (events : Window) → IsOrdered now (e ∷ events) → IsOrdered now events
unfolding IsOrdered
IsOrdered-tail now (at, ok) [] h = tt
IsOrdered-tail now (at, ok) ((at', ok') ∷ events) h = h.1

trim-eq-filter :
    (seconds now : ℕ) (events : Window)
    → IsOrdered now events
    → trim seconds now events ≡ filter (is_recent seconds now) events
unfolding trim is_recent
trim-eq-filter seconds now [] h = refl
trim-eq-filter seconds now ((at, ok) ∷ events) h = elim (Bool-cases (leb now (at + seconds))) [
  | inl recent ↦
      let kept : ltb (at + seconds) now ≡ false = ground arith in
      rw (recent, kept)
        (ap (λ es. (at, ok) ∷ es) (sym (all_recent seconds now at ok events h (ground arith))))
  | inr old ↦
      let dropped : ltb (at + seconds) now ≡ true = ground arith in
      rw (old, dropped) (trim-eq-filter seconds now events (IsOrdered-tail now (at, ok) events h))
]

filter_twice :
    (p : ℕ × Bool → Bool) (events : Window) → filter p (filter p events) ≡ filter p events
filter_twice p [] = refl
filter_twice p (e ∷ events) = elim (Bool-cases (p e)) [
  | inl h ↦ rw (h, filter, h) (ap (λ es. e ∷ es) (filter_twice p events))
  | inr h ↦ rw h (filter_twice p events)
]

trim_twice :
    (seconds now : ℕ) (events : Window)
    → trim seconds now (trim seconds now events) ≡ trim seconds now events
unfolding trim
trim_twice seconds now [] = refl
trim_twice seconds now ((at, ok) ∷ events) = elim (Bool-cases (ltb (at + seconds) now)) [
  | inl old ↦ rw old (trim_twice seconds now events)
  | inr kept ↦ rw (kept, trim, kept)
]

IsOrdered-snoc :
    (now : ℕ) (ok : Bool) (events : Window)
    → IsOrdered now events
    → IsOrdered now (events ++ ((now, ok) ∷ []))
unfolding IsOrdered
IsOrdered-snoc now ok [] h = omega arith
IsOrdered-snoc now ok ((at, ok') ∷ []) h = (h, omega arith)
IsOrdered-snoc now ok ((at, ok') ∷ (at', ok'') ∷ events) h =
    let (le, h') = h in (le, IsOrdered-snoc now ok ((at', ok'') ∷ events) h')

-- The outcomes that count for a report: the window's and the reported one, of the last
-- `window_seconds`.
unfoldable pub counted : BreakerConfig → ℕ → Bool → Window → Window
unfolding is_recent
counted cfg now success events =
    filter (is_recent cfg.window_seconds now) (events ++ ((now, success) ∷ []))

recorded-eq-counted :
    (cfg : BreakerConfig) (now : ℕ) (success : Bool) (events : Window)
    → IsOrdered now events
    → trim cfg.window_seconds now (window_record cfg.window_seconds now success events)
      ≡ counted cfg now success events
unfolding window_record counted
recorded-eq-counted cfg now success events h =
    trim_twice cfg.window_seconds now (events ++ ((now, success) ∷ []))
    ∙ trim-eq-filter cfg.window_seconds now _ (IsOrdered-snoc now success events h)

is_tripped_iff :
    (cfg : BreakerConfig) (events : Window)
    → (is_tripped cfg events ≡ true) ↔ (
        (cfg.min_requests ≤ length events)
        × (cfg.ratio_num * length events ≤ failures_of events * cfg.ratio_den))
unfolding is_tripped
is_tripped_iff cfg events = (λ h. (ground arith, go _ _ _ h), λ h. ground (arith, h.0, h.1))
  where
    go : (b : Bool) (x y : ℕ) → (b && leb x y) ≡ true → x ≤ y
    go b x y h = ground arith

settle_closed :
    (cfg : BreakerConfig) (now : ℕ) (success : Bool) (events : Window) (at : ℕ)
    → ((settle_in cfg now success events at BreakerMode.closed).state ≡ BreakerMode.opened)
      ↔ (is_tripped cfg (trim cfg.window_seconds now events) ≡ true)
unfolding settle_in opened_now
settle_closed cfg now success events at =
    elim (Bool-cases (is_tripped cfg (trim cfg.window_seconds now events))) [
      | inl t ↦ rw t (λ h. refl, λ h. refl)
      | inr f ↦ rw f (λ h. cc, λ h. cc)
    ]

-- A report opens a closed breaker exactly when, among the outcomes of the last `window_seconds`
-- with the reported one, there are `min_requests` at least and failures in the configured ratio:
-- the report's own success does not matter. The window is to be in the order of time.
pub record_state_opens :
    (cfg : BreakerConfig) (now : ℕ) (success : Bool) (st : BreakerState)
    → st.state ≡ BreakerMode.closed
    → IsOrdered now st.window
    → ((record_state cfg now success st).state ≡ BreakerMode.opened) ↔ (
        (cfg.min_requests ≤ length (counted cfg now success st.window))
        × (cfg.ratio_num * length (counted cfg now success st.window)
            ≤ failures_of (counted cfg now success st.window) * cfg.ratio_den))
unfolding record_state
record_state_opens cfg now success st e h =
    let events = counted cfg now success st.window in
    let (to, from) = is_tripped_iff cfg events in
    let (back, forth) =
      settle_closed cfg now success (window_record cfg.window_seconds now success st.window)
        st.opened_at in
    let same = ap (is_tripped cfg) (recorded-eq-counted cfg now success st.window h) in
    rw e (λ o. to (sym same ∙ back o), λ c. forth (same ∙ from c))

-- Whether each of a row of askers of one key is admitted, in turn.
unfoldable pub all_admitted : BreakerConfig → String → List ℕ → Breaker → Bool
all_admitted cfg k [] cb = true
all_admitted cfg k (now ∷ ticks) cb =
    let (admitted, cb') = before_call cfg now k cb in admitted && all_admitted cfg k ticks cb'

state_of-insert_self :
    (k : String) (st : BreakerState) (cb : Breaker) → state_of k (insert k st cb) ≡ st
unfolding state_of
state_of-insert_self k st cb = rw (lookup-insert_self k st cb, state_or_new)

half_open_before_call :
    (cfg : BreakerConfig) (now : ℕ) (k : String) (cb : Breaker)
    → (state_of k cb).state ≡ BreakerMode.half_open
    → before_call cfg now k cb ≡ (true, insert k (state_of k cb) cb)
unfolding before_call stored admit admit_in
half_open_before_call cfg now k cb h = go (state_of k cb) h
  where
    go :
        (st : BreakerState)
        → st.state ≡ BreakerMode.half_open
        → stored k cb (admit_in cfg now st st.state) ≡ (true, insert k st cb)
    go st h' = ap (λ m. stored k cb (admit_in cfg now st m)) h'

late_before_call :
    (cfg : BreakerConfig) (now : ℕ) (k : String) (cb : Breaker)
    → (state_of k cb).state ≡ BreakerMode.opened
    → (state_of k cb).opened_at + cfg.cooldown_seconds ≤ now
    → before_call cfg now k cb
      ≡ (true, insert k (with_mode BreakerMode.half_open (state_of k cb)) cb)
unfolding before_call stored admit admit_in
late_before_call cfg now k cb e late = go (state_of k cb) e late
  where
    go :
        (st : BreakerState)
        → st.state ≡ BreakerMode.opened
        → st.opened_at + cfg.cooldown_seconds ≤ now
        → stored k cb (admit_in cfg now st st.state)
          ≡ (true, insert k (with_mode BreakerMode.half_open st) cb)
    go st e' late' =
        let due : leb cfg.cooldown_seconds (now - st.opened_at) ≡ true = ground arith in
        ap (λ m. stored k cb (admit_in cfg now st m)) e' ∙ rw due

half_open-all_admitted :
    (cfg : BreakerConfig) (k : String) (ticks : List ℕ) (cb : Breaker)
    → (state_of k cb).state ≡ BreakerMode.half_open
    → all_admitted cfg k ticks cb ≡ true
unfolding all_admitted
half_open-all_admitted cfg k [] cb h = refl
half_open-all_admitted cfg k (now ∷ ticks) cb h =
    let step : before_call cfg now k cb ≡ (true, insert k (state_of k cb) cb) =
      half_open_before_call cfg now k cb h in
    rw step
      (half_open-all_admitted cfg k ticks _ (rw (state_of-insert_self k (state_of k cb) cb) h))

-- Once the cooldown of an open breaker has passed, every caller is admitted until one reports, and
-- not the first alone.
pub probes-all_admitted :
    (cfg : BreakerConfig) (k : String) (now : ℕ) (ticks : List ℕ) (cb : Breaker)
    → (state_of k cb).state ≡ BreakerMode.opened
    → (state_of k cb).opened_at + cfg.cooldown_seconds ≤ now
    → all_admitted cfg k (now ∷ ticks) cb ≡ true
unfolding all_admitted
probes-all_admitted cfg k now ticks cb e late = rw (late_before_call cfg now k cb e late) (
    half_open-all_admitted cfg k ticks _
      (rw (state_of-insert_self k (with_mode BreakerMode.half_open (state_of k cb)) cb)))
