-- ===== src/Fulfillment/Plan/Terminal.antt =====
-- `_is_terminal` of executor.py, for every list of task states.
use one_ops_next_gen.Prelude.{
  true, false, List, [], ◌∷◌, ◌≡◌, ◌≢◌, ◌↔◌, inl, inr, arith, Memᴰ, any, all, all-mem, Bool-cases,
}
use one_ops_next_gen.Fulfillment.Contracts.{TaskState}
use one_ops_next_gen.Fulfillment.Plan.{
  fulfilled, partial, failed, blocked, running, is_terminal, is_in_flight, is_settled,
  is_blocked_or_settled, is_done, is_failed,
}

in_flight_not_parked :
    (states : List TaskState)
    → any is_in_flight states ≡ true
    → all is_blocked_or_settled states ≡ false
in_flight_not_parked [] h = cc
in_flight_not_parked (s ∷ ss) h = ground (arith, in_flight_not_parked ss)

settled_not_failed :
    (states : List TaskState) → all is_settled states ≡ true → any is_failed states ≡ false
settled_not_failed [] h = ground arith
settled_not_failed (s ∷ ss) h = ground (arith, settled_not_failed ss)

-- A plan goes on exactly while one of its tasks is pending, ready or in progress.
pub is_terminal_iff :
    (states : List TaskState) → ((is_terminal states).0 ≡ true) ↔ (any is_in_flight states ≡ false)
unfolding is_terminal
is_terminal_iff states = (
  λ h. ground (arith, in_flight_not_parked states),
  λ h. ground (arith, in_flight_not_parked states),
)

-- Each outcome of `_is_terminal` has one reading, and `blocked` is never the outcome: the plan is
-- still running exactly with a task in flight, fulfilled exactly with every task done or skipped,
-- and partial exactly with nothing in flight, a task done and a task failed.
pub is_terminal_outcome :
    (states : List TaskState)
    → (((is_terminal states).1 ≡ running) ↔ (any is_in_flight states ≡ true))
      × (((is_terminal states).1 ≡ fulfilled)
          ↔ ((any is_in_flight states ≡ false) × (all is_settled states ≡ true)))
      × (((is_terminal states).1 ≡ partial) ↔ (
          (any is_in_flight states ≡ false)
          × (any is_done states ≡ true)
          × (any is_failed states ≡ true)))
      × ((is_terminal states).1 ≢ blocked)
unfolding is_terminal
is_terminal_outcome states =
    let flight = in_flight_not_parked states in
    let sound = settled_not_failed states in
    (
      (λ h. ground (arith, flight), λ h. ground (arith, flight)),
      (λ h. ground (arith, flight), λ h. ground (arith, flight)),
      (λ h. ground (arith, flight), λ h. ground (arith, flight, sound)),
      λ h. ground (arith, flight),
    )

parked_at_rest :
    (states : List TaskState)
    → all is_blocked_or_settled states ≡ true
    → (any is_in_flight states ≡ false) × (any is_failed states ≡ false)
parked_at_rest [] h = ground arith
parked_at_rest (s ∷ ss) h = ground (arith, parked_at_rest ss)

-- A plan whose tasks are all done, skipped or blocked, one of them blocked, is closed as failed,
-- although no task of it has failed.
pub is_terminal-parked :
    (states : List TaskState)
    → all is_blocked_or_settled states ≡ true
    → Memᴰ TaskState.blocked states
    → (is_terminal states ≡ (true, failed)) × (any is_failed states ≡ false)
unfolding is_terminal
is_terminal-parked states h m =
    let (rest, sound) = parked_at_rest states h in
    (
      elim (Bool-cases (all is_settled states)) [
        | inl settled ↦ cc (all-mem is_settled m settled)
        | inr open_task ↦ ground (arith, rest, sound, open_task)
      ],
      sound,
    )
