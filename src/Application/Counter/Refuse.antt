-- ===== src/Application/Counter/Refuse.antt =====
-- The refusals of packages/domain/src/counter/Decisions.ts, routed by `decide` of
-- packages/application/src/counter/handlers.ts, against a table of reasons.
use es_ts_example.Common.{
  ◌↔◌, ℕ, zero, suc, ◌≤◌, ◌≡◌, refl, List, String, true, false, arith, leb, Bool-cases, inl, inr,
}
use es_ts_example.EventSourcing.Decision.{failed, failed_inj}
use es_ts_example.Domain.Counter.{
  CounterState, counter_not_created, active_counter, disabled_counter, CounterEvent,
  CounterAggregate, CounterRejection, counter_already_exists, counter_does_not_exist,
  counter_is_disabled, counter_minimum_reached, counter_maximum_reached,
}
use es_ts_example.Application.Counter.{
  CounterCommand, create, increment, decrement, disable, decide,
}
use es_ts_example.Application.Counter.Decide.{with_state}

-- Why a command is refused in a state.
pub data Refused (id : String) : CounterCommand → CounterState → CounterRejection → Type 0 where
  exists_active :
      (c i : String) (v : ℕ)
      → Refused id (create c) (active_counter i v) (counter_already_exists id)
  exists_disabled :
      (c i : String) (v : ℕ)
      → Refused id (create c) (disabled_counter i v) (counter_already_exists id)
  missing_up :
      (c : String) → Refused id (increment c) counter_not_created (counter_does_not_exist id)
  missing_down :
      (c : String) → Refused id (decrement c) counter_not_created (counter_does_not_exist id)
  missing_disable :
      (c : String) → Refused id (disable c) counter_not_created (counter_does_not_exist id)
  retired_up :
      (c i : String) (v : ℕ)
      → Refused id (increment c) (disabled_counter i v) (counter_is_disabled id)
  retired_down :
      (c i : String) (v : ℕ)
      → Refused id (decrement c) (disabled_counter i v) (counter_is_disabled id)
  retired_disable :
      (c i : String) (v : ℕ)
      → Refused id (disable c) (disabled_counter i v) (counter_is_disabled id)
  at_maximum :
      (c i : String) (v : ℕ)
      → 5 ≤ v
      → Refused id (increment c) (active_counter i v) (counter_maximum_reached id)
  at_minimum :
      (c i : String) → Refused id (decrement c) (active_counter i zero) (counter_minimum_reached id)

module _ (id : String) (n : ℕ) (p : List CounterEvent) where
  refuses :
      {c : CounterCommand} {s : CounterState} {r : CounterRejection}
      → Refused id c s r
      → decide c (with_state id n p s) ≡ failed r
  unfolding decide
  refuses (exists_active c i v) = refl
  refuses (exists_disabled c i v) = refl
  refuses (missing_up c) = refl
  refuses (missing_down c) = refl
  refuses (missing_disable c) = refl
  refuses (retired_up c i v) = refl
  refuses (retired_down c i v) = refl
  refuses (retired_disable c i v) = refl
  refuses (at_maximum c i v full) = let e : leb 5 v ≡ true = ground arith in rw e
  refuses (at_minimum c i) = refl

  refusals :
      (c : CounterCommand) (s : CounterState) (r : CounterRejection)
      → decide c (with_state id n p s) ≡ failed r
      → Refused id c s r
  unfolding decide
  refusals (create i) counter_not_created r h = cc
  refusals (create i) (active_counter j v) r h = rw (← failed_inj h) (exists_active i j v)
  refusals (create i) (disabled_counter j v) r h = rw (← failed_inj h) (exists_disabled i j v)
  refusals (increment i) counter_not_created r h = rw (← failed_inj h) (missing_up i)
  refusals (increment i) (active_counter j v) r h = elim (Bool-cases (leb 5 v)) [
    | inl full ↦ let h' = rw full at h in rw (← failed_inj h') (at_maximum i j v (ground arith))
    | inr room ↦ let h' = rw room at h in cc h'
  ]
  refusals (increment i) (disabled_counter j v) r h = rw (← failed_inj h) (retired_up i j v)
  refusals (decrement i) counter_not_created r h = rw (← failed_inj h) (missing_down i)
  refusals (decrement i) (active_counter j zero) r h = rw (← failed_inj h) (at_minimum i j)
  refusals (decrement i) (active_counter j (suc v)) r h =
      let above : leb (suc v) 0 ≡ false = ground arith in let h' = rw above at h in cc h'
  refusals (decrement i) (disabled_counter j v) r h = rw (← failed_inj h) (retired_down i j v)
  refusals (disable i) counter_not_created r h = rw (← failed_inj h) (missing_disable i)
  refusals (disable i) (active_counter j v) r h = cc
  refusals (disable i) (disabled_counter j v) r h = rw (← failed_inj h) (retired_disable i j v)

-- A command is refused exactly for the reason that the table gives: creating what exists, anything
-- else on what was never created or is disabled, going above 5 or below 0.
pub decide_refuses :
    (c : CounterCommand) (a : CounterAggregate) (r : CounterRejection)
    → (decide c a ≡ failed r) ↔ Refused a.aggregate_id c a.state r
decide_refuses c a r = (
  refusals a.aggregate_id a.version a.pending_events c a.state r,
  refuses a.aggregate_id a.version a.pending_events,
)
