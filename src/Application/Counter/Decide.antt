-- ===== src/Application/Counter/Decide.antt =====
-- The decisions of packages/domain/src/counter/Decisions.ts, routed by `decide` of
-- packages/application/src/counter/handlers.ts, against a state machine.
use es_ts_example.Common.{
  ℕ, zero, suc, ◌+◌, ◌≤◌, ◌<◌, ◌≡◌, refl, sym, ap, ◌∙◌, List, [], ◌∷◌, ◌++◌, String, false, arith,
  leb, Bool-cases, inl, inr,
}
use es_ts_example.Common.Int.{pos, sub_ℕ}
use es_ts_example.EventSourcing.Decision.{succeeded, succeeded_inj}
use es_ts_example.Domain.Counter.{
  CounterState, counter_not_created, active_counter, disabled_counter, CounterEvent,
  counter_created, counter_incremented, counter_decremented, counter_disabled, CounterAggregate,
  apply_counter_event, to_counter_value, record_counter_event,
}
use es_ts_example.Domain.Counter.Bounds.{IsValid, counter_value_check-le}
use es_ts_example.Application.Counter.{
  CounterCommand, create, increment, decrement, disable, target, decide,
}

-- The life of a counter, as a client sees it: it is created at zero, moves by one between 0 and 5, and
-- is retired for good.
pub data Move : CounterCommand → CounterState → CounterState → Type 0 where
  born : (i : String) → Move (create i) counter_not_created (active_counter i 0)
  up :
      (c i : String) (v : ℕ)
      → v < 5
      → Move (increment c) (active_counter i v) (active_counter i (suc v))
  down : (c i : String) (v : ℕ) → Move (decrement c) (active_counter i (suc v)) (active_counter i v)
  retired : (c i : String) (v : ℕ) → Move (disable c) (active_counter i v) (disabled_counter i v)

-- What an accepted command makes of an aggregate: one move of the state machine, by one new event.
pub record IsAccepted (c : CounterCommand) (a after : CounterAggregate) : Type 0 where
  pub move : Move c a.state after.state
  pub event : CounterEvent
  pub applied : apply_counter_event a.state event ≡ after.state
  pub pending : after.pending_events ≡ a.pending_events ++ event ∷ []
  pub version : after.version ≡ a.version + 1
  pub same_id : after.aggregate_id ≡ a.aggregate_id

clamp_up : (v : ℕ) → v < 5 → to_counter_value (pos (v + 1)) ≡ suc v
unfolding to_counter_value
clamp_up v h = ground arith

clamp_down : (v : ℕ) → suc v ≤ 5 → to_counter_value (sub_ℕ (suc v) 1) ≡ v
unfolding to_counter_value
clamp_down v h = ground arith

module _ (id : String) (n : ℕ) (p : List CounterEvent) where
  abbrev pub with_state : CounterState → CounterAggregate
  with_state s = record { aggregate_id = id; state = s; version = n; pending_events = p }

  accepts :
      (c : CounterCommand) (s : CounterState) (after : CounterAggregate)
      → IsValid s
      → decide c (with_state s) ≡ succeeded after
      → IsAccepted c (with_state s) after
  unfolding decide apply_counter_event
  accepts (create i) counter_not_created after valid h = rw (← succeeded_inj h) (record {
    move = born i;
    event = counter_created i;
    applied = refl;
    pending = refl;
    version = refl;
    same_id = refl;
  })
  accepts (create i) (active_counter j v) after valid h = cc
  accepts (create i) (disabled_counter j v) after valid h = cc
  accepts (increment i) counter_not_created after valid h = cc
  accepts (increment i) (active_counter j v) after valid h = elim (Bool-cases (leb 5 v)) [
    | inl full ↦ let h' = rw full at h in cc h'
    | inr room ↦
        let below : v < 5 = ground arith in
        let h' = rw room at h in
        rw (← succeeded_inj h') (record {
          move = rw (clamp_up v below) (up i j v below);
          event = counter_incremented id;
          applied = refl;
          pending = refl;
          version = refl;
          same_id = refl;
        })
  ]
  accepts (increment i) (disabled_counter j v) after valid h = cc
  accepts (decrement i) counter_not_created after valid h = cc
  accepts (decrement i) (active_counter j zero) after valid h = cc
  accepts (decrement i) (active_counter j (suc v)) after valid h =
      let bound = counter_value_check-le (suc v) valid in
      let above : leb (suc v) 0 ≡ false = ground arith in
      let h' = rw above at h in
      rw (← succeeded_inj h') (record {
        move = rw (clamp_down v bound) (down i j v);
        event = counter_decremented id;
        applied = refl;
        pending = refl;
        version = refl;
        same_id = refl;
      })
  accepts (decrement i) (disabled_counter j v) after valid h = cc
  accepts (disable i) counter_not_created after valid h = cc
  accepts (disable i) (active_counter j v) after valid h = rw (← succeeded_inj h) (record {
    move = retired i j v;
    event = counter_disabled id;
    applied = refl;
    pending = refl;
    version = refl;
    same_id = refl;
  })
  accepts (disable i) (disabled_counter j v) after valid h = cc

-- In a state that a log can reach, an accepted command is a move of the state machine: the value goes
-- from nothing to 0, up or down by exactly one within 0..5, or is kept by a disabling. It records one
-- event, whose application is that move, behind those pending, and the version goes up by one.
pub decide_accepts :
    (c : CounterCommand) (a after : CounterAggregate)
    → IsValid a.state
    → decide c a ≡ succeeded after
    → IsAccepted c a after
decide_accepts c a after valid h =
    accepts a.aggregate_id a.version a.pending_events c a.state after valid h

module _ (id : String) (n : ℕ) (p : List CounterEvent) where
  moves :
      {c : CounterCommand} {s t : CounterState}
      → Move c s t
      → IsValid s
      → (after : CounterAggregate) × (decide c (with_state id n p s) ≡ succeeded after)
        × (after.state ≡ t)
  unfolding decide apply_counter_event
  moves (born i) valid = (_, refl, refl)
  moves (up c i v below) valid =
      let room : leb 5 v ≡ false = ground arith in
      (
        record_counter_event (counter_incremented id) (with_state id n p (active_counter i v)),
        rw room refl,
        ap (active_counter i) (clamp_up v below),
      )
  moves (down c i v) valid =
      let above : leb (suc v) 0 ≡ false = ground arith in
      (
        record_counter_event (counter_decremented id)
            (with_state id n p (active_counter i (suc v))),
        rw above refl,
        ap (active_counter i) (clamp_down v (counter_value_check-le (suc v) valid)),
      )
  moves (retired c i v) valid = (_, refl, refl)

-- Every move of the state machine out of a state that a log can reach is made: its command is
-- accepted, with the state after the move.
pub decide_moves :
    (c : CounterCommand) (a : CounterAggregate) (t : CounterState)
    → IsValid a.state
    → Move c a.state t
    → (after : CounterAggregate) × (decide c a ≡ succeeded after) × (after.state ≡ t)
decide_moves c a t valid m = moves a.aggregate_id a.version a.pending_events m valid

-- The event that stands for a command.
abbrev pub event_of : CounterCommand → CounterEvent
event_of (create i) = counter_created i
event_of (increment i) = counter_incremented i
event_of (decrement i) = counter_decremented i
event_of (disable i) = counter_disabled i

module _ (n : ℕ) (p : List CounterEvent) where
  records :
      (c : CounterCommand) (s : CounterState) (after : CounterAggregate)
      → decide c (with_state (target c) n p s) ≡ succeeded after
      → after ≡ record_counter_event (event_of c) (with_state (target c) n p s)
  unfolding decide
  records (create i) counter_not_created after h = sym (succeeded_inj h)
  records (create i) (active_counter j v) after h = cc
  records (create i) (disabled_counter j v) after h = cc
  records (increment i) counter_not_created after h = cc
  records (increment i) (active_counter j v) after h = elim (Bool-cases (leb 5 v)) [
    | inl full ↦ let h' = rw full at h in cc h'
    | inr room ↦ let h' = rw room at h in sym (succeeded_inj h')
  ]
  records (increment i) (disabled_counter j v) after h = cc
  records (decrement i) counter_not_created after h = cc
  records (decrement i) (active_counter j v) after h = elim (Bool-cases (leb v 0)) [
    | inl low ↦ let h' = rw low at h in cc h'
    | inr room ↦ let h' = rw room at h in sym (succeeded_inj h')
  ]
  records (decrement i) (disabled_counter j v) after h = cc
  records (disable i) counter_not_created after h = cc
  records (disable i) (active_counter j v) after h = sym (succeeded_inj h)
  records (disable i) (disabled_counter j v) after h = cc

-- An accepted command, on the aggregate that it addresses, records the event that stands for it.
pub decide_records :
    (c : CounterCommand) (a after : CounterAggregate)
    → a.aggregate_id ≡ target c
    → decide c a ≡ succeeded after
    → after ≡ record_counter_event (event_of c) a
decide_records c a after same h =
    let renamed : ◌≡◌ {A = CounterAggregate} a (record a { aggregate_id = target c }) =
      λ i. record a { aggregate_id = same i } in
    records a.version a.pending_events c a.state after (sym (ap (decide c) renamed) ∙ h)
    ∙ ap (record_counter_event (event_of c)) (sym renamed)
