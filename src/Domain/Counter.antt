-- ===== src/Domain/Counter.antt =====
-- packages/domain/src/counter: State.ts, Events.ts, Reducer.ts, Aggregate.ts, Rejections.ts and
-- Decisions.ts. An id is a string; the brand and the check that it is not empty are made by whoever
-- makes the id.
pub mod Bounds
pub mod Replay
use es_ts_example.Common.{ℕ, ◌+◌, List, String, Bool, true, false, ltb, leb, if◌then◌else◌, ◌&&◌}
use es_ts_example.Common.Int.{ℤ, pos, negsuc, sub_ℕ}
use es_ts_example.EventSourcing.Aggregate.{
  Aggregate, AggregateDefinition, define_aggregate, replay_into,
}
use es_ts_example.EventSourcing.Decision.{Decision, accept, reject}

pub data CounterState : Type 0 where
  counter_not_created : CounterState
  active_counter : String → ℕ → CounterState
  disabled_counter : String → ℕ → CounterState

abbrev pub initial_counter_state : CounterState
initial_counter_state = counter_not_created

abbrev pub minimum_counter_value : ℕ
minimum_counter_value = 0

abbrev pub maximum_counter_value : ℕ
maximum_counter_value = 5

-- The check of `CounterValue`, on integers.
unfoldable pub counter_value_check : ℤ → Bool
counter_value_check (pos n) = leb 0 n && leb n 5
counter_value_check (negsuc n) = false

pub data CounterEvent : Type 0 where
  counter_created counter_incremented counter_decremented counter_disabled : String → CounterEvent

-- `Num.clamp` with both bounds.
unfoldable pub to_counter_value : ℤ → ℕ
to_counter_value (negsuc n) = minimum_counter_value
to_counter_value (pos n) =
    if ltb n minimum_counter_value
    then minimum_counter_value
    else if ltb maximum_counter_value n
    then maximum_counter_value
    else n

-- `activeCounter` of Reducer.ts
unfoldable pub make_active_counter : String → ℤ → CounterState
unfolding to_counter_value
make_active_counter counter_id value = active_counter counter_id (to_counter_value value)

unfoldable pub apply_counter_event : CounterState → CounterEvent → CounterState
unfolding make_active_counter
apply_counter_event counter_not_created (counter_created counter_id) =
    make_active_counter counter_id (pos 0)
apply_counter_event counter_not_created (counter_incremented _) = counter_not_created
apply_counter_event counter_not_created (counter_decremented _) = counter_not_created
apply_counter_event counter_not_created (counter_disabled _) = counter_not_created
apply_counter_event (active_counter counter_id value) (counter_created _) =
    active_counter counter_id value
apply_counter_event (active_counter counter_id value) (counter_incremented _) =
    make_active_counter counter_id (pos (value + 1))
apply_counter_event (active_counter counter_id value) (counter_decremented _) =
    make_active_counter counter_id (sub_ℕ value 1)
apply_counter_event (active_counter counter_id value) (counter_disabled _) =
    disabled_counter counter_id value
apply_counter_event (disabled_counter counter_id value) _ = disabled_counter counter_id value

unfoldable pub counter_state_from : List CounterEvent → CounterState
unfolding replay_into apply_counter_event
counter_state_from = replay_into initial_counter_state apply_counter_event

abbrev pub CounterAggregate : Type 0
CounterAggregate = Aggregate CounterState CounterEvent String

unfoldable pub counter_aggregate : AggregateDefinition CounterState CounterEvent String
unfolding define_aggregate apply_counter_event
counter_aggregate = define_aggregate initial_counter_state apply_counter_event

unfoldable pub new_counter : String → CounterAggregate
unfolding counter_aggregate
new_counter counter_id = counter_aggregate.empty counter_id

unfoldable pub record_counter_event : CounterEvent → CounterAggregate → CounterAggregate
unfolding counter_aggregate
record_counter_event = counter_aggregate.record_event

unfoldable pub replay_counter : String → List CounterEvent → CounterAggregate
unfolding counter_aggregate
replay_counter counter_id events = counter_aggregate.replay counter_id events

-- The rejections of every decision.
pub data CounterRejection : Type 0 where
  counter_already_exists counter_does_not_exist counter_is_disabled : String → CounterRejection
  counter_minimum_reached counter_maximum_reached : String → CounterRejection

abbrev pub CounterDecision : Type 0
CounterDecision = Decision CounterAggregate CounterRejection

unfoldable pub reject_missing_counter : CounterAggregate → CounterDecision
reject_missing_counter aggregate = reject (counter_does_not_exist aggregate.aggregate_id)

unfoldable pub reject_disabled_counter : CounterAggregate → CounterDecision
reject_disabled_counter aggregate = reject (counter_is_disabled aggregate.aggregate_id)

unfoldable pub create_counter : String → CounterAggregate → CounterDecision
unfolding record_counter_event
create_counter counter_id aggregate = elim aggregate.state [
  | counter_not_created ↦ accept (record_counter_event (counter_created counter_id) aggregate)
  | _ ↦ reject (counter_already_exists aggregate.aggregate_id)
]

unfoldable pub increment_counter : CounterAggregate → CounterDecision
unfolding record_counter_event reject_missing_counter reject_disabled_counter
increment_counter aggregate = elim aggregate.state [
  | counter_not_created ↦ reject_missing_counter aggregate
  | disabled_counter _ _ ↦ reject_disabled_counter aggregate
  | active_counter _ value ↦
      if leb maximum_counter_value value
      then reject (counter_maximum_reached aggregate.aggregate_id)
      else accept (record_counter_event (counter_incremented aggregate.aggregate_id) aggregate)
]

unfoldable pub decrement_counter : CounterAggregate → CounterDecision
unfolding record_counter_event reject_missing_counter reject_disabled_counter
decrement_counter aggregate = elim aggregate.state [
  | counter_not_created ↦ reject_missing_counter aggregate
  | disabled_counter _ _ ↦ reject_disabled_counter aggregate
  | active_counter _ value ↦
      if leb value minimum_counter_value
      then reject (counter_minimum_reached aggregate.aggregate_id)
      else accept (record_counter_event (counter_decremented aggregate.aggregate_id) aggregate)
]

unfoldable pub disable_counter : CounterAggregate → CounterDecision
unfolding record_counter_event reject_missing_counter reject_disabled_counter
disable_counter aggregate = elim aggregate.state [
  | counter_not_created ↦ reject_missing_counter aggregate
  | disabled_counter _ _ ↦ reject_disabled_counter aggregate
  | active_counter _ value ↦
      accept (record_counter_event (counter_disabled aggregate.aggregate_id) aggregate)
]
