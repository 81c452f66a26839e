-- ===== src/Domain/Counter/Replay.antt =====
-- The aggregate of packages/domain/src/counter/Aggregate.ts is the generic one, at the counter's reducer.
use es_ts_example.Common.{◌≡◌, refl, List, String}
use es_ts_example.EventSourcing.Aggregate.{record_event, replay_aggregate}
use es_ts_example.EventSourcing.Aggregate.Replay.{replayed, replay_aggregate-eq-replayed}
use es_ts_example.Domain.Counter.{
  CounterEvent, initial_counter_state, apply_counter_event, replay_counter, record_counter_event,
  counter_state_from,
}

pub replay_counter-eq-replayed :
    (counter_id : String) (events : List CounterEvent)
    → replay_counter counter_id events
      ≡ replayed counter_id initial_counter_state apply_counter_event events
unfolding replay_counter
replay_counter-eq-replayed counter_id events =
    replay_aggregate-eq-replayed apply_counter_event counter_id initial_counter_state events

pub state-replay_counter :
    (counter_id : String) (events : List CounterEvent)
    → (replay_counter counter_id events).state ≡ counter_state_from events
unfolding counter_state_from
state-replay_counter counter_id events = rw replay_counter-eq-replayed

pub id-replay_counter :
    (counter_id : String) (events : List CounterEvent)
    → (replay_counter counter_id events).aggregate_id ≡ counter_id
id-replay_counter counter_id events = rw replay_counter-eq-replayed

-- A counter event recorded on a replayed counter, in the generic terms.
pub record_counter_event-replay_counter :
    (counter_id : String) (events : List CounterEvent) (e : CounterEvent)
    → record_counter_event e (replay_counter counter_id events)
      ≡ record_event apply_counter_event e
          (replay_aggregate counter_id initial_counter_state apply_counter_event events)
unfolding record_counter_event replay_counter
record_counter_event-replay_counter counter_id events e = refl
