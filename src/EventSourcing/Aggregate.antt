-- ===== src/EventSourcing/Aggregate.antt =====
-- packages/event-sourcing/src/aggregate.ts
pub mod Replay
use es_ts_example.Common.{ℕ, ◌+◌, List, [], ◌∷◌, ◌++◌, foldl}

abbrev pub Reducer {ℓ} : Type ℓ → Type ℓ → Type ℓ
Reducer State Event = State → Event → State

pub record Aggregate {ℓ} (State Event Key : Type ℓ) : Type ℓ where
  pub aggregate_id : Key
  pub state : State
  pub version : ℕ
  pub pending_events : List Event

abbrev pub initial_version : ℕ
initial_version = 0

module _ {ℓ} {State Event : Type ℓ} where
  unfoldable pub replay_into : State → Reducer State Event → List Event → State
  replay_into initial_state reducer events = foldl reducer initial_state events

module _ {ℓ} {State Event Key : Type ℓ} where
  unfoldable pub make_aggregate : Key → State → Aggregate State Event Key
  make_aggregate aggregate_id state = record {
    aggregate_id = aggregate_id;
    state = state;
    version = initial_version;
    pending_events = [];
  }

  unfoldable pub record_event :
      Reducer State Event → Event → Aggregate State Event Key → Aggregate State Event Key
  record_event reducer event aggregate = record aggregate {
    state = reducer aggregate.state event;
    version = aggregate.version + 1;
    pending_events = aggregate.pending_events ++ event ∷ [];
  }

  unfoldable pub replay_event :
      Reducer State Event → Event → Aggregate State Event Key → Aggregate State Event Key
  replay_event reducer event aggregate = record aggregate {
    state = reducer aggregate.state event;
    version = aggregate.version + 1;
  }

  unfoldable pub replay_aggregate :
      Key → State → Reducer State Event → List Event → Aggregate State Event Key
  unfolding make_aggregate replay_event
  replay_aggregate aggregate_id initial_state reducer events =
      foldl (λ aggregate event. replay_event reducer event aggregate)
        (make_aggregate aggregate_id initial_state) events

pub record AggregateDefinition {ℓ} (State Event Key : Type ℓ) : Type ℓ where
  pub empty : Key → Aggregate State Event Key
  pub record_event : Event → Aggregate State Event Key → Aggregate State Event Key
  pub replay : Key → List Event → Aggregate State Event Key

unfoldable pub define_aggregate {ℓ} :
    {State Event Key : Type ℓ} → State → Reducer State Event → AggregateDefinition State Event Key
unfolding make_aggregate record_event replay_aggregate
define_aggregate initial_state reducer = record {
  empty = λ aggregate_id. make_aggregate aggregate_id initial_state;
  record_event = λ event aggregate. record_event reducer event aggregate;
  replay = λ aggregate_id events. replay_aggregate aggregate_id initial_state reducer events;
}
