-- ===== src/Application/EventStore.antt =====
-- packages/application/src/eventStore.ts: one slice's view of the shared log.
pub mod Laws
pub mod Streams
pub mod Collision
pub mod Narrowed
use mathlib.Core.Option
use es_ts_example.Common.{Bool, true, false, Option, none, some, List, map, filter_map}
use es_ts_example.Effect
use es_ts_example.Effect.{Effect}
use es_ts_example.EventSourcing.EventStore.{
  StoredEvent, AppendRequest, EventStore, StreamQuery, AllEventsQuery, AppendError,
}
use es_ts_example.Domain.{DomainEvent, counter_event, user_event}
use es_ts_example.Domain.Counter.{CounterEvent}
use es_ts_example.Domain.User.{UserEvent}

-- A slice's events among the domain's: `Schema.is(eventSchema)` as a refinement, and the inclusion of
-- `Event extends DomainEvent`.
pub record EventSchema (Event : Type 0) : Type 0 where
  pub is : DomainEvent → Option Event
  pub as_domain : Event → DomainEvent

-- `Schema.is(Domain.CounterEvent)`
unfoldable pub counter_event_of : DomainEvent → Option CounterEvent
counter_event_of (counter_event e) = some e
counter_event_of (user_event e) = none

-- `Schema.is(Domain.UserEvent)`
unfoldable pub user_event_of : DomainEvent → Option UserEvent
user_event_of (counter_event e) = none
user_event_of (user_event e) = some e

abbrev pub counter_event_schema : EventSchema CounterEvent
counter_event_schema = record { is = counter_event_of; as_domain = counter_event }

abbrev pub user_event_schema : EventSchema UserEvent
user_event_schema = record { is = user_event_of; as_domain = user_event }

module _ {Event : Type 0} (schema : EventSchema Event) where
  -- `belongsToSlice`: the record with its event refined, or none.
  unfoldable pub belongs_to_slice : StoredEvent DomainEvent → Option (StoredEvent Event)
  belongs_to_slice r =
      Option.map
        (λ e. record {
          aggregate_id = r.aggregate_id;
          aggregate_version = r.aggregate_version;
          event_store_sequence_number = r.event_store_sequence_number;
          event = e;
        })
        (schema.is r.event)

  -- `Arr.filter(belongsToSlice(eventSchema))`
  unfoldable pub narrowed : List (StoredEvent DomainEvent) → List (StoredEvent Event)
  unfolding belongs_to_slice filter_map
  narrowed = filter_map belongs_to_slice

  abbrev pub domain_request : AppendRequest Event → AppendRequest DomainEvent
  domain_request command = record {
    aggregate_id = command.aggregate_id;
    expected_version = command.expected_version;
    events = map schema.as_domain command.events;
  }

  module _ {S StoreError : Type 0} (store : EventStore S DomainEvent StoreError) where
    unfoldable pub fetch : StreamQuery → Effect S StoreError (List (StoredEvent Event))
    unfolding narrowed
    fetch query = Effect.map narrowed (store.fetch query)

    unfoldable pub fetch_all : AllEventsQuery → Effect S StoreError (List (StoredEvent Event))
    unfolding narrowed
    fetch_all query = Effect.map narrowed (store.fetch_all query)

    unfoldable pub append :
        AppendRequest Event → Effect S (AppendError StoreError) (List (StoredEvent Event))
    unfolding narrowed
    append command = Effect.map narrowed (store.append (domain_request command))

    unfoldable pub event_store_for : EventStore S Event StoreError
    unfolding fetch fetch_all append
    event_store_for = record { fetch = fetch; fetch_all = fetch_all; append = append }
