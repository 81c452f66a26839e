-- ===== src/Application/EventStore/Collision.antt =====
-- Two slices that use one id (packages/application/src/eventStore.ts with
-- packages/event-sourcing/src/repository.ts): the store counts the records of both, and each slice reads
-- only its own.
use es_ts_example.Common.{◌≡◌, ◌≢◌, none, List, String, arith, length-map}
use es_ts_example.Effect.{failure}
use es_ts_example.EventSourcing.Aggregate.{Reducer}
use es_ts_example.EventSourcing.EventStore.{
  StoredEvent, EventStore, conflict, expected_version_conflict, aggregate_version_in_records,
}
use es_ts_example.EventSourcing.EventStore.Contract.{Implements, record_view, whole_stream}
use es_ts_example.EventSourcing.EventStore.Log.{IsWellFormed}
use es_ts_example.EventSourcing.Repository.{RepositoryOptions, save}
use es_ts_example.EventSourcing.Repository.Laws.{history, changed, request, save_conflict}
use es_ts_example.Domain.{DomainEvent}
use es_ts_example.Application.EventStore.{EventSchema, event_store_for}
use es_ts_example.Application.EventStore.Laws.{slice_view, event_store_for-Implements}
use es_ts_example.Application.EventStore.Streams.{foreign, version-foreign}

module _ {S State Event StoreError : Type 0} (schema : EventSchema Event)
    (store : EventStore S DomainEvent StoreError) (initial_state : State)
    (reducer : Reducer State Event) where
  -- The repository of a slice: without a stream name, as both slices make it.
  abbrev pub slice_repository : RepositoryOptions S State Event StoreError
  slice_repository = record {
    store = event_store_for schema store;
    initial_state = initial_state;
    reducer = reducer;
    stream_name = none;
  }

  -- If any record of another slice stands in the stream of an id, the slice cannot save events for
  -- that id: whatever it records on the aggregate that it has just loaded, the save fails with a
  -- conflict, and writes nothing.
  pub save_on_shared_id :
      {Holds : S → List (StoredEvent DomainEvent) → Type 0}
      (impl : Implements store record_view Holds) (s : S) (log : List (StoredEvent DomainEvent))
      (aggregate_id : String) (events : List Event)
      → Holds s log
      → IsWellFormed log
      → foreign schema log aggregate_id ≢ 0
      → let sliced = event_store_for-Implements schema store record_view Holds impl in
        let past = history slice_repository sliced log aggregate_id in
        save slice_repository (changed slice_repository sliced aggregate_id past events) s ≡ (
          failure (
              conflict (
                expected_version_conflict
                  (request slice_repository sliced aggregate_id past events)
                  (aggregate_version_in_records log aggregate_id))),
          s,
        )
  save_on_shared_id {Holds} impl s log aggregate_id events holds well_formed shared =
      let sliced = event_store_for-Implements schema store record_view Holds impl in
      let past = history slice_repository sliced log aggregate_id in
      let seen =
        length-map (λ (r : StoredEvent Event). r.event)
          ((slice_view schema record_view).read log (whole_stream aggregate_id)) in
      save_conflict slice_repository sliced s log aggregate_id past events holds
        (λ e. shared (omega (arith, version-foreign schema log aggregate_id well_formed, seen, e)))
