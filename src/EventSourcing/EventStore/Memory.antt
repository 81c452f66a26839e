-- ===== src/EventSourcing/EventStore/Memory.antt =====
-- `makeInMemoryEventStore` of packages/event-sourcing/src/event-store.ts, over its `Ref`.
pub mod Laws
use mathlib.Core.Option.{get_or}
use es_ts_example.Common.{Option, List, [], ◌++◌, not, length, if◌then◌else◌}
use es_ts_example.Common.Int.{pos, int_beq}
use es_ts_example.Effect.{Effect, succeed, fail, ref_get, ref_update, ◌>>=◌, ◌>>◌, map}
use es_ts_example.EventSourcing.EventStore.{
  StoredEvent, AppendRequest, StreamQuery, AllEventsQuery, AppendError, conflict, EventStore,
  aggregate_version_in_records, records_for_aggregate, records_from_sequence_number, limited,
  stored_events_for_append, expected_version_conflict,
}

-- `seed ?? []`
unfoldable pub initial_events {ℓ} :
    {Event : Type ℓ} → Option (List (StoredEvent Event)) → List (StoredEvent Event)
initial_events seed = get_or seed []

abbrev pub Ref : Type 0 → Type 0
Ref Event = List (StoredEvent Event)

module _ {Event Error : Type 0} where
  unfoldable pub fetch : StreamQuery → Effect (Ref Event) Error (List (StoredEvent Event))
  unfolding records_for_aggregate
  fetch query = map (λ records. records_for_aggregate records query) ref_get

  unfoldable pub fetch_all : AllEventsQuery → Effect (Ref Event) Error (List (StoredEvent Event))
  unfolding records_from_sequence_number limited
  fetch_all query =
      map (λ records. limited query.limit (records_from_sequence_number records query)) ref_get

  unfoldable pub append :
      AppendRequest Event → Effect (Ref Event) (AppendError Error) (List (StoredEvent Event))
  unfolding expected_version_conflict
  append command = do
    records ← ref_get
    let actual_version = aggregate_version_in_records records command.aggregate_id
    if not (int_beq (pos actual_version) command.expected_version)
        then fail (conflict (expected_version_conflict command actual_version))
        else do
          let stored = stored_events_for_append command actual_version (length records)
          ref_update (λ current. current ++ stored)
          succeed stored

  unfoldable pub make_in_memory_event_store : EventStore (Ref Event) Event Error
  unfolding fetch fetch_all append
  make_in_memory_event_store = record { fetch = fetch; fetch_all = fetch_all; append = append }
