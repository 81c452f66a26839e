-- ===== src/EventSourcing/EventStore.antt =====
-- packages/event-sourcing/src/event-store.ts: the records, the queries and the contract of a store.
pub mod Contract
pub mod Log
pub mod Streams
pub mod Memory
pub mod JsonFile
use mathlib.Core.Option.{get_or}
use es_ts_example.Common.{
  ℕ, ◌+◌, Bool, ◌&&◌, Option, none, some, List, String, ◌==◌, leb, length, filter, take, map_index,
}
use es_ts_example.Common.Int.{ℤ}
use es_ts_example.Effect.{Effect}

pub record StoredEvent {ℓ} (Event : Type ℓ) : Type ℓ where
  pub aggregate_id : String
  pub aggregate_version : ℕ
  pub event_store_sequence_number : ℕ
  pub event : Event

pub record AppendRequest {ℓ} (Event : Type ℓ) : Type ℓ where
  pub aggregate_id : String
  pub expected_version : ℤ
  pub events : List Event

pub record StreamQuery : Type 0 where
  pub aggregate_id : String
  pub starting_event_sequence_number : Option ℕ

pub record AllEventsQuery : Type 0 where
  pub starting_event_sequence_number : Option ℕ
  pub limit : Option ℕ

pub record ExpectedVersionConflict : Type 0 where
  pub aggregate_id : String
  pub expected_version : ℤ
  pub actual_version : ℕ

-- `ExpectedVersionConflict | Error`
pub data AppendError (Error : Type 0) : Type 0 where
  conflict : ExpectedVersionConflict → AppendError Error
  store_error : Error → AppendError Error

-- A store over the state `S` behind it. The stream of `fetchAll` is given by the list of its
-- elements, since every client collects it.
pub record EventStore (S Event Error : Type 0) : Type 0 where
  pub fetch : StreamQuery → Effect S Error (List (StoredEvent Event))
  pub fetch_all : AllEventsQuery → Effect S Error (List (StoredEvent Event))
  pub append : AppendRequest Event → Effect S (AppendError Error) (List (StoredEvent Event))

module _ {ℓ} {Event : Type ℓ} where
  abbrev pub is_of_aggregate : String → StoredEvent Event → Bool
  is_of_aggregate aggregate_id record' = record'.aggregate_id == aggregate_id

  unfoldable pub aggregate_version_in_records : List (StoredEvent Event) → String → ℕ
  aggregate_version_in_records records aggregate_id =
      length (filter (is_of_aggregate aggregate_id) records)

  unfoldable pub records_for_aggregate :
      List (StoredEvent Event) → StreamQuery → List (StoredEvent Event)
  records_for_aggregate records query =
      filter
        (λ r.
          r.aggregate_id == query.aggregate_id
          && leb (get_or query.starting_event_sequence_number 1) r.event_store_sequence_number)
        records

  unfoldable pub records_from_sequence_number :
      List (StoredEvent Event) → AllEventsQuery → List (StoredEvent Event)
  records_from_sequence_number records query =
      filter
        (λ r. leb (get_or query.starting_event_sequence_number 1) r.event_store_sequence_number)
        records

  -- `Option.match` on `query.limit`: without a limit the whole stream, else `Stream.take`.
  unfoldable pub limited : Option ℕ → List (StoredEvent Event) → List (StoredEvent Event)
  limited none base = base
  limited (some limit) base = take limit base

  -- The record at one index of an append.
  abbrev pub stored_event_for_append : AppendRequest Event → ℕ → ℕ → ℕ → Event → StoredEvent Event
  stored_event_for_append command start_version start_sequence_number index event = record {
    aggregate_id = command.aggregate_id;
    aggregate_version = start_version + index + 1;
    event_store_sequence_number = start_sequence_number + index + 1;
    event = event;
  }

  unfoldable pub stored_events_for_append : AppendRequest Event → ℕ → ℕ → List (StoredEvent Event)
  stored_events_for_append command start_version start_sequence_number =
      map_index (stored_event_for_append command start_version start_sequence_number) 0
        command.events

  unfoldable pub expected_version_conflict : AppendRequest Event → ℕ → ExpectedVersionConflict
  expected_version_conflict command actual_version = record {
    aggregate_id = command.aggregate_id;
    expected_version = command.expected_version;
    actual_version = actual_version;
  }
