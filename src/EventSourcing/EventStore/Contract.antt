-- ===== src/EventSourcing/EventStore/Contract.antt =====
-- What packages/event-sourcing/src/event-store.ts promises of a store: it behaves as a log, whatever
-- it keeps the log in. Clients are proved against this interface.
use es_ts_example.Common.{ℕ, ◌≡◌, ◌≢◌, List, ◌++◌, String, none, map, length}
use es_ts_example.Common.Int.{pos}
use es_ts_example.Effect.{success, failure}
use es_ts_example.EventSourcing.EventStore.{
  StoredEvent, AppendRequest, StreamQuery, AllEventsQuery, conflict, EventStore,
  aggregate_version_in_records, records_for_aggregate, records_from_sequence_number, limited,
  stored_events_for_append, expected_version_conflict,
}

-- How a log of one type is read and extended by a store of events of another.
pub record LogView (Log Event : Type 0) : Type 0 where
  pub read : Log → StreamQuery → List (StoredEvent Event)
  pub read_all : Log → AllEventsQuery → List (StoredEvent Event)
  pub version : Log → String → ℕ
  pub added : Log → AppendRequest Event → List (StoredEvent Event)
  pub extend : Log → AppendRequest Event → Log

-- Wherever the state of the store holds a log, reads answer from it and change nothing, an append
-- with the wrong version is refused and changes nothing, and any other append extends the log.
pub record Implements {S Log Event Error : Type 0} (store : EventStore S Event Error)
    (view : LogView Log Event) (Holds : S → Log → Type 0) : Type 0 where
  pub fetch_reads :
      (s : S) (log : Log) (query : StreamQuery)
      → Holds s log
      → store.fetch query s ≡ (success (view.read log query), s)
  pub fetch_all_reads :
      (s : S) (log : Log) (query : AllEventsQuery)
      → Holds s log
      → store.fetch_all query s ≡ (success (view.read_all log query), s)
  pub append_conflicts :
      (s : S) (log : Log) (command : AppendRequest Event)
      → Holds s log
      → pos (view.version log command.aggregate_id) ≢ command.expected_version
      → store.append command s ≡ (
        failure
            (conflict (expected_version_conflict command (view.version log command.aggregate_id))),
        s,
      )
  pub append_stores :
      (s : S) (log : Log) (command : AppendRequest Event)
      → Holds s log
      → pos (view.version log command.aggregate_id) ≡ command.expected_version
      → ((store.append command s).0 ≡ success (view.added log command))
        × Holds (store.append command s).1 (view.extend log command)

module _ {Event : Type 0} where
  -- The records of an append to a log.
  abbrev pub added_to : List (StoredEvent Event) → AppendRequest Event → List (StoredEvent Event)
  added_to log command =
      stored_events_for_append command (aggregate_version_in_records log command.aggregate_id)
        (length log)

  -- A store that keeps a list of records.
  abbrev pub record_view : LogView (List (StoredEvent Event)) Event
  record_view = record {
    read = records_for_aggregate;
    read_all = λ log query. limited query.limit (records_from_sequence_number log query);
    version = aggregate_version_in_records;
    added = added_to;
    extend = λ log command. log ++ added_to log command;
  }

-- The query for a whole stream.
abbrev pub whole_stream : String → StreamQuery
whole_stream aggregate_id = record {
  aggregate_id = aggregate_id;
  starting_event_sequence_number = none;
}

-- The query for the whole log.
abbrev pub everything : AllEventsQuery
everything = record { starting_event_sequence_number = none; limit = none }

abbrev pub events_of {ℓ} : {Event : Type ℓ} → List (StoredEvent Event) → List Event
events_of = map (λ r. r.event)

-- The streams of a log that a view reads and extends faithfully: the version counts what is read, and
-- an append puts its events behind those that are there.
pub record Streams {Log Event : Type 0} (view : LogView Log Event) (IsSound : Log → String → Type 0)
    : Type 0 where
  pub counts :
      (log : Log) (name : String)
      → IsSound log name
      → view.version log name ≡ length (view.read log (whole_stream name))
  pub grows :
      (log : Log) (command : AppendRequest Event)
      → IsSound log command.aggregate_id
      → events_of (view.read (view.extend log command) (whole_stream command.aggregate_id))
        ≡ events_of (view.read log (whole_stream command.aggregate_id)) ++ command.events
  pub keeps :
      (log : Log) (command : AppendRequest Event) (name : String)
      → IsSound log name
      → IsSound (view.extend log command) name
