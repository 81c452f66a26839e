-- ===== src/EventSourcing/EventStore/JsonFile.antt =====
-- `makeJsonFileEventStore` of packages/event-sourcing/src/event-store.ts. The file system, `JSON` and
-- the schema codec are not the program's: they are parameters.
pub mod Laws
use es_ts_example.Common.{
  Bool, Option, none, some, List, [], ◌++◌, String, not, length, if◌then◌else◌,
}
use es_ts_example.Common.Int.{pos, int_beq}
use es_ts_example.Effect.{Effect, Exit, succeed, fail, ◌>>=◌, ◌>>◌, map, map_error}
use es_ts_example.EventSourcing.EventStore.{
  StoredEvent, AppendRequest, StreamQuery, AllEventsQuery, AppendError, conflict, store_error,
  EventStore, aggregate_version_in_records, records_for_aggregate, records_from_sequence_number,
  limited, stored_events_for_append, expected_version_conflict,
}

pub record EventStorePersistenceFailure : Type 0 where
  pub message : String

-- A value of type `unknown` that was thrown or failed with: `error.message` where it is an instance
-- of `Error`, and `String(error)`.
pub record Unknown : Type 0 where
  pub error_message : Option String
  pub as_string : String

unfoldable pub event_store_persistence_failure : Unknown → EventStorePersistenceFailure
event_store_persistence_failure error = record {
  message = elim error.error_message [ some message ↦ message | none ↦ error.as_string ];
}

-- A failure of the store as such a value: a tagged struct is a plain object, and no `Error`.
abbrev pub plain_object : EventStorePersistenceFailure → Unknown
plain_object failure' = record { error_message = none; as_string = "[object Object]" }

-- `FileSystem` of Effect, over the state `S` of the disk.
pub record FileSystem (S : Type 0) : Type 0 where
  pub exists : String → Effect S Unknown Bool
  pub read_file_string : String → Effect S Unknown String
  pub write_file_string : String → String → Effect S Unknown (Unit {0})

-- `JSON` and `Schema.decodeUnknownEffect(StoredEvents(event))`, `Schema.encodeUnknownEffect(…)`,
-- whose `SchemaError` is an `Error`; they use no state.
pub record Codec (Event : Type 0) : Type 1 where
  pub Json : Type 0
  pub parse : String → Exit Unknown Json
  pub stringify : Json → String
  pub decode : Json → Exit Unknown (List (StoredEvent Event))
  pub encode : List (StoredEvent Event) → Exit Unknown Json

-- A computation without state.
abbrev pub lift {ℓ} : {S E A : Type ℓ} → Exit E A → Effect S E A
lift exit s = (exit, s)

module _ {S Event : Type 0} (codec : Codec Event) (fs : FileSystem S) (path : String) where
  unfoldable pub parse_json : String → Effect S EventStorePersistenceFailure codec.Json
  unfolding event_store_persistence_failure
  parse_json contents = map_error event_store_persistence_failure (lift (codec.parse contents))

  unfoldable pub parse_stored_event_records :
      String → Effect S EventStorePersistenceFailure (List (StoredEvent Event))
  unfolding parse_json event_store_persistence_failure
  parse_stored_event_records contents =
      map_error event_store_persistence_failure
        (do json ← map_error plain_object (parse_json contents); lift (codec.decode json))

  unfoldable pub write_json_file_records :
      List (StoredEvent Event) → Effect S EventStorePersistenceFailure (Unit {0})
  unfolding event_store_persistence_failure
  write_json_file_records records = map_error event_store_persistence_failure (do
    contents ← map codec.stringify (lift (codec.encode records))
    fs.write_file_string path contents)

  unfoldable pub read_json_file_records :
      Effect S EventStorePersistenceFailure (List (StoredEvent Event))
  unfolding parse_stored_event_records event_store_persistence_failure
  read_json_file_records = do
    exists ← map_error event_store_persistence_failure (fs.exists path)
    if not exists then succeed [] else do
      contents ← map_error event_store_persistence_failure (fs.read_file_string path)
      parse_stored_event_records contents

  unfoldable pub fetch :
      StreamQuery → Effect S EventStorePersistenceFailure (List (StoredEvent Event))
  unfolding records_for_aggregate
  fetch query = map (λ records. records_for_aggregate records query) read_json_file_records

  unfoldable pub fetch_all :
      AllEventsQuery → Effect S EventStorePersistenceFailure (List (StoredEvent Event))
  unfolding records_from_sequence_number limited
  fetch_all query =
      map (λ records. limited query.limit (records_from_sequence_number records query))
        read_json_file_records

  -- The part of `append` after the records are read.
  unfoldable pub append_after_read :
      AppendRequest Event
      → List (StoredEvent Event)
      → Effect S (AppendError EventStorePersistenceFailure) (List (StoredEvent Event))
  unfolding expected_version_conflict
  append_after_read command records =
      let actual_version = aggregate_version_in_records records command.aggregate_id in
      if not (int_beq (pos actual_version) command.expected_version)
      then fail (conflict (expected_version_conflict command actual_version))
      else do
        let stored = stored_events_for_append command actual_version (length records)
        map_error store_error (write_json_file_records (records ++ stored))
        succeed stored

  unfoldable pub append :
      AppendRequest Event
      → Effect S (AppendError EventStorePersistenceFailure) (List (StoredEvent Event))
  unfolding append_after_read
  append command = do
    records ← map_error store_error read_json_file_records
    append_after_read command records

  unfoldable pub make_json_file_event_store : EventStore S Event EventStorePersistenceFailure
  unfolding fetch fetch_all append
  make_json_file_event_store = record { fetch = fetch; fetch_all = fetch_all; append = append }
