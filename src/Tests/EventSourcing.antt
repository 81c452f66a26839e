-- ===== src/Tests/EventSourcing.antt =====
-- The theorems about packages/event-sourcing/src, at concrete stores and logs.
use mathlib.Core.List.{cons≢nil}
use es_ts_example.Common.{
  ◌≡◌, ◌≢◌, refl, none, some, List, [], ◌∷◌, ◌++◌, String, foldl, take, drop, ◌==◌, if◌then◌else◌,
}
use es_ts_example.Common.Int.{pos}
use es_ts_example.Effect.{success, failure}
use es_ts_example.EventSourcing.Aggregate.{replay_aggregate}
use es_ts_example.EventSourcing.Aggregate.Replay.{replayed, record_all, record_all-replay_aggregate}
use es_ts_example.EventSourcing.EventStore.{
  StoredEvent, AppendRequest, conflict, store_error, expected_version_conflict,
  aggregate_version_in_records, records_for_aggregate, records_from_sequence_number,
}
use es_ts_example.EventSourcing.EventStore.Contract.{
  Implements, record_view, added_to, whole_stream, events_of,
}
use es_ts_example.EventSourcing.EventStore.Log.{IsWellFormed}
use es_ts_example.EventSourcing.EventStore.Streams.{record_view-Streams}
use es_ts_example.EventSourcing.EventStore.Memory as Memory
use es_ts_example.EventSourcing.EventStore.Memory.Laws.{
  make_in_memory_event_store-Implements, append-IsWellFormed,
}
use es_ts_example.EventSourcing.EventStore.JsonFile as JsonFile
use es_ts_example.EventSourcing.EventStore.JsonFile.Laws.{
  HoldsFile, malformed_file, make_json_file_event_store-Implements, interleaved_appends,
}
use es_ts_example.EventSourcing.Repository.{RepositoryOptions, load, save}
use es_ts_example.EventSourcing.Repository.Laws.{history, changed, request, load-save}
use es_ts_example.EventSourcing.Repository.Conflicts.{no_lost_update}
use es_ts_example.EventSourcing.Projection.{
  Projection, ProjectionCheckpoint, project, replay_projection,
}
use es_ts_example.EventSourcing.Projection.Laws.{checkpoint_of, resume-replay_projection}
use es_ts_example.EventSourcing.ProjectionStore.{
  Versioned, initial_versioned_checkpoint, version_conflict,
}
use es_ts_example.EventSourcing.ProjectionStore as ProjectionStore
use es_ts_example.EventSourcing.ProjectionStore.Laws.{load-save_checkpoint}
use es_ts_example.Tests.Codec.{text_codec, text_codec-IsFaithful, syntax_error}
use es_ts_example.Tests.Stores.{
  one_file, one_file-IsReliable, table_store, table_store-IsReliable, empty_table, two_streams,
  two_streams-IsWellFormed, memory, memory-Implements,
}

abbrev a_name : String
a_name = "a"

abbrev no_text : String
no_text = ""

-- The last string that an aggregate recorded.
abbrev last_text : RepositoryOptions (Memory.Ref String) String String String
last_text = record {
  store = memory;
  initial_state = "";
  reducer = λ state event. event;
  stream_name = none;
}

abbrev past_of_a : List String
past_of_a = history last_text memory-Implements two_streams "a"

past_of_a_test : past_of_a ≡ "first" ∷ "second" ∷ []
unfolding records_for_aggregate
past_of_a_test = refl

record_all-replay_aggregate_example :
    record_all
      (λ state event. event)
      (replay_aggregate a_name no_text (λ state event. event) ("x" ∷ []))
      ("y" ∷ [])
    ≡ record (replay_aggregate a_name no_text (λ state event. event) ("x" ∷ "y" ∷ [])) {
      pending_events = "y" ∷ [];
    }
record_all-replay_aggregate_example =
    record_all-replay_aggregate (λ state event. event) a_name no_text ("x" ∷ []) ("y" ∷ [])

make_in_memory_event_store-Implements_example :
    Implements (Memory.make_in_memory_event_store {Event = String} {Error = String}) record_view ◌≡◌
make_in_memory_event_store-Implements_example =
    make_in_memory_event_store-Implements {Event = String} {Error = String}

abbrev add_to_a : AppendRequest String
add_to_a = record { aggregate_id = "a"; expected_version = pos 2; events = "third" ∷ [] }

append-IsWellFormed_example : IsWellFormed (Memory.append {Error = String} add_to_a two_streams).1
append-IsWellFormed_example =
    append-IsWellFormed String two_streams add_to_a two_streams-IsWellFormed

make_json_file_event_store-Implements_example :
    Implements
      (JsonFile.make_json_file_event_store text_codec one_file "events.json")
      record_view
      (HoldsFile text_codec one_file "events.json")
make_json_file_event_store-Implements_example =
    make_json_file_event_store-Implements text_codec one_file "events.json" one_file-IsReliable
      text_codec-IsFaithful

malformed_file_example :
    (JsonFile.fetch text_codec one_file "events.json" (whole_stream "a") (some "")
      ≡ (failure (record { message = "[object Object]" }), some ""))
    × (JsonFile.append text_codec one_file "events.json" add_to_a (some "")
        ≡ (failure (store_error (record { message = "[object Object]" })), some ""))
malformed_file_example =
    malformed_file text_codec one_file "events.json" one_file-IsReliable (some "") "" syntax_error
      (whole_stream "a") add_to_a refl refl

abbrev first_of : String → AppendRequest String
first_of name = record { aggregate_id = name; expected_version = pos 0; events = name ∷ [] }

interleaved_appends_example :
    let after_first =
      JsonFile.append_after_read text_codec one_file "events.json" (first_of "a") [] none in
    let after_second =
      JsonFile.append_after_read text_codec one_file "events.json"
        (first_of "b")
        []
        after_first.1 in
    (after_first.0 ≡ success (added_to [] (first_of "a")))
    × (after_second.0 ≡ success (added_to [] (first_of "b")))
    × HoldsFile text_codec one_file "events.json" after_second.1 (added_to [] (first_of "b"))
unfolding aggregate_version_in_records
interleaved_appends_example =
    interleaved_appends text_codec one_file "events.json" one_file-IsReliable text_codec-IsFaithful
      none [] (first_of "a") (first_of "b") refl refl

load-save_example :
    let saved = replayed a_name no_text (λ state event. event) (past_of_a ++ "third" ∷ []) in
    let outcome =
      save last_text
        (changed last_text memory-Implements "a" past_of_a ("third" ∷ []))
        two_streams in
    (outcome.0 ≡ success saved)
    × (outcome.1
        ≡ two_streams
          ++ added_to two_streams
              (request last_text memory-Implements "a" past_of_a ("third" ∷ [])))
    × (load last_text "a" outcome.1 ≡ (success saved, outcome.1))
load-save_example =
    load-save last_text memory-Implements record_view-Streams two_streams two_streams "a" refl
      two_streams-IsWellFormed ("third" ∷ [])

no_lost_update_example :
    let saved =
      (save last_text
        (changed last_text memory-Implements "a" past_of_a ("third" ∷ []))
        two_streams).1 in
    save last_text (changed last_text memory-Implements "a" past_of_a ("lost" ∷ [])) saved ≡ (
      failure (
          conflict (
            expected_version_conflict
              (request last_text memory-Implements "a" past_of_a ("lost" ∷ []))
              3)),
      saved,
    )
unfolding records_for_aggregate
no_lost_update_example =
    no_lost_update last_text memory-Implements record_view-Streams two_streams two_streams "a" refl
      two_streams-IsWellFormed ("third" ∷ []) ("lost" ∷ []) cons≢nil

-- The last string but "other".
abbrev last_wanted : Projection String String String
last_wanted = record {
  projection_id = "last-wanted";
  initial_state = "";
  reducer = λ state event. event;
  matches_projection = λ event. if event == "other" then none else some event;
}

abbrev one_record : List (StoredEvent String)
one_record = take 1 two_streams

resume-replay_projection_example :
    foldl (project last_wanted) (checkpoint_of last_wanted one_record).state (
      events_of (
        records_from_sequence_number two_streams
          (record { starting_event_sequence_number = some 2; limit = none })))
    ≡ replay_projection last_wanted (events_of two_streams)
resume-replay_projection_example =
    resume-replay_projection last_wanted one_record (drop 1 two_streams) two_streams-IsWellFormed

abbrev second_checkpoint : ProjectionCheckpoint String
second_checkpoint = record { state = "x"; last_event_store_sequence_number = 2 }

load-save_checkpoint_example :
    let saved : Versioned (ProjectionCheckpoint String) = record {
      value = second_checkpoint;
      version = 1;
    } in
    let outcome = ProjectionStore.save table_store "" "p" second_checkpoint 0 empty_table in
    (outcome.0 ≡ success saved)
    × (ProjectionStore.load table_store "" "p" outcome.1 ≡ (success saved, outcome.1))
    × ((other : String)
        → "p" ≢ other
        → ProjectionStore.load table_store "" other outcome.1
          ≡ (success (initial_versioned_checkpoint table_store ""), outcome.1))
load-save_checkpoint_example =
    load-save_checkpoint table_store "" table_store-IsReliable empty_table "p" second_checkpoint
