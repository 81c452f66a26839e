-- ===== src/Tests/Stores.antt =====
-- A disk, key-value stores, logs and stores of events, all concrete.
use es_ts_example.Common.{◌≡◌, refl, ◌==◌, Option, none, some, List, [], ◌∷◌, String, if◌then◌else◌}
use es_ts_example.Effect.{Exit, success, failure}
use es_ts_example.EventSourcing.EventStore.{StoredEvent, EventStore, aggregate_version_in_records}
use es_ts_example.EventSourcing.EventStore.Contract.{Implements, record_view}
use es_ts_example.EventSourcing.EventStore.Log.{IsWellFormed}
use es_ts_example.EventSourcing.EventStore.Memory.{Ref, make_in_memory_event_store}
use es_ts_example.EventSourcing.EventStore.Memory.Laws.{make_in_memory_event_store-Implements}
use es_ts_example.EventSourcing.EventStore.JsonFile.{FileSystem, Unknown}
use es_ts_example.EventSourcing.EventStore.JsonFile.Laws.{IsReliable, is_some}
use es_ts_example.EventSourcing.Projection.{ProjectionCheckpoint}
use es_ts_example.EventSourcing.ProjectionStore.{Versioned, SchemaStore}
use es_ts_example.EventSourcing.ProjectionStore.Laws
use es_ts_example.Domain.{DomainEvent, counter_event, user_event}
use es_ts_example.Domain.Counter.{CounterEvent, counter_created, counter_incremented}
use es_ts_example.Domain.User.{UserEvent, article_bookmarked}
use es_ts_example.Application.EventStore.{counter_event_schema, user_event_schema, event_store_for}
use es_ts_example.Application.EventStore.Laws.{slice_view, event_store_for-Implements}

-- A disk that holds at most one file.
abbrev read_one_file : Option String → Exit Unknown String
read_one_file none = failure (record { error_message = some "NotFound"; as_string = "NotFound" })
read_one_file (some text) = success text

abbrev pub one_file : FileSystem (Option String)
one_file = record {
  exists = λ path s. (success (is_some s), s);
  read_file_string = λ path s. (read_one_file s, s);
  write_file_string = λ path text s. (success tt, some text);
}

pub one_file-IsReliable : IsReliable one_file "events.json" (λ s. s)
one_file-IsReliable = record {
  exists_tells = λ s. refl;
  read_gives = λ s text h. rw h;
  write_succeeds = λ s text. refl;
  write_puts = λ s text. refl;
}

-- A key-value store that is a function.
abbrev pub Table : Type 0
Table = String → Option (Versioned (ProjectionCheckpoint String))

abbrev pub table_store : SchemaStore Table (Versioned (ProjectionCheckpoint String)) String
table_store = record {
  get = λ key s. (success (s key), s);
  set = λ key v s. (success tt, λ other. if key == other then some v else s other);
}

pub table_store-IsReliable : Laws.IsReliable table_store (λ s. s)
table_store-IsReliable = record {
  get_gives = λ s key. refl;
  set_succeeds = λ s key v. refl;
  set_puts = λ s key other v. refl;
}

abbrev pub empty_table : Table
empty_table _ = none

-- A log of strings with two streams.
abbrev pub two_streams : List (StoredEvent String)
two_streams =
    record {
      aggregate_id = "a";
      aggregate_version = 1;
      event_store_sequence_number = 1;
      event = "first";
    }
    ∷ record {
      aggregate_id = "b";
      aggregate_version = 1;
      event_store_sequence_number = 2;
      event = "other";
    }
    ∷ record {
      aggregate_id = "a";
      aggregate_version = 2;
      event_store_sequence_number = 3;
      event = "second";
    }
    ∷ []

pub two_streams-IsWellFormed : IsWellFormed two_streams
unfolding aggregate_version_in_records
two_streams-IsWellFormed = record {
  numbered = (refl, (refl, (refl, tt)));
  versioned = (refl, (refl, (refl, tt)));
}

-- A shared log: a counter that was raised once, and a user with one bookmark.
abbrev pub shared_log : List (StoredEvent DomainEvent)
shared_log =
    record {
      aggregate_id = "c";
      aggregate_version = 1;
      event_store_sequence_number = 1;
      event = counter_event (counter_created "c");
    }
    ∷ record {
      aggregate_id = "u";
      aggregate_version = 1;
      event_store_sequence_number = 2;
      event = user_event (article_bookmarked "u" "small-batches");
    }
    ∷ record {
      aggregate_id = "c";
      aggregate_version = 2;
      event_store_sequence_number = 3;
      event = counter_event (counter_incremented "c");
    }
    ∷ []

pub shared_log-IsWellFormed : IsWellFormed shared_log
unfolding aggregate_version_in_records
shared_log-IsWellFormed = record {
  numbered = (refl, (refl, (refl, tt)));
  versioned = (refl, (refl, (refl, tt)));
}

-- The in-memory stores of strings and of the domain's events; the slices' stores.
abbrev pub memory : EventStore (Ref String) String String
memory = make_in_memory_event_store

pub memory-Implements : Implements memory record_view ◌≡◌
memory-Implements = make_in_memory_event_store-Implements

abbrev pub domain_memory : EventStore (Ref DomainEvent) DomainEvent String
domain_memory = make_in_memory_event_store

pub domain_memory-Implements : Implements domain_memory record_view ◌≡◌
domain_memory-Implements = make_in_memory_event_store-Implements

abbrev pub counters : EventStore (Ref DomainEvent) CounterEvent String
counters = event_store_for counter_event_schema domain_memory

abbrev pub users : EventStore (Ref DomainEvent) UserEvent String
users = event_store_for user_event_schema domain_memory

pub counters-Implements : Implements counters (slice_view counter_event_schema record_view) ◌≡◌
counters-Implements =
    event_store_for-Implements counter_event_schema domain_memory record_view ◌≡◌
      domain_memory-Implements

pub users-Implements : Implements users (slice_view user_event_schema record_view) ◌≡◌
users-Implements =
    event_store_for-Implements user_event_schema domain_memory record_view ◌≡◌
      domain_memory-Implements
