-- ===== src/Web/Runtime.antt =====
-- packages/web/src/runtime-config.ts and packages/web/bin/runtime.ts: the storage that the server is
-- configured for, and the clients that it is run with.
pub mod Create
use Prim.Native.String.{String, ◌++◌}
use es_ts_example.Common.{Bool, ◌||◌, ◌==◌, List, [], ◌∷◌, if◌then◌else◌}
use es_ts_example.Effect.{Effect, succeed, fail, map_error}
use es_ts_example.EventSourcing.EventStore.{EventStore}
use es_ts_example.Domain.{DomainEvent}
use es_ts_example.Application.Counter.{EntryOrder, list_counters_handler}
use es_ts_example.Application.User.{list_articles_handler}
use es_ts_example.Cli.Render.{join}
use es_ts_example.Cli.Run.{
  CliError, query_error, counter_store, user_store, counter_command_handlers, user_command_handlers,
}
use es_ts_example.Web.Server.{WebClients}

pub data StorageBackend : Type 0 where
  memory json_file : StorageBackend

unfoldable pub storage_backend_list : String
unfolding join
storage_backend_list = join ", " ("memory" ∷ "json-file" ∷ [])

unfoldable pub is_storage_backend : String → Bool
is_storage_backend value = (value == "memory") || (value == "json-file")

-- The type of a value that the test lets through.
abbrev as_storage_backend : String → StorageBackend
as_storage_backend value = if value == "memory" then memory else json_file

-- A failure is the message of the `Error`.
unfoldable pub parse_storage_backend : {S : Type 0} → String → Effect S String StorageBackend
unfolding is_storage_backend storage_backend_list
parse_storage_backend value =
    if is_storage_backend value
    then succeed (as_storage_backend value)
    else fail (
        "Unsupported STORAGE_BACKEND \""
        ++ (value ++ ("\". Expected one of: " ++ (storage_backend_list ++ "."))))

pub record WebRuntimeStorageConfig : Type 0 where
  pub storage_backend : StorageBackend
  pub event_store_file : String

-- The arguments are `DomainEventStore.inMemory` and `DomainEventStore.jsonFile`, as layers.
unfoldable pub storage_layer :
    {Layer : Type 0} → Layer → (String → Layer) → WebRuntimeStorageConfig → Layer
storage_layer in_memory json_file_layer config = elim config.storage_backend [
  | memory ↦ in_memory
  | json_file ↦ json_file_layer config.event_store_file
]

-- `localRpcClients`, over the store of its storage layer. A call of a client is a call of its handler.
unfoldable pub local_rpc_clients :
    {S StoreError : Type 0}
    → EventStore S DomainEvent StoreError
    → EntryOrder
    → WebClients S (CliError StoreError)
local_rpc_clients store to_entries = record {
  counter_commands = counter_command_handlers store to_entries;
  list_counters =
      map_error query_error (list_counters_handler to_entries (counter_store store to_entries));
  toggle_article_bookmark = user_command_handlers store to_entries;
  list_articles = λ user_id.
      map_error query_error (list_articles_handler (user_store store to_entries) user_id);
}
