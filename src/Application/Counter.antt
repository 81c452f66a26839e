-- ===== src/Application/Counter.antt =====
-- packages/application/src/counter: commands.ts, repository.ts, handlers.ts, readModels.ts and
-- queries/listCounters.ts.
pub mod Decide
pub mod Refuse
pub mod Handler
pub mod Listing
use es_ts_example.Common.{
  ℕ, ◌+◌, Bool, true, false, Option, none, some, List, [], ◌∷◌, ◌++◌, String, ◌==◌, map, filter_map,
  if◌then◌else◌,
}
use es_ts_example.Effect
use es_ts_example.Effect.{Effect, ◌>>=◌, map_error}
use es_ts_example.EventSourcing.EventStore.{StoredEvent, EventStore, store_error}
use es_ts_example.EventSourcing.EventStore.Contract.{everything}
use es_ts_example.EventSourcing.Repository.{
  RepositoryOptions, CommitError, not_appended, load, commit,
}
use es_ts_example.Domain.Counter.{
  CounterState, counter_not_created, active_counter, disabled_counter, initial_counter_state,
  CounterEvent, counter_created, counter_incremented, counter_decremented, counter_disabled,
  CounterAggregate, CounterDecision, CounterRejection, apply_counter_event, replay_counter,
  create_counter, increment_counter, decrement_counter, disable_counter,
}

pub data CounterCommand : Type 0 where
  create increment decrement disable : String → CounterCommand

abbrev pub target : CounterCommand → String
target (create i) = i
target (increment i) = i
target (decrement i) = i
target (disable i) = i

unfoldable pub decide : CounterCommand → CounterAggregate → CounterDecision
unfolding create_counter increment_counter decrement_counter disable_counter
decide (create i) aggregate = create_counter i aggregate
decide (increment _) aggregate = increment_counter aggregate
decide (decrement _) aggregate = decrement_counter aggregate
decide (disable _) aggregate = disable_counter aggregate

module _ {S StoreError : Type 0} (store : EventStore S CounterEvent StoreError) where
  abbrev pub make_counter_repository : RepositoryOptions S CounterState CounterEvent StoreError
  make_counter_repository = record {
    store = store;
    initial_state = initial_counter_state;
    reducer = apply_counter_event;
    stream_name = none;
  }

  unfoldable pub counter_command_handler :
      CounterCommand → Effect S (CommitError CounterRejection StoreError) CounterAggregate
  counter_command_handler command = do
    counter ←
        map_error (λ e. not_appended (store_error e))
          (load make_counter_repository (target command))
    commit make_counter_repository (decide command counter)

pub record CounterCommandReceipt : Type 0 where
  pub counter_id : String
  pub version : ℕ

unfoldable pub counter_command_receipt_of : CounterAggregate → CounterCommandReceipt
counter_command_receipt_of aggregate = record {
  counter_id = aggregate.aggregate_id;
  version = aggregate.version;
}

-- An id, a value and a version.
pub data CounterSummary : Type 0 where
  active_counter_summary disabled_counter_summary : String → ℕ → ℕ → CounterSummary

unfoldable pub counter_summary_of : CounterAggregate → Option CounterSummary
counter_summary_of aggregate = elim aggregate.state [
  | counter_not_created ↦ none
  | active_counter i value ↦ some (active_counter_summary i value aggregate.version)
  | disabled_counter i value ↦ some (disabled_counter_summary i value aggregate.version)
]

-- `record.event.counterId`
unfoldable pub counter_id_of : CounterEvent → String
counter_id_of (counter_created i) = i
counter_id_of (counter_incremented i) = i
counter_id_of (counter_decremented i) = i
counter_id_of (counter_disabled i) = i

-- `Arr.groupBy`: the groups, under the keys in the order in which they first occur.
module _ {A : Type 0} where
  unfoldable pub add_to_group : String → A → List (String × List A) → List (String × List A)
  add_to_group key a [] = (key, a ∷ []) ∷ []
  add_to_group key a ((k, group) ∷ groups) =
      let rest = add_to_group key a groups in
      if k == key then (k, group ++ a ∷ []) ∷ groups else (k, group) ∷ rest

  unfoldable pub group_from :
      (A → String) → List (String × List A) → List A → List (String × List A)
  unfolding add_to_group
  group_from key groups [] = groups
  group_from key groups (a ∷ xs) = group_from key (add_to_group (key a) a groups) xs

  unfoldable pub group_by : (A → String) → List A → List (String × List A)
  unfolding group_from
  group_by key xs = group_from key [] xs

-- `Rec.toEntries` lists the properties of the object of groups in JavaScript's own order: keys that
-- look like array indices come first. The order is a parameter.
abbrev pub EntryOrder : Type 0
EntryOrder =
    List (String × List (StoredEvent CounterEvent))
    → List (String × List (StoredEvent CounterEvent))

module _ (to_entries : EntryOrder) where
  unfoldable pub counter_rows : List (StoredEvent CounterEvent) → List CounterSummary
  unfolding group_by counter_id_of counter_summary_of replay_counter filter_map
  counter_rows records =
      filter_map (λ entry. counter_summary_of (replay_counter entry.0 (map (λ r. r.event) entry.1)))
        (to_entries (group_by (λ r. counter_id_of r.event) records))

  unfoldable pub list_counters_handler :
      {S StoreError : Type 0}
      → EventStore S CounterEvent StoreError
      → Effect S StoreError (List CounterSummary)
  unfolding counter_rows
  list_counters_handler store = Effect.map counter_rows (store.fetch_all everything)

-- The service of clients.ts that `CounterCommandApi` declares; `E` is the error of its callers.
pub record CounterCommandClient (S E : Type 0) : Type 0 where
  pub create_counter : String → Effect S E CounterCommandReceipt
  pub increment_counter : String → Effect S E CounterCommandReceipt
  pub decrement_counter : String → Effect S E CounterCommandReceipt
  pub disable_counter : String → Effect S E CounterCommandReceipt
