-- ===== src/EventSourcing/Repository.antt =====
-- packages/event-sourcing/src/repository.ts. Ids are strings (`Id extends string`).
pub mod Laws
pub mod Conflicts
use mathlib.Core.Option.{get_or}
use es_ts_example.Common.{Option, none, List, [], String, length}
use es_ts_example.Common.Int.{sub_ℕ}
use es_ts_example.Effect.{Effect, fail, map, map_error}
use es_ts_example.EventSourcing.Aggregate.{Reducer, Aggregate, replay_aggregate}
use es_ts_example.EventSourcing.Decision.{Decision, succeeded, failed}
use es_ts_example.EventSourcing.EventStore.{EventStore, AppendError}
use es_ts_example.EventSourcing.EventStore.Contract.{events_of}

-- `Error | ExpectedVersionConflict | StoreError`
pub data CommitError (Rejection StoreError : Type 0) : Type 0 where
  rejected : Rejection → CommitError Rejection StoreError
  not_appended : AppendError StoreError → CommitError Rejection StoreError

-- The options of `makeAggregateRepository`.
pub record RepositoryOptions (S State Event StoreError : Type 0) : Type 0 where
  pub store : EventStore S Event StoreError
  pub initial_state : State
  pub reducer : Reducer State Event
  pub stream_name : Option (String → String)

module _ {S State Event StoreError : Type 0}
    (options : RepositoryOptions S State Event StoreError) where
  abbrev pub stream_name_for : String → String
  stream_name_for = get_or options.stream_name (λ aggregate_id. aggregate_id)

  unfoldable pub load : String → Effect S StoreError (Aggregate State Event String)
  load aggregate_id =
      map
        (λ records.
          replay_aggregate aggregate_id options.initial_state options.reducer (events_of records))
        (options.store.fetch (record {
          aggregate_id = stream_name_for aggregate_id;
          starting_event_sequence_number = none;
        }))

  unfoldable pub save :
      Aggregate State Event String
      → Effect S (AppendError StoreError) (Aggregate State Event String)
  save aggregate =
      map (λ _. record aggregate { pending_events = [] })
        (options.store.append (record {
          aggregate_id = stream_name_for aggregate.aggregate_id;
          expected_version = sub_ℕ aggregate.version (length aggregate.pending_events);
          events = aggregate.pending_events;
        }))

  unfoldable pub commit :
      {Rejection : Type 0}
      → Decision (Aggregate State Event String) Rejection
      → Effect S (CommitError Rejection StoreError) (Aggregate State Event String)
  commit (failed failure') = fail (rejected failure')
  commit (succeeded success') = map_error not_appended (save success')
