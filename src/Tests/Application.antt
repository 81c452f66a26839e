-- ===== src/Tests/Application.antt =====
-- The theorems about packages/application/src, at the in-memory store and a shared log.
use mathlib.Core.List.{Perm}
use mathlib.Core.List.Perm
use es_ts_example.Common.{◌≡◌, ◌↔◌, refl, not, List, [], ◌∷◌, String, filter_map, arith}
use es_ts_example.Effect.{success, failure}
use es_ts_example.EventSourcing.Decision.{failed}
use es_ts_example.EventSourcing.EventStore.{
  StoredEvent, aggregate_version_in_records, records_for_aggregate, records_from_sequence_number,
  limited, conflict, expected_version_conflict,
}
use es_ts_example.EventSourcing.EventStore.Contract.{Streams, record_view}
use es_ts_example.EventSourcing.Repository.{rejected, load, save}
use es_ts_example.EventSourcing.Repository.Laws.{changed, request, history}
use es_ts_example.Domain.Counter.{
  CounterEvent, counter_created, counter_incremented, counter_not_created, active_counter,
  counter_already_exists, CounterAggregate, counter_value_check, apply_counter_event,
  replay_counter,
}
use es_ts_example.Domain.User.{UserEvent, article_bookmarked, user_state_from, UserAggregate}
use es_ts_example.Domain.User.Bookmarks.{has_bookmark}
use es_ts_example.Application.EventStore.{
  counter_event_schema, user_event_schema, counter_event_of, user_event_of, narrowed,
}
use es_ts_example.Application.EventStore.Laws.{
  slice_view, user_event_schema-IsSchema, counter_event_schema-IsSchema,
}
use es_ts_example.Application.EventStore.Streams.{IsOwn, slice_view-Streams}
use es_ts_example.Application.EventStore.Collision.{slice_repository, save_on_shared_id}
use es_ts_example.Application.Counter.{
  create, increment, decide, make_counter_repository, counter_command_handler, counter_rows,
}
use es_ts_example.Application.Counter.Decide.{IsAccepted, decide_accepts}
use es_ts_example.Application.Counter.Refuse.{Refused, decide_refuses}
use es_ts_example.Application.Counter.Handler.{
  one_event, counter_command_handler_refused, counter_command_handler_accepted,
}
use es_ts_example.Application.Counter.Listing.{
  account_of, records_about, counters_in, counter_rows-Perm,
}
use es_ts_example.Application.User.{
  UserCommand, make_user_repository, user_command_handler, is_article_bookmarked,
  bookmark_projection, list_articles_handler,
}
use es_ts_example.Application.User.Keys.{bookmark_projection_key_inj}
use es_ts_example.Application.User.ReadModel.{
  own_events, catalog_for, is_article_bookmarked-replay_projection, list_articles_handler_lem,
}
use es_ts_example.Application.User.Handler as UserHandler
use es_ts_example.EventSourcing.Projection.{replay_projection}
use es_ts_example.Tests.Stores.{
  shared_log, shared_log-IsWellFormed, domain_memory, domain_memory-Implements, counters, users,
  counters-Implements, users-Implements,
}

slice_view-Streams_example :
    Streams (slice_view counter_event_schema record_view) (IsOwn counter_event_schema)
slice_view-Streams_example = slice_view-Streams counter_event_schema counter_event_schema-IsSchema

-- A counter is named like the user.
save_on_shared_id_example :
    let opts =
      slice_repository counter_event_schema domain_memory counter_not_created apply_counter_event in
    let past = history opts counters-Implements shared_log "u" in
    save opts (changed opts counters-Implements "u" past (counter_created "u" ∷ [])) shared_log ≡ (
      failure (
          conflict (
            expected_version_conflict
              (request opts counters-Implements "u" past (counter_created "u" ∷ []))
              1)),
      shared_log,
    )
unfolding aggregate_version_in_records counter_event_of
save_on_shared_id_example =
    save_on_shared_id counter_event_schema domain_memory counter_not_created apply_counter_event
      domain_memory-Implements shared_log shared_log "u" (counter_created "u" ∷ []) refl
      shared_log-IsWellFormed (λ e. omega (arith, e))

abbrev raised : CounterAggregate
raised = record {
  aggregate_id = "c";
  state = active_counter "c" 1;
  version = 2;
  pending_events = [];
}

abbrev raised_again : CounterAggregate
raised_again = record {
  aggregate_id = "c";
  state = active_counter "c" 2;
  version = 3;
  pending_events = counter_incremented "c" ∷ [];
}

decide_accepts_example : IsAccepted (increment "c") raised raised_again
unfolding decide apply_counter_event counter_value_check
decide_accepts_example = decide_accepts (increment "c") raised raised_again refl refl

decide_refuses_example :
    (decide (create "c") raised ≡ failed (counter_already_exists "c"))
    ↔ Refused "c" (create "c") (active_counter "c" 1) (counter_already_exists "c")
decide_refuses_example = decide_refuses (create "c") raised (counter_already_exists "c")

counter_command_handler_refused_example :
    counter_command_handler counters (create "c") shared_log
    ≡ (failure (rejected (counter_already_exists "c")), shared_log)
unfolding decide replay_counter records_for_aggregate counter_event_of narrowed
counter_command_handler_refused_example =
    counter_command_handler_refused counters counters-Implements shared_log shared_log (create "c")
      refl (counter_already_exists "c") refl

counter_command_handler_accepted_example :
    let saved : CounterAggregate = record raised_again { pending_events = [] } in
    let outcome = counter_command_handler counters (increment "c") shared_log in
    (outcome.0 ≡ success saved)
    × (load (make_counter_repository counters) "c" outcome.1 ≡ (success saved, outcome.1))
    × (outcome.1
        ≡ (slice_view counter_event_schema record_view).extend shared_log (
            one_event counters counters-Implements shared_log
              (increment "c")
              (counter_incremented "c")))
unfolding decide replay_counter records_for_aggregate counter_event_of aggregate_version_in_records
    narrowed
counter_command_handler_accepted_example =
    counter_command_handler_accepted counters counters-Implements shared_log shared_log
      (increment "c") refl (slice_view-Streams counter_event_schema counter_event_schema-IsSchema)
      raised_again (record { well_formed = shared_log-IsWellFormed; no_foreign = refl }) refl

abbrev counter_records : List (StoredEvent CounterEvent)
counter_records =
    record {
      aggregate_id = "c";
      aggregate_version = 1;
      event_store_sequence_number = 1;
      event = counter_created "c";
    }
    ∷ record {
      aggregate_id = "d";
      aggregate_version = 1;
      event_store_sequence_number = 2;
      event = counter_created "d";
    }
    ∷ record {
      aggregate_id = "c";
      aggregate_version = 2;
      event_store_sequence_number = 3;
      event = counter_incremented "c";
    }
    ∷ []

counter_rows-Perm_example :
    Perm
      (counter_rows (λ groups. groups) counter_records)
      (filter_map (λ k. account_of (records_about counter_records k)) (counters_in counter_records))
counter_rows-Perm_example = counter_rows-Perm (λ groups. groups) counter_records Perm.refl

bookmark_projection_key_inj_example : (◌≡◌ {A = String} "1:a" "1:a") × (◌≡◌ {A = String} "b" "b")
bookmark_projection_key_inj_example = bookmark_projection_key_inj "1:a" "1:a" "b" "b" refl

abbrev user_log : List UserEvent
user_log = article_bookmarked "u" "small-batches" ∷ article_bookmarked "v" "boring-software" ∷ []

is_article_bookmarked-replay_projection_example :
    is_article_bookmarked (replay_projection bookmark_projection user_log) "u" "boring-software"
    ≡ has_bookmark (user_state_from (own_events user_log "u")) "boring-software"
is_article_bookmarked-replay_projection_example =
    is_article_bookmarked-replay_projection user_log "u" "boring-software"

list_articles_handler_lem_example :
    list_articles_handler users "u" shared_log
    ≡ (success (catalog_for (article_bookmarked "u" "small-batches" ∷ []) "u"), shared_log)
unfolding records_from_sequence_number limited user_event_of narrowed
list_articles_handler_lem_example =
    list_articles_handler_lem users users-Implements shared_log shared_log "u" refl

abbrev toggle_x : UserCommand
toggle_x = record { user_id = "u"; article_id = "small-batches" }

user_command_handler_toggles_example :
    let saved : UserAggregate =
      record (UserHandler.toggled users users-Implements shared_log toggle_x) {
        pending_events = [];
      } in
    let outcome = user_command_handler users toggle_x shared_log in
    let before =
      has_bookmark
        (UserHandler.addressed users users-Implements shared_log toggle_x).state
        "small-batches" in
    (outcome.0 ≡ success saved)
    × (load (make_user_repository users) "u" outcome.1 ≡ (success saved, outcome.1))
    × (has_bookmark saved.state "small-batches" ≡ not before)
unfolding aggregate_version_in_records user_event_of
user_command_handler_toggles_example =
    UserHandler.user_command_handler_toggles users users-Implements shared_log shared_log toggle_x
      refl (slice_view-Streams user_event_schema user_event_schema-IsSchema) "small-batches"
      (record { well_formed = shared_log-IsWellFormed; no_foreign = refl })
