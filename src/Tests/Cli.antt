-- ===== src/Tests/Cli.antt =====
-- The theorems about packages/cli/src/index.ts, at the in-memory store and a shared log.
use es_ts_example.Common.{◌≡◌, ◌≢◌, refl, [], ◌∷◌, String, arith, eq_iff}
use es_ts_example.Effect.{success}
use es_ts_example.EventSourcing.EventStore.{aggregate_version_in_records, records_for_aggregate}
use es_ts_example.EventSourcing.EventStore.Contract.{record_view}
use es_ts_example.Domain.Counter.{
  counter_incremented, active_counter, CounterAggregate, replay_counter,
}
use es_ts_example.Application.EventStore.{counter_event_schema, counter_event_of, narrowed}
use es_ts_example.Application.EventStore.Laws.{slice_view, counter_event_schema-IsSchema}
use es_ts_example.Application.EventStore.Streams.{slice_view-Streams}
use es_ts_example.Application.Counter.{EntryOrder, increment, decide}
use es_ts_example.Application.Counter.Handler.{one_event}
use es_ts_example.Cli.{increment_verb, toggle_bookmark, parse_arguments}
use es_ts_example.Cli.Parse.{parse_arguments-arguments_of}
use es_ts_example.Cli.Printed.{receipt_line}
use es_ts_example.Cli.Run.{run_cli, counter_lines, run_cli_reads, run_cli_command}
use es_ts_example.Tests.Stores.{
  shared_log, shared_log-IsWellFormed, domain_memory, domain_memory-Implements, counters,
  counters-Implements,
}

abbrev given_order : EntryOrder
given_order groups = groups

abbrev user_name : String
user_name = "u"

abbrev nothing : String
nothing = ""

not_empty : user_name ≢ nothing
not_empty e = ground (arith, eq_iff user_name nothing)

parse_arguments-arguments_of_example :
    parse_arguments ("bookmark" ∷ "u" ∷ "u" ∷ []) ≡ toggle_bookmark "u" "u"
parse_arguments-arguments_of_example =
    parse_arguments-arguments_of (toggle_bookmark "u" "u") (not_empty, not_empty)

run_cli_reads_example : run_cli domain_memory given_order ("list" ∷ []) shared_log ≡ (
  success (counter_lines domain_memory given_order domain_memory-Implements shared_log),
  shared_log,
)
unfolding parse_arguments
run_cli_reads_example =
    run_cli_reads domain_memory given_order domain_memory-Implements shared_log shared_log
      ("list" ∷ []) (counter_lines domain_memory given_order domain_memory-Implements shared_log)
      refl refl

abbrev raised_again : CounterAggregate
raised_again = record {
  aggregate_id = "c";
  state = active_counter "c" 2;
  version = 3;
  pending_events = counter_incremented "c" ∷ [];
}

run_cli_command_example :
    (run_cli domain_memory given_order ("increment" ∷ "c" ∷ []) shared_log).0
    ≡ success (
        receipt_line "c" 3
        ∷ counter_lines domain_memory given_order domain_memory-Implements (
            (slice_view counter_event_schema record_view).extend shared_log (
              one_event counters counters-Implements shared_log
                (increment "c")
                (counter_incremented "c"))))
unfolding parse_arguments decide replay_counter records_for_aggregate counter_event_of
    aggregate_version_in_records narrowed
run_cli_command_example =
    run_cli_command domain_memory given_order domain_memory-Implements
      (slice_view-Streams counter_event_schema counter_event_schema-IsSchema) shared_log shared_log
      ("increment" ∷ "c" ∷ []) increment_verb "c" raised_again refl refl
      (record { well_formed = shared_log-IsWellFormed; no_foreign = refl }) refl
