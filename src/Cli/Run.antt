-- ===== src/Cli/Run.antt =====
-- `runCli` of packages/cli/src/index.ts: the parsed action, over the handlers of
-- packages/application/src and the shared store.
use es_ts_example.Common.{◌≡◌, refl, Option, none, some, List, [], ◌∷◌, String}
use es_ts_example.Effect
use es_ts_example.Effect.{Effect, success, map_error}
use es_ts_example.EventSourcing.Decision.{succeeded}
use es_ts_example.EventSourcing.EventStore.{EventStore}
use es_ts_example.EventSourcing.EventStore.Contract.{
  LogView, Implements, Streams, everything, events_of,
}
use es_ts_example.EventSourcing.Repository.{CommitError}
use es_ts_example.Domain.{DomainEvent}
use es_ts_example.Domain.Counter.{CounterEvent, CounterAggregate, CounterRejection}
use es_ts_example.Domain.User.{UserEvent}
use es_ts_example.Application.EventStore.{counter_event_schema, user_event_schema, event_store_for}
use es_ts_example.Application.EventStore.Laws.{slice_view, event_store_for-Implements}
use es_ts_example.Application.EventStore.Narrowed.{
  counter_records, user_records, narrowed_counter_lem, narrowed_user_lem,
}
use es_ts_example.Application.Counter.{
  CounterCommand, create, increment, decrement, disable, target, decide, counter_command_handler,
  CounterCommandReceipt, counter_command_receipt_of, EntryOrder, list_counters_handler,
}
use es_ts_example.Application.Counter.{CounterCommandClient}
use es_ts_example.Application.Counter.Handler.{
  addressed, one_event, counter_command_handler_accepted,
}
use es_ts_example.Application.User.{
  UserCommand, user_command_handler, UserBookmarkReceipt, user_bookmark_receipt_from_aggregate,
  list_articles_handler,
}
use es_ts_example.Application.User.ReadModel.{catalog_for, list_articles_handler_lem}
use es_ts_example.Cli.{
  CommandVerb, create_verb, increment_verb, decrement_verb, disable_verb, CliAction, command, list,
  toggle_bookmark, list_articles, help, Clients, list_lines, send_counter_command, execute_action,
  parse_arguments,
}
use es_ts_example.Cli.Render.{render_receipt}
use es_ts_example.Cli.Printed.{
  counter_list, article_list, receipt_line, render_list_lem, render_article_list_lem,
}
use es_ts_example.Application.Counter.Decide.{event_of}
use es_ts_example.Application.Counter.Listing.{rows_of, counter_rows-eq-rows_of}

-- The errors of every action.
pub data CliError (StoreError : Type 0) : Type 0 where
  counter_command_error : CommitError CounterRejection StoreError → CliError StoreError
  query_error : StoreError → CliError StoreError
  user_command_error : CommitError ⊥ StoreError → CliError StoreError

module _ {S StoreError : Type 0} (store : EventStore S DomainEvent StoreError)
    (to_entries : EntryOrder) where
  abbrev pub counter_store : EventStore S CounterEvent StoreError
  counter_store = event_store_for counter_event_schema store

  abbrev pub user_store : EventStore S UserEvent StoreError
  user_store = event_store_for user_event_schema store

  -- `receipt` of `CounterCommandHandlers`
  unfoldable pub receipt : CounterCommand → Effect S (CliError StoreError) CounterCommandReceipt
  receipt c =
      map_error counter_command_error
        (Effect.map counter_command_receipt_of (counter_command_handler counter_store c))

  unfoldable pub counter_command_handlers : CounterCommandClient S (CliError StoreError)
  unfolding receipt
  counter_command_handlers = record {
    create_counter = λ i. receipt (create i);
    increment_counter = λ i. receipt (increment i);
    decrement_counter = λ i. receipt (decrement i);
    disable_counter = λ i. receipt (disable i);
  }

  -- `ToggleArticleBookmark` of `UserCommandHandlers`
  unfoldable pub user_command_handlers :
      UserCommand → Effect S (CliError StoreError) UserBookmarkReceipt
  user_command_handlers c =
      map_error user_command_error
        (Effect.map user_bookmark_receipt_from_aggregate (user_command_handler user_store c))

  -- The clients that `cliLayer` provides.
  unfoldable pub cli_layer : Clients S (CliError StoreError)
  unfolding counter_command_handlers user_command_handlers
  cli_layer = record {
    counter_commands = counter_command_handlers;
    list_counters = map_error query_error (list_counters_handler to_entries counter_store);
    toggle_article_bookmark = user_command_handlers;
    list_articles = λ user_id. map_error query_error (list_articles_handler user_store user_id);
  }

  unfoldable pub run_cli : List String → Effect S (CliError StoreError) (List String)
  unfolding cli_layer execute_action parse_arguments
  run_cli argv = execute_action cli_layer (parse_arguments argv)

  module _ {Log : Type 0} {view : LogView Log DomainEvent} {Holds : S → Log → Type 0}
      (impl : Implements store view Holds) where
    -- The list of counters of a log, as printed.
    abbrev pub counter_lines : Log → List String
    counter_lines log =
        counter_list (rows_of to_entries (counter_records (view.read_all log everything)))

    -- What an action that only reads prints.
    abbrev pub reading : Log → CliAction → Option (List String)
    reading log (help message) = some (message ∷ [])
    reading log list = some (counter_lines log)
    reading log (list_articles user_id) = some (
        article_list
          (catalog_for (events_of (user_records (view.read_all log everything))) user_id))
    reading log (toggle_bookmark user_id article_id) = none
    reading log (command verb counter_id) = none

    some_inj : (a b : List String) → some a ≡ some b → a ≡ b
    some_inj a b e = cc

    list_lines_lem :
        (s : S) (log : Log)
        → Holds s log
        → list_lines cli_layer s ≡ (success (counter_lines log), s)
    unfolding list_lines cli_layer list_counters_handler
    list_lines_lem s log h =
        let sliced = event_store_for-Implements counter_event_schema store view Holds impl in
        let records = view.read_all log everything in
        rw (
          sliced.fetch_all_reads s log everything h,
          narrowed_counter_lem records,
          counter_rows-eq-rows_of to_entries (counter_records records),
          render_list_lem (rows_of to_entries (counter_records records)),
        )

    execute_reading :
        (s : S) (log : Log) (action : CliAction) (lines : List String)
        → Holds s log
        → reading log action ≡ some lines
        → execute_action cli_layer action s ≡ (success lines, s)
    unfolding execute_action cli_layer
    execute_reading s log (help message) lines h e = rw (some_inj _ _ e) refl
    execute_reading s log list lines h e = rw (← some_inj _ _ e) (list_lines_lem s log h)
    execute_reading s log (list_articles u) lines h e =
        let sliced = event_store_for-Implements user_event_schema store view Holds impl in
        rw (
          list_articles_handler_lem user_store sliced s log u h,
          render_article_list_lem,
          narrowed_user_lem (view.read_all log everything),
          ← some_inj _ _ e,
        )
    execute_reading s log (toggle_bookmark u a) lines h e = cc
    execute_reading s log (command v i) lines h e = cc

    -- Arguments that parse to an action that only reads print what the log has to show for it, and
    -- change nothing.
    pub run_cli_reads :
        (s : S) (log : Log) (argv lines : List String)
        → Holds s log
        → reading log (parse_arguments argv) ≡ some lines
        → run_cli argv s ≡ (success lines, s)
    unfolding run_cli
    run_cli_reads s log argv lines h e = execute_reading s log (parse_arguments argv) lines h e

    -- The command that a verb sends.
    abbrev pub command_of : CommandVerb → String → CounterCommand
    command_of create_verb i = create i
    command_of increment_verb i = increment i
    command_of decrement_verb i = decrement i
    command_of disable_verb i = disable i

    send_lem :
        (verb : CommandVerb) (i : String) (s : S)
        → send_counter_command counter_command_handlers verb i s ≡ receipt (command_of verb i) s
    unfolding send_counter_command counter_command_handlers
    send_lem create_verb i s = refl
    send_lem increment_verb i s = refl
    send_lem decrement_verb i s = refl
    send_lem disable_verb i s = refl

    -- Where the stream of a counter is read and extended faithfully, arguments that parse to a counter
    -- command which the domain accepts, on the counter that the log has, print a line with the id and the
    -- version of the aggregate that the decision made, and behind it the list of counters of the log with
    -- the one event more that stands for the command.
    pub run_cli_command :
        {IsSound : Log → String → Type 0}
        (streams : Streams (slice_view counter_event_schema view) IsSound) (s : S) (log : Log)
        (argv : List String) (verb : CommandVerb) (i : String) (after : CounterAggregate)
        → Holds s log
        → parse_arguments argv ≡ command verb i
        → IsSound log (target (command_of verb i))
        → let sliced = event_store_for-Implements counter_event_schema store view Holds impl in
          decide (command_of verb i) (addressed counter_store sliced log (command_of verb i))
            ≡ succeeded after
          → let request = one_event counter_store sliced log (command_of verb i) in
            let event = event_of (command_of verb i) in
            (run_cli argv s).0
            ≡ success (
                receipt_line after.aggregate_id after.version
                ∷ counter_lines ((slice_view counter_event_schema view).extend log (request event)))
    unfolding run_cli execute_action render_receipt counter_command_receipt_of
    run_cli_command streams s log argv verb i after holds parsed sound accepted =
        let sliced = event_store_for-Implements counter_event_schema store view Holds impl in
        let c = command_of verb i in
        let (returned, again, held) =
          counter_command_handler_accepted counter_store sliced s log c holds streams after sound
            accepted in
        let s' = (counter_command_handler counter_store c s).1 in
        let shown = list_lines_lem s' _ held in rw (parsed, send_lem verb i s, returned) (rw shown)
