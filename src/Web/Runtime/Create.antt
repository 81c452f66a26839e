-- ===== src/Web/Runtime/Create.antt =====
-- A counter created through the web (createCounter and counterPage of packages/web/src/server.ts), over
-- the handlers of packages/application/src and the shared store.
use Prim.Native.String.{String}
use es_ts_example.Common.{◌≡◌, ◌≢◌, refl, some, List, [], ap, All}
use es_ts_example.Effect.{success}
use es_ts_example.EventSourcing.Decision.{succeeded}
use es_ts_example.EventSourcing.EventStore.{EventStore}
use es_ts_example.EventSourcing.EventStore.Contract.{LogView, Implements, Streams, everything}
use es_ts_example.Domain.{DomainEvent}
use es_ts_example.Domain.Counter.{CounterEvent, counter_created, CounterAggregate}
use es_ts_example.Application.EventStore.{counter_event_schema}
use es_ts_example.Application.EventStore.Narrowed.{counter_records, narrowed_counter_lem}
use es_ts_example.Application.EventStore.Laws.{slice_view, event_store_for-Implements}
use es_ts_example.Application.Counter.{
  create, decide, counter_command_handler, counter_command_receipt_of, CounterSummary, EntryOrder,
  list_counters_handler,
}
use es_ts_example.Application.Counter.Handler.{
  addressed, one_event, counter_command_handler_accepted,
}
use es_ts_example.Application.Counter.Listing.{rows_of, counter_rows-eq-rows_of}
use es_ts_example.Web.Views.CounterPage.{counter_page_view}
use es_ts_example.Web.Views.Shows.{Shows, row_text, counter_page_view-Shows}
use es_ts_example.Cli.Run.{receipt, counter_store, counter_command_handlers}
use es_ts_example.Web.Factories.CounterPage.{make_counter_page_model}
use es_ts_example.Web.Controllers.Pages.{
  GetCounterPageInput, as_page_error, get_counter_page_controller,
}
use es_ts_example.Web.Server.{
  text_response, redirect_response, Decoders, create_counter, counter_page, counter_html_page,
}
use es_ts_example.Web.Server.Create.{create_counter_lem}
use es_ts_example.Web.Runtime.{local_rpc_clients}

module _ {S StoreError : Type 0} (store : EventStore S DomainEvent StoreError)
    (to_entries : EntryOrder) (encode_uri_component trim : String → String) {Request : Type 0}
    (decoders : Decoders Request) {Log : Type 0} {view : LogView Log DomainEvent}
    {Holds : S → Log → Type 0} (impl : Implements store view Holds) where
  abbrev counters : EventStore S CounterEvent StoreError
  counters = counter_store store to_entries

  -- The log as the counters have it.
  abbrev counter_log : LogView Log CounterEvent
  counter_log = slice_view counter_event_schema view

  -- The counters of a log.
  abbrev pub counters_of : Log → List CounterSummary
  counters_of log = rows_of to_entries (counter_records (view.read_all log everything))

  -- The text of the page that shows a log to a request.
  abbrev page_of : Log → GetCounterPageInput → String
  page_of log input =
      (counter_page_view (
        make_counter_page_model (counters_of log) (as_page_error input.error)
          input.new_counter_id)).value

  -- Wherever the store holds a log, the counter page shows the counters of the log, and changes nothing.
  counter_page_shows :
      (request : Request) (input : GetCounterPageInput) (s : S) (log : Log)
      → decoders.home_query request ≡ some input
      → Holds s log
      → counter_page encode_uri_component trim decoders
          (local_rpc_clients store to_entries)
          request
          s
        ≡ (success (text_response (page_of log input) (some "text/html; charset=utf-8") 200), s)
  unfolding counter_page get_counter_page_controller local_rpc_clients list_counters_handler
      counter_html_page
  counter_page_shows request input s log h holds =
      let sliced = event_store_for-Implements counter_event_schema store view Holds impl in
      rw (
        h,
        sliced.fetch_all_reads s log everything holds,
        narrowed_counter_lem (view.read_all log everything),
        counter_rows-eq-rows_of to_entries (counter_records (view.read_all log everything)),
      )

  -- Where the store holds a log, and the stream of the new counter is read and extended faithfully, posting
  -- the form with an id that is not blank and that the domain accepts once trimmed sends the browser home without an error; and a
  -- counter page asked for behind it is HTML with the status 200 that shows a row, with id, value, status
  -- and version, of every counter of the log with the creation of the counter added.
  pub create_then_show :
      {IsSound : Log → String → Type 0}
      (streams : Streams (slice_view counter_event_schema view) IsSound) (posted asked : Request)
      (counter_id : String) (input : GetCounterPageInput) (s : S) (log : Log)
      (after : CounterAggregate)
      → Holds s log
      → decoders.create_counter_body posted ≡ some counter_id
      → trim counter_id ≢ ""
      → decoders.home_query asked ≡ some input
      → IsSound log (trim counter_id)
      → let sliced = event_store_for-Implements counter_event_schema store view Holds impl in
        decide (create (trim counter_id)) (addressed counters sliced log (create (trim counter_id)))
          ≡ succeeded after
        → let clients = local_rpc_clients store to_entries in
          let answer = create_counter encode_uri_component trim decoders clients posted s in
          let request = one_event counters sliced log (create (trim counter_id)) in
          let extended = counter_log.extend log (request (counter_created (trim counter_id))) in
          (answer.0 ≡ success (redirect_response "/" 303))
          × ((body : String) × ((counter_page encode_uri_component trim decoders clients asked
                  answer.1).0
                ≡ success (text_response body (some "text/html; charset=utf-8") 200))
              × All (λ row. Shows body (row_text row)) (counters_of extended))
  unfolding local_rpc_clients counter_command_handlers receipt
  create_then_show streams posted asked counter_id input s log after holds decodes ne asks sound
        accepted =
      let sliced = event_store_for-Implements counter_event_schema store view Holds impl in
      let clients = local_rpc_clients store to_entries in
      let c = create (trim counter_id) in
      let (returned, again, held) =
        counter_command_handler_accepted counters sliced s log c holds streams after sound
          accepted in
      let (state, told) =
        create_counter_lem encode_uri_component trim decoders clients posted s counter_id decodes
          ne in
      let s' = (counter_command_handler counters c s).1 in
      let extended =
        counter_log.extend log
          (one_event counters sliced log c (counter_created (trim counter_id))) in
      (
        told.1
            (counter_command_receipt_of (record after { pending_events = [] }), rw returned refl),
        (
          page_of extended input,
          rw state (ap (λ x. x.0) (counter_page_shows asked input s' extended asks held)),
          counter_page_view-Shows (counters_of extended) (as_page_error input.error)
              input.new_counter_id,
        ),
      )
