-- ===== src/Tests/Web.antt =====
-- The theorems about packages/web/src, on concrete texts and a client that counts what it is sent.
use es_ts_example.Web.Html.Escape.{entities, escape_html-entities}
use es_ts_example.Web.Controllers.Laws.{post_counter_command_controller_lem}
use es_ts_example.Common.{
  ℕ, ◌+◌, ◌≡◌, ◌≢◌, ◌↔◌, refl, some, none, Option, List, [], ◌∷◌, ◌==◌, All, if◌then◌else◌, String,
  arith, eq_iff,
}
use es_ts_example.Effect.{success, failure, die, Effect}
use es_ts_example.Application.Counter.{
  create, decide, CounterCommandReceipt, CounterSummary, active_counter_summary,
  CounterCommandClient,
}
use es_ts_example.Application.EventStore.{counter_event_of, counter_event_schema}
use es_ts_example.Application.EventStore.Laws.{counter_event_schema-IsSchema}
use es_ts_example.Domain.Counter.{active_counter, counter_created, CounterAggregate, replay_counter}
use es_ts_example.Web.Html.{escape_html}
use es_ts_example.Web.Html.Element.{
  html, named, element, Given, given_text, given_true, given_object, given_array, more_givens,
  no_givens, Props, children_from_props, jsx,
}
use es_ts_example.Web.Html.Jsx.{expected, jsx_lem}
use es_ts_example.Web.Models.{CounterActionControl}
use es_ts_example.Web.Factories.CounterPage.{make_action_control, make_counter_page_model}
use es_ts_example.Web.Controllers.{counter_home_href, run_verb, post_counter_command_controller}
use es_ts_example.Web.Controllers.Pages.{GetCounterPageInput}
use es_ts_example.Web.Views.{is}
use es_ts_example.Web.Views.Markup.{skeleton}
use es_ts_example.Web.Views.Shows.{Shows, row_text}
use es_ts_example.Web.Views.CounterPage.{counter_page_view}
use es_ts_example.Web.Server.{
  increment, decrement, disable, Verb, RunCounterCommandBody, Decoders, WebClients, redirect,
  text_response, redirect_response, create_counter, counter_page,
}
use es_ts_example.Web.Server.Create.{create_counter_lem}
use es_ts_example.Web.Server.Shape.{counter_page_shape}
use es_ts_example.Web.Runtime.Create.{counters_of, create_then_show}
use es_ts_example.EventSourcing.EventStore.{records_for_aggregate, aggregate_version_in_records}
use es_ts_example.EventSourcing.EventStore.Contract.{record_view}
use es_ts_example.Application.Counter.{EntryOrder}
use es_ts_example.Application.Counter.Handler.{one_event}
use es_ts_example.Application.EventStore.{narrowed}
use es_ts_example.Application.EventStore.Laws.{slice_view}
use es_ts_example.Application.EventStore.Streams.{slice_view-Streams}
use es_ts_example.Web.Runtime.{local_rpc_clients}
use es_ts_example.Tests.Stores.{
  shared_log, shared_log-IsWellFormed, domain_memory, domain_memory-Implements, counters,
  counters-Implements,
}

escape_html-entities_example : escape_html "<a href='x'>&lt;" ≡ entities "<a href='x'>&lt;"
escape_html-entities_example = escape_html-entities "<a href='x'>&lt;"

escape_html_test : escape_html "<a>&lt;" ≡ "&lt;a&gt;&amp;lt;"
unfolding escape_html
escape_html_test = refl

abbrev counted : String → Effect ℕ String CounterCommandReceipt
counted i n = (success (record { counter_id = i; version = n }), n + 1)

abbrev counting : CounterCommandClient ℕ String
counting = record {
  create_counter = counted;
  increment_counter = counted;
  decrement_counter = counted;
  disable_counter = counted;
}

abbrev plain : String → String
plain s = s

abbrev the_id : String
the_id = "c"

abbrev empty_id : String
empty_id = ""

post_counter_command_controller_lem_example :
    (the_id ≢ empty_id
      → ((post_counter_command_controller plain counting the_id "increment" 0).0
          ≡ success (counter_home_href plain none none))
        ↔ ((r : CounterCommandReceipt) × ((run_verb counting "increment" the_id 0).0 ≡ success r)))
    × (the_id ≡ empty_id
        → post_counter_command_controller plain counting the_id "increment" 0 ≡ (die, 0))
post_counter_command_controller_lem_example =
    post_counter_command_controller_lem plain counting the_id "increment" 0

-- A request is what its form or its query carries, in order.
abbrev Fields : Type 0
Fields = List (String × String)

abbrev verb_of : String → Option Verb
verb_of name =
    if name == "increment"
    then some increment
    else if name == "decrement"
    then some decrement
    else if name == "disable"
    then some disable
    else none

abbrev body_with : String → Option Verb → Option RunCounterCommandBody
body_with i none = none
body_with i (some v) = some (record { counter_id = i; verb = v })

abbrev body_of : Fields → Option RunCounterCommandBody
body_of [] = none
body_of (field ∷ []) = none
body_of (field ∷ verb ∷ rest) = body_with field.1 (verb_of verb.1)

abbrev first_text : Fields → Option String
first_text [] = none
first_text (field ∷ rest) = some field.1

abbrev decoders : Decoders Fields
decoders = record {
  home_query = λ request. some (record { error = none; new_counter_id = none });
  articles_query = λ request. some none;
  create_counter_body = first_text;
  run_counter_command_body = body_of;
  toggle_bookmark_body = first_text;
}

abbrev counting_clients : WebClients ℕ String
counting_clients = record {
  counter_commands = counting;
  list_counters = λ n. (success [], n);
  toggle_article_bookmark = λ c n. (failure "offline", n);
  list_articles = λ u n. (success [], n);
}

abbrev the_form : Fields
the_form = ("counterId", "c") ∷ []

id_not_empty : the_id ≢ empty_id
id_not_empty e = ground (arith, eq_iff the_id empty_id)

create_counter_lem_example :
    ((create_counter plain plain decoders counting_clients the_form 0).1 ≡ 1)
    × (((create_counter plain plain decoders counting_clients the_form 0).0
          ≡ success (redirect "/"))
        ↔ ((r : CounterCommandReceipt) × ((counted "c" 0).0 ≡ success r)))
create_counter_lem_example =
    create_counter_lem plain plain decoders counting_clients the_form 0 "c" refl id_not_empty

abbrev shown_counter : CounterSummary
shown_counter = active_counter_summary "c" 2 3

abbrev pressed : Fields
pressed = ("counterId", "c") ∷ ("verb", "decrement") ∷ []

abbrev decrement_control : CounterActionControl
decrement_control = make_action_control "c" ("counter.action.decrement", "decrement")

abbrev hostile : CounterSummary
hostile = active_counter_summary "\"><script>" 0 1

counter_page_shape_example :
    skeleton (counter_page_view (make_counter_page_model (hostile ∷ []) none (some "<"))).value
    ≡ skeleton (counter_page_view (make_counter_page_model (shown_counter ∷ []) none none)).value
counter_page_shape_example =
    counter_page_shape (hostile ∷ []) (shown_counter ∷ []) none (some "<") none refl

-- Texts and a nested array, with markup in it.
abbrev nested_children : Given
nested_children = given_array (
    more_givens (given_text "a<b") (
      more_givens
        (given_array (
          more_givens given_true (
            more_givens (given_object (some "Html") (some "<i>c</i>") "[object Object]")
              no_givens)))
        no_givens))

abbrev nested_props : Props
nested_props = record { attributes = is "lang" "en" ∷ []; children = some nested_children }

jsx_lem_example :
    jsx (named "p") nested_props ≡ expected "p" nested_props.attributes nested_children
jsx_lem_example = jsx_lem "p" nested_props nested_children refl

jsx_test : jsx (named "p") nested_props ≡ some (html "<p lang=\"en\">a&lt;btrue<i>c</i></p>")
unfolding jsx element children_from_props
jsx_test = refl

-- An object of the kind of markup whose value is no text is taken for a child, and shown as an object.
abbrev odd_props : Props
odd_props = record {
  attributes = [];
  children = some (given_object (some "Html") none "[object Object]");
}

odd_test : jsx (named "p") odd_props ≡ some (html "<p>[object Object]</p>")
unfolding jsx element children_from_props
odd_test = refl

abbrev given_order : EntryOrder
given_order groups = groups

abbrev created : CounterAggregate
created = record {
  aggregate_id = "d";
  state = active_counter "d" 0;
  version = 1;
  pending_events = counter_created "d" ∷ [];
}

abbrev new_form : Fields
new_form = ("counterId", "d") ∷ []

abbrev empty_query : GetCounterPageInput
empty_query = record { error = none; new_counter_id = none }

abbrev new_id : String
new_id = "d"

new_id_not_empty : new_id ≢ empty_id
new_id_not_empty e = ground (arith, eq_iff new_id empty_id)

create_then_show_example :
    let clients = local_rpc_clients domain_memory given_order in
    let answer = create_counter plain plain decoders clients new_form shared_log in
    (answer.0 ≡ success (redirect_response "/" 303))
    × ((body : String) × ((counter_page plain plain decoders clients [] answer.1).0
          ≡ success (text_response body (some "text/html; charset=utf-8") 200))
        × All
            (λ row. Shows body (row_text row))
            (counters_of domain_memory given_order plain plain decoders domain_memory-Implements (
              (slice_view counter_event_schema record_view).extend shared_log (
                one_event counters counters-Implements shared_log
                  (create "d")
                  (counter_created "d")))))
unfolding decide replay_counter records_for_aggregate counter_event_of aggregate_version_in_records
    narrowed
create_then_show_example =
    create_then_show domain_memory given_order plain plain decoders domain_memory-Implements
      (slice_view-Streams counter_event_schema counter_event_schema-IsSchema) new_form [] "d"
      empty_query shared_log shared_log created refl refl new_id_not_empty refl
      (record { well_formed = shared_log-IsWellFormed; no_foreign = refl }) refl
