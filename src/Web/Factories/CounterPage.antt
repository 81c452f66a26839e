-- ===== src/Web/Factories/CounterPage.antt =====
-- packages/web/src/factories/pages/CounterPage.factory.ts
use Prim.Native.String.{String, ◌++◌}
use mathlib.Core.Option.{get_or}
use es_ts_example.Common.{Option, none, some, List, [], ◌∷◌, map}
use es_ts_example.Common.Decimal.{show}
use es_ts_example.Application.Counter.{
  CounterSummary, active_counter_summary, disabled_counter_summary,
}
use es_ts_example.Web.Models.{
  primary, secondary, CounterActionControl, CounterRow, CounterListPresentation, counter_list_empty,
  counter_list_populated, CounterPageModel,
}
use es_ts_example.Web.Messages.{web_i18n}
use es_ts_example.Web.Factories.{
  make_alert_model, make_html_document_model, hidden_field, make_post_form_model,
  make_submit_button_model, make_text_field_model,
}

-- "missing-id" | "command-failed"
pub data CounterPageError : Type 0 where
  missing_id command_failed : CounterPageError

unfoldable pub alert_message : Option CounterPageError → Option String
alert_message (some command_failed) = some (web_i18n "counter.error.commandFailed")
alert_message _ = none

unfoldable pub field_error_message : Option CounterPageError → Option String
field_error_message (some missing_id) = some (web_i18n "counter.error.missingId")
field_error_message _ = none

-- The id of the label and the verb.
abbrev pub counter_actions : List (String × String)
counter_actions =
    ("counter.action.increment", "increment")
    ∷ ("counter.action.decrement", "decrement")
    ∷ ("counter.action.disable", "disable")
    ∷ []

unfoldable pub make_action_control : String → String × String → CounterActionControl
unfolding make_submit_button_model make_post_form_model
make_action_control counter_id action = record {
  button = make_submit_button_model (web_i18n action.0) secondary;
  form =
      make_post_form_model "/actions/counter/command"
        (hidden_field "counterId" counter_id ∷ hidden_field "verb" action.1 ∷ []);
}

unfoldable pub make_row : CounterSummary → CounterRow
unfolding make_action_control show
make_row (active_counter_summary i value version) = record {
  actions = map (make_action_control i) counter_actions;
  counter_id = i;
  status_text = "status=" ++ "active";
  value_text = "value=" ++ show value;
  version_text = "version=" ++ show version;
}
make_row (disabled_counter_summary i value version) = record {
  actions = map (make_action_control i) counter_actions;
  counter_id = i;
  status_text = "status=" ++ "disabled";
  value_text = "value=" ++ show value;
  version_text = "version=" ++ show version;
}

unfoldable pub make_list : List CounterSummary → CounterListPresentation
unfolding make_row
make_list [] = counter_list_empty (web_i18n "counter.list.empty")
make_list (counter ∷ counters) = counter_list_populated (make_row counter) (map make_row counters)

unfoldable pub make_counter_page_model :
    List CounterSummary → Option CounterPageError → Option String → CounterPageModel
unfolding make_alert_model make_submit_button_model make_post_form_model make_html_document_model
    make_text_field_model make_list alert_message field_error_message
make_counter_page_model counters error new_counter_id = record {
  alert = make_alert_model (alert_message error);
  create_button = make_submit_button_model (web_i18n "counter.create.submit") primary;
  create_form = make_post_form_model "/actions/counter/create" [];
  document = make_html_document_model (web_i18n "counter.documentTitle");
  heading = web_i18n "counter.heading";
  intro = web_i18n "counter.intro";
  list = make_list counters;
  new_counter_field =
      make_text_field_model (field_error_message error) "new-counter-id"
        (web_i18n "counter.create.field.label") "counterId"
        (some (web_i18n "counter.create.field.placeholder")) (get_or new_counter_id "");
}
