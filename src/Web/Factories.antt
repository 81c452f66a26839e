-- ===== src/Web/Factories.antt =====
-- The factories of page models in packages/web/src/factories. A `make` of a model does not throw on what
-- the types let through.
pub mod CounterPage
pub mod ArticlesPage
use Prim.Native.String.{String, ◌++◌}
use mathlib.Core.Option.{get_or}
use es_ts_example.Common.{
  ℕ, ◌+◌, Bool, true, false, ◌||◌, ◌==◌, Option, none, some, List, [], ◌∷◌, map, map_index,
  if◌then◌else◌,
}
use es_ts_example.Common.Decimal.{show}
use es_ts_example.Application.Counter.{
  CounterSummary, active_counter_summary, disabled_counter_summary,
}
use es_ts_example.Application.User.{ArticleRead}
use es_ts_example.Web.Models.{
  AlertModel, alert_hidden, alert_visible, HtmlDocumentModel, HiddenFieldModel, PostFormModel, Tone,
  primary, secondary, SubmitButtonModel, TextFieldPresentation, text_field_presentation_default,
  text_field_presentation_error, TextFieldModel, ArticleBookmarkPresentation, article_saved,
  article_not_saved, ArticleRow, ArticleListPresentation, article_list_empty,
  article_list_populated, ArticlesPageModel, CounterActionControl, CounterRow,
  CounterListPresentation, counter_list_empty, counter_list_populated, CounterPageModel,
}
use es_ts_example.Web.Messages.{web_i18n}

unfoldable pub make_alert_model : Option String → AlertModel
make_alert_model none = alert_hidden
make_alert_model (some message) = if message == "" then alert_hidden else alert_visible message

unfoldable pub make_html_document_model : String → HtmlDocumentModel
make_html_document_model title = record {
  description = web_i18n "web.document.description";
  stylesheet_href = "/client.css";
  title = title;
}

abbrev pub hidden_field : String → String → HiddenFieldModel
hidden_field name value = record { name = name; value = value }

-- Every caller leaves the encoding out.
unfoldable pub make_post_form_model : String → List HiddenFieldModel → PostFormModel
make_post_form_model action hidden_fields = record {
  action = action;
  encoding = none;
  hidden_fields = hidden_fields;
}

unfoldable pub make_submit_button_model : String → Tone → SubmitButtonModel
make_submit_button_model label tone = record { label = label; tone = tone }

unfoldable pub make_presentation : Option String → TextFieldPresentation
make_presentation none = text_field_presentation_default
make_presentation (some message) =
    if message == "" then text_field_presentation_default else text_field_presentation_error message

-- The arguments are the error message, the id, the label, the name, the placeholder and the value.
unfoldable pub make_text_field_model :
    Option String → String → String → String → Option String → String → TextFieldModel
make_text_field_model error_message id label name placeholder value = record {
  id = id;
  label = label;
  name = name;
  placeholder = placeholder;
  presentation = make_presentation error_message;
  value = value;
}
