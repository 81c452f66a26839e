-- ===== src/Web/Views/Blank.antt =====
-- Models of packages/web/src/models without their texts: the same fields, rows and presentations, and
-- every text empty.
use es_ts_example.Common.{Option, none, some, String, map}
use es_ts_example.Web.Models.{
  AlertModel, alert_hidden, alert_visible, HtmlDocumentModel, HiddenFieldModel, PostFormModel,
  SubmitButtonModel, TextFieldPresentation, text_field_presentation_default,
  text_field_presentation_error, TextFieldModel, ArticleBookmarkPresentation, article_saved,
  article_not_saved, ArticleRow, ArticleListPresentation, article_list_empty,
  article_list_populated, ArticlesPageModel, CounterActionControl, CounterRow,
  CounterListPresentation, counter_list_empty, counter_list_populated, CounterPageModel,
}

abbrev pub no_text : Option String → Option String
no_text none = none
no_text (some _) = some ""

abbrev pub blank_alert : AlertModel → AlertModel
blank_alert alert_hidden = alert_hidden
blank_alert (alert_visible _) = alert_visible ""

abbrev pub blank_document : HtmlDocumentModel → HtmlDocumentModel
blank_document _ = record { description = ""; stylesheet_href = ""; title = "" }

abbrev pub blank_field : HiddenFieldModel → HiddenFieldModel
blank_field _ = record { name = ""; value = "" }

abbrev pub blank_form : PostFormModel → PostFormModel
blank_form form = record {
  action = "";
  encoding = no_text form.encoding;
  hidden_fields = map blank_field form.hidden_fields;
}

abbrev pub blank_button : SubmitButtonModel → SubmitButtonModel
blank_button button = record { label = ""; tone = button.tone }

abbrev pub blank_presentation : TextFieldPresentation → TextFieldPresentation
blank_presentation text_field_presentation_default = text_field_presentation_default
blank_presentation (text_field_presentation_error _) = text_field_presentation_error ""

abbrev pub blank_text_field : TextFieldModel → TextFieldModel
blank_text_field field = record {
  id = "";
  label = "";
  name = "";
  placeholder = no_text field.placeholder;
  presentation = blank_presentation field.presentation;
  value = "";
}

abbrev pub blank_action : CounterActionControl → CounterActionControl
blank_action action = record { button = blank_button action.button; form = blank_form action.form }

abbrev pub blank_counter_row : CounterRow → CounterRow
blank_counter_row row = record {
  actions = map blank_action row.actions;
  counter_id = "";
  status_text = "";
  value_text = "";
  version_text = "";
}

abbrev pub blank_counter_list : CounterListPresentation → CounterListPresentation
blank_counter_list (counter_list_empty _) = counter_list_empty ""
blank_counter_list (counter_list_populated row rows) =
    counter_list_populated (blank_counter_row row) (map blank_counter_row rows)

-- A counter page without its texts.
abbrev pub blank_counter_page : CounterPageModel → CounterPageModel
blank_counter_page model = record {
  alert = blank_alert model.alert;
  create_button = blank_button model.create_button;
  create_form = blank_form model.create_form;
  document = blank_document model.document;
  heading = "";
  intro = "";
  list = blank_counter_list model.list;
  new_counter_field = blank_text_field model.new_counter_field;
}

abbrev pub blank_bookmark : ArticleBookmarkPresentation → ArticleBookmarkPresentation
blank_bookmark (article_saved _) = article_saved ""
blank_bookmark (article_not_saved _) = article_not_saved ""

abbrev pub blank_article_row : ArticleRow → ArticleRow
blank_article_row row = record {
  article_id = "";
  bookmark = blank_bookmark row.bookmark;
  button = blank_button row.button;
  form = blank_form row.form;
  index_text = "";
  title = "";
}

abbrev pub blank_article_list : ArticleListPresentation → ArticleListPresentation
blank_article_list (article_list_empty _) = article_list_empty ""
blank_article_list (article_list_populated row rows) =
    article_list_populated (blank_article_row row) (map blank_article_row rows)

-- An articles page without its texts.
abbrev pub blank_articles_page : ArticlesPageModel → ArticlesPageModel
blank_articles_page model = record {
  alert = blank_alert model.alert;
  document = blank_document model.document;
  eyebrow = "";
  heading = "";
  intro = "";
  list = blank_article_list model.list;
}
