-- ===== src/Web/Models.antt =====
-- The models of controls and pages in packages/web/src/models.
use es_ts_example.Common.{Option, List, String}

pub data AlertModel : Type 0 where
  alert_hidden : AlertModel
  alert_visible : String → AlertModel

pub record HtmlDocumentModel : Type 0 where
  pub description : String
  pub stylesheet_href : String
  pub title : String

pub record HiddenFieldModel : Type 0 where
  pub name : String
  pub value : String

pub record PostFormModel : Type 0 where
  pub action : String
  pub encoding : Option String
  pub hidden_fields : List HiddenFieldModel

pub data Tone : Type 0 where
  primary secondary : Tone

pub record SubmitButtonModel : Type 0 where
  pub label : String
  pub tone : Tone

pub data TextFieldPresentation : Type 0 where
  text_field_presentation_default : TextFieldPresentation
  text_field_presentation_error : String → TextFieldPresentation

pub record TextFieldModel : Type 0 where
  pub id : String
  pub label : String
  pub name : String
  pub placeholder : Option String
  pub presentation : TextFieldPresentation
  pub value : String

pub data ArticleBookmarkPresentation : Type 0 where
  article_saved article_not_saved : String → ArticleBookmarkPresentation

pub record ArticleRow : Type 0 where
  pub article_id : String
  pub bookmark : ArticleBookmarkPresentation
  pub button : SubmitButtonModel
  pub form : PostFormModel
  pub index_text : String
  pub title : String

-- The rows are a first one and the others, since there is at least one.
pub data ArticleListPresentation : Type 0 where
  article_list_empty : String → ArticleListPresentation
  article_list_populated : ArticleRow → List ArticleRow → ArticleListPresentation

pub record ArticlesPageModel : Type 0 where
  pub alert : AlertModel
  pub document : HtmlDocumentModel
  pub eyebrow : String
  pub heading : String
  pub intro : String
  pub list : ArticleListPresentation

pub record CounterActionControl : Type 0 where
  pub button : SubmitButtonModel
  pub form : PostFormModel

pub record CounterRow : Type 0 where
  pub actions : List CounterActionControl
  pub counter_id : String
  pub status_text : String
  pub value_text : String
  pub version_text : String

pub data CounterListPresentation : Type 0 where
  counter_list_empty : String → CounterListPresentation
  counter_list_populated : CounterRow → List CounterRow → CounterListPresentation

pub record CounterPageModel : Type 0 where
  pub alert : AlertModel
  pub create_button : SubmitButtonModel
  pub create_form : PostFormModel
  pub document : HtmlDocumentModel
  pub heading : String
  pub intro : String
  pub list : CounterListPresentation
  pub new_counter_field : TextFieldModel
