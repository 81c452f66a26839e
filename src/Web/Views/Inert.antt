-- ===== src/Web/Views/Inert.antt =====
-- The texts of a model add no markup to what the views of packages/web/src/views show.
use es_ts_example.Common.{refl, Option, none, some, [], ◌∷◌, ◌++◌, String}
use es_ts_example.Web.Html.{Html, html_document}
use es_ts_example.Web.Models.{
  HtmlDocumentModel, AlertModel, alert_hidden, alert_visible, HiddenFieldModel, PostFormModel,
  SubmitButtonModel, TextFieldPresentation, text_field_presentation_default,
  text_field_presentation_error, TextFieldModel,
}
use es_ts_example.Web.Views.{
  is, document_element, html_document_view, post_form_encoding_attributes, alert_view,
  hidden_field_view, post_form_view, submit_button_view, input_class_name, error_view, optional,
  text_field_view,
}
use es_ts_example.Web.Views.Blank.{
  blank_document, no_text, blank_alert, blank_field, blank_form, blank_button, blank_presentation,
  blank_text_field,
}
use es_ts_example.Web.Views.Markup.{
  skeleton-append, SameMarkup, Alike, element-SameMarkup, none-SameMarkups, text-SameMarkups,
  markup-SameMarkups, children-SameMarkups, each-SameMarkups,
}

pub alert_view-blank_alert :
    (model : AlertModel) → SameMarkup (alert_view model) (alert_view (blank_alert model))
unfolding alert_view
alert_view-blank_alert alert_hidden = record { same = refl }
alert_view-blank_alert (alert_visible message) =
    element-SameMarkup "p" (record { alike = refl }) (text-SameMarkups none-SameMarkups)

hidden_field_view-blank_field :
    (field : HiddenFieldModel)
    → SameMarkup (hidden_field_view field) (hidden_field_view (blank_field field))
unfolding hidden_field_view
hidden_field_view-blank_field field =
    element-SameMarkup "input" (record { alike = refl }) none-SameMarkups

form_attributes-Alike :
    (action method : String) (encoding : Option String)
    → Alike
        (is "action" action
          ∷ is "className" "contents"
          ∷ is "data-component" "PostForm"
          ∷ is "data-design-id" "post-form"
          ∷ (post_form_encoding_attributes encoding ++ is "method" method ∷ []))
        (is "action" ""
          ∷ is "className" "contents"
          ∷ is "data-component" "PostForm"
          ∷ is "data-design-id" "post-form"
          ∷ (post_form_encoding_attributes (no_text encoding) ++ is "method" method ∷ []))
unfolding post_form_encoding_attributes
form_attributes-Alike action method none = record { alike = refl }
form_attributes-Alike action method (some encoding) = record { alike = refl }

pub post_form_view-blank_form :
    (model : PostFormModel) {slot slot' : Html}
    → SameMarkup slot slot'
    → SameMarkup (post_form_view model slot) (post_form_view (blank_form model) slot')
unfolding post_form_view
post_form_view-blank_form model h =
    element-SameMarkup "form" (form_attributes-Alike model.action "post" model.encoding) (
      children-SameMarkups
        (each-SameMarkups hidden_field_view blank_field hidden_field_view-blank_field
          model.hidden_fields)
        (markup-SameMarkups h none-SameMarkups))

pub submit_button_view-blank_button :
    (model : SubmitButtonModel)
    → SameMarkup (submit_button_view model) (submit_button_view (blank_button model))
unfolding submit_button_view
submit_button_view-blank_button model =
    element-SameMarkup "button" (record { alike = refl }) (text-SameMarkups none-SameMarkups)

error_view-blank_presentation :
    (presentation : TextFieldPresentation)
    → SameMarkup (error_view presentation) (error_view (blank_presentation presentation))
unfolding error_view
error_view-blank_presentation text_field_presentation_default = record { same = refl }
error_view-blank_presentation (text_field_presentation_error message) =
    element-SameMarkup "span" (record { alike = refl }) (text-SameMarkups none-SameMarkups)

input_attributes-Alike :
    (field : TextFieldModel) (placeholder : Option String)
    → Alike
        (is "className" (input_class_name field.presentation)
          ∷ is "id" field.id
          ∷ is "name" field.name
          ∷ ("placeholder", optional placeholder)
          ∷ is "type" "text"
          ∷ is "value" field.value
          ∷ [])
        (is "className" (input_class_name (blank_presentation field.presentation))
          ∷ is "id" ""
          ∷ is "name" ""
          ∷ ("placeholder", optional (no_text placeholder))
          ∷ is "type" "text"
          ∷ is "value" ""
          ∷ [])
input_attributes-Alike field none = record { alike = refl }
input_attributes-Alike field (some placeholder) = record { alike = refl }

pub text_field_view-blank_text_field :
    (field : TextFieldModel)
    → SameMarkup (text_field_view field) (text_field_view (blank_text_field field))
unfolding text_field_view
text_field_view-blank_text_field field =
    element-SameMarkup "label" (record { alike = refl })
      (text-SameMarkups (
        markup-SameMarkups
          (element-SameMarkup "input" (input_attributes-Alike field field.placeholder)
            none-SameMarkups)
          (markup-SameMarkups (error_view-blank_presentation field.presentation) none-SameMarkups)))

pub html_document_view-blank_document :
    (model : HtmlDocumentModel) {body body' : Html}
    → SameMarkup body body'
    → SameMarkup (html_document_view model body) (html_document_view (blank_document model) body')
unfolding html_document_view html_document
html_document_view-blank_document model h = record { same = simp (skeleton-append, (page h).same) }
  where
    page :
        {body body' : Html}
        → SameMarkup body body'
        → SameMarkup (document_element model body) (document_element (blank_document model) body')
    page h =
        element-SameMarkup "html" (record { alike = refl })
          (markup-SameMarkups
            (element-SameMarkup "head" (record { alike = refl })
              (markup-SameMarkups
                (element-SameMarkup "meta" (record { alike = refl }) none-SameMarkups)
                (markup-SameMarkups
                  (element-SameMarkup "meta" (record { alike = refl }) none-SameMarkups)
                  (markup-SameMarkups
                    (element-SameMarkup "meta" (record { alike = refl }) none-SameMarkups)
                    (markup-SameMarkups
                      (element-SameMarkup "title" (record { alike = refl })
                        (text-SameMarkups none-SameMarkups))
                      (markup-SameMarkups
                        (element-SameMarkup "link" (record { alike = refl }) none-SameMarkups)
                        none-SameMarkups))))))
            (markup-SameMarkups
              (element-SameMarkup "body" (record { alike = refl })
                (markup-SameMarkups h none-SameMarkups))
              none-SameMarkups))
