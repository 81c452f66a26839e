-- ===== src/Web/Views.antt =====
-- The views of controls in packages/web/src/views/controls. The runtime turns JSX into `element`, with
-- the children that the properties hold: a list of children as it is, and one child as a list of one.
pub mod CounterPage
pub mod ArticlesPage
pub mod Markup
pub mod Blank
pub mod Inert
pub mod Pages
pub mod Shows
use es_ts_example.Common.{Option, none, some, List, [], ◌∷◌, ◌++◌, String}
use es_ts_example.Web.Html.{
  Html, Child, markup, text, absent, children, Children, no_more, more, AttributeValue, given,
  missing, html_document, render_child,
}
use es_ts_example.Web.Html.Element.{html, Attributes, named, element, fragment}
use es_ts_example.Web.Models.{
  AlertModel, alert_hidden, alert_visible, HtmlDocumentModel, HiddenFieldModel, PostFormModel, Tone,
  primary, secondary, SubmitButtonModel, TextFieldPresentation, text_field_presentation_default,
  text_field_presentation_error, TextFieldModel,
}

-- An attribute with a text.
abbrev pub is : String → String → String × AttributeValue
is name value = (name, given value)

abbrev pub one : Child → Children
one child = more child no_more

-- `renderNothing`
unfoldable pub render_nothing : Html
render_nothing = fragment absent no_more

unfoldable pub post_form_encoding_attributes : Option String → Attributes
post_form_encoding_attributes none = []
post_form_encoding_attributes (some encoding) = is "enctype" encoding ∷ []

unfoldable pub alert_view : AlertModel → Html
alert_view alert_hidden = render_nothing
alert_view (alert_visible message) =
    element (named "p")
      (is "className" "alert alert-error" ∷ is "data-component" "Alert" ∷ is "role" "alert" ∷ [])
      (one (text message))

-- The `html` element that `htmlDocument` stands before.
abbrev pub document_element : HtmlDocumentModel → Html → Html
document_element model body =
    (element (named "html") (is "lang" "en" ∷ []) (
      more
        (markup (
          element (named "head") [] (
            more (markup (element (named "meta") (is "charset" "utf-8" ∷ []) no_more)) (
              more
                (markup (
                  element (named "meta")
                    (is "content" "width=device-width, initial-scale=1, viewport-fit=cover"
                      ∷ is "name" "viewport"
                      ∷ [])
                    no_more))
                (more
                  (markup (
                    element (named "meta")
                      (is "content" model.description ∷ is "name" "description" ∷ []) no_more))
                  (more (markup (element (named "title") [] (one (text model.title)))) (
                    one (
                      markup (
                        element (named "link")
                          (is "href" model.stylesheet_href ∷ is "rel" "stylesheet" ∷ [])
                          no_more)))))))))
        (one (
          markup (
            element (named "body")
              (is "className" "bg-base-100"
                ∷ is "data-component" "HtmlDocument"
                ∷ is "data-theme" "es-ts-example"
                ∷ [])
              (one (markup body)))))))

-- The body is given by every caller.
unfoldable pub html_document_view : HtmlDocumentModel → Html → Html
html_document_view model body = html_document (document_element model body)

-- `Arr.map` of a list to the children that show it.
unfoldable pub each : {A : Type 0} → (A → Html) → List A → Children
each view [] = no_more
each view (a ∷ rest) = more (markup (view a)) (each view rest)

unfoldable pub hidden_field_view : HiddenFieldModel → Html
hidden_field_view field =
    element (named "input")
      (is "name" field.name ∷ is "type" "hidden" ∷ is "value" field.value ∷ []) no_more

unfoldable pub post_form_view : PostFormModel → Html → Html
post_form_view model slot =
    element (named "form")
      (is "action" model.action
        ∷ is "className" "contents"
        ∷ is "data-component" "PostForm"
        ∷ is "data-design-id" "post-form"
        ∷ (post_form_encoding_attributes model.encoding ++ is "method" "post" ∷ []))
      (more (children (each hidden_field_view model.hidden_fields)) (one (markup slot)))

unfoldable pub button_class_name : Tone → String
button_class_name primary = "btn btn-primary"
button_class_name secondary = "btn btn-secondary btn-outline"

unfoldable pub submit_button_view : SubmitButtonModel → Html
submit_button_view model =
    element (named "button")
      (is "className" (button_class_name model.tone)
        ∷ is "data-component" "SubmitButton"
        ∷ is "data-design-id" "submit-button"
        ∷ is "type" "submit"
        ∷ [])
      (one (text model.label))

unfoldable pub input_class_name : TextFieldPresentation → String
input_class_name text_field_presentation_default = "input input-bordered w-full"
input_class_name (text_field_presentation_error _) = "input input-bordered input-error w-full"

unfoldable pub error_view : TextFieldPresentation → Html
error_view text_field_presentation_default = render_nothing
error_view (text_field_presentation_error message) =
    element (named "span") (is "className" "text-sm text-error" ∷ is "role" "alert" ∷ [])
      (one (text message))

-- A text, or `undefined`.
abbrev pub optional : Option String → AttributeValue
optional none = missing
optional (some value) = given value

unfoldable pub text_field_view : TextFieldModel → Html
text_field_view model =
    element (named "label")
      (is "className" "grid w-full gap-2 text-sm font-semibold"
        ∷ is "data-component" "TextField"
        ∷ is "data-design-id" "text-field"
        ∷ is "for" model.id
        ∷ [])
      (more (text model.label) (
        more
          (markup (
            element (named "input")
              (is "className" (input_class_name model.presentation)
                ∷ is "id" model.id
                ∷ is "name" model.name
                ∷ ("placeholder", optional model.placeholder)
                ∷ is "type" "text"
                ∷ is "value" model.value
                ∷ [])
              no_more))
          (one (markup (error_view model.presentation)))))
