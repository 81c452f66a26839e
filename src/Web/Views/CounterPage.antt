-- ===== src/Web/Views/CounterPage.antt =====
-- packages/web/src/views/pages/CounterPage.view.tsx
use es_ts_example.Common.{[], ◌∷◌}
use es_ts_example.Web.Html.{Html, markup, text, more}
use es_ts_example.Web.Html.Element.{named, element}
use es_ts_example.Web.Models.{
  CounterActionControl, CounterRow, CounterListPresentation, counter_list_empty,
  counter_list_populated, CounterPageModel,
}
use es_ts_example.Web.Views.{
  is, one, each, alert_view, html_document_view, post_form_view, submit_button_view,
  text_field_view,
}

unfoldable pub action_view : CounterActionControl → Html
action_view action = post_form_view action.form (submit_button_view action.button)

unfoldable pub counter_row_view : CounterRow → Html
counter_row_view row =
    element (named "li")
      (is "className" "flex flex-wrap items-center gap-4 rounded-box bg-base-100 p-4"
        ∷ is "data-counter-id" row.counter_id
        ∷ [])
      (more
        (markup (
          element (named "span")
            (is "className" "font-mono font-semibold" ∷ is "data-role" "counter-id" ∷ [])
            (one (text row.counter_id))))
        (more
          (markup (
            element (named "span")
              (is "className" "font-mono" ∷ is "data-role" "counter-value" ∷ [])
              (one (text row.value_text))))
          (more
            (markup (
              element (named "span")
                (is "className" "font-mono" ∷ is "data-role" "counter-status" ∷ [])
                (one (text row.status_text))))
            (more
              (markup (
                element (named "span")
                  (is "className" "font-mono text-base-content/60"
                    ∷ is "data-role" "counter-version"
                    ∷ [])
                  (one (text row.version_text))))
              (one (
                markup (
                  element (named "span") (is "className" "ml-auto flex gap-2" ∷ [])
                    (each action_view row.actions))))))))

unfoldable pub counter_list_view : CounterListPresentation → Html
counter_list_view (counter_list_empty message) =
    element (named "p")
      (is "className" "text-base-content/60" ∷ is "data-role" "counter-list-empty" ∷ [])
      (one (text message))
counter_list_view (counter_list_populated row rows) =
    element (named "ul") (is "className" "grid gap-3" ∷ is "data-role" "counter-list" ∷ [])
      (each counter_row_view (row ∷ rows))

unfoldable pub counter_page_view : CounterPageModel → Html
counter_page_view model = html_document_view model.document (
    element (named "main")
      (is "className" "mx-auto grid w-full max-w-2xl gap-8 p-6"
        ∷ is "data-component" "CounterPage"
        ∷ [])
      (more
        (markup (
          element (named "header") (is "className" "grid gap-2" ∷ []) (
            more
              (markup (
                element (named "h1") (is "className" "text-2xl font-bold text-primary" ∷ [])
                  (one (text model.heading))))
              (one (
                markup (
                  element (named "p") (is "className" "text-base-content/70" ∷ [])
                    (one (text model.intro))))))))
        (more (markup (alert_view model.alert)) (
          more
            (markup (
              post_form_view model.create_form (
                element (named "section")
                  (is "className" "flex flex-wrap items-end gap-4 rounded-box bg-base-100 p-4" ∷ [])
                  (more (markup (text_field_view model.new_counter_field))
                    (one (markup (submit_button_view model.create_button)))))))
            (one (markup (counter_list_view model.list)))))))
