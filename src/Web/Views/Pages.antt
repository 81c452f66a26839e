-- ===== src/Web/Views/Pages.antt =====
-- The texts of a page's model add no markup to the page (packages/web/src/views/pages).
use es_ts_example.Common.{◌≡◌, refl, String, ◌∷◌}
use es_ts_example.Web.Html.{text}
use es_ts_example.Web.Html.Element.{Attributes, named, element}
use es_ts_example.Web.Models.{
  ArticleBookmarkPresentation, article_saved, article_not_saved, ArticleRow,
  ArticleListPresentation, article_list_empty, article_list_populated, ArticlesPageModel,
  CounterActionControl, CounterRow, CounterListPresentation, counter_list_empty,
  counter_list_populated, CounterPageModel,
}
use es_ts_example.Web.Views.{one}
use es_ts_example.Web.Views.Blank.{
  blank_action, blank_counter_row, blank_counter_list, blank_counter_page, blank_bookmark,
  blank_article_row, blank_article_list, blank_articles_page,
}
use es_ts_example.Web.Views.Markup.{
  skeleton, SameMarkup, element-SameMarkup, none-SameMarkups, text-SameMarkups, markup-SameMarkups,
  each-SameMarkups,
}
use es_ts_example.Web.Views.Inert.{
  alert_view-blank_alert, post_form_view-blank_form, submit_button_view-blank_button,
  text_field_view-blank_text_field, html_document_view-blank_document,
}
use es_ts_example.Web.Views.CounterPage.{
  action_view, counter_row_view, counter_list_view, counter_page_view,
}
use es_ts_example.Web.Views.ArticlesPage.{
  bookmark_status_view, article_row_view, article_list_view, articles_page_view,
}

-- An element with one text.
text_element :
    (tag : String) (attributes : Attributes) (s t : String)
    → SameMarkup
        (element (named tag) attributes (one (text s)))
        (element (named tag) attributes (one (text t)))
text_element tag attributes s t =
    element-SameMarkup tag (record { alike = refl }) (text-SameMarkups none-SameMarkups)

action_view-blank_action :
    (action : CounterActionControl)
    → SameMarkup (action_view action) (action_view (blank_action action))
unfolding action_view
action_view-blank_action action =
    post_form_view-blank_form action.form (submit_button_view-blank_button action.button)

counter_row_view-blank_counter_row :
    (row : CounterRow)
    → SameMarkup (counter_row_view row) (counter_row_view (blank_counter_row row))
unfolding counter_row_view
counter_row_view-blank_counter_row row =
    element-SameMarkup "li" (record { alike = refl })
      (markup-SameMarkups (text_element "span" _ _ _) (
        markup-SameMarkups (text_element "span" _ _ _) (
          markup-SameMarkups (text_element "span" _ _ _) (
            markup-SameMarkups (text_element "span" _ _ _) (
              markup-SameMarkups
                (element-SameMarkup "span" (record { alike = refl })
                  (each-SameMarkups action_view blank_action action_view-blank_action row.actions))
                none-SameMarkups)))))

counter_list_view-blank_counter_list :
    (list : CounterListPresentation)
    → SameMarkup (counter_list_view list) (counter_list_view (blank_counter_list list))
unfolding counter_list_view
counter_list_view-blank_counter_list (counter_list_empty message) = text_element "p" _ _ _
counter_list_view-blank_counter_list (counter_list_populated row rows) =
    element-SameMarkup "ul" (record { alike = refl })
      (each-SameMarkups counter_row_view blank_counter_row counter_row_view-blank_counter_row
        (row ∷ rows))

-- The counter page of a model has the markup characters of the page of the blank model, in the same
-- order, whatever its texts: no text of the model adds or removes one.
pub counter_page_view-blank_counter_page :
    (model : CounterPageModel)
    → skeleton (counter_page_view model).value
      ≡ skeleton (counter_page_view (blank_counter_page model)).value
unfolding counter_page_view
counter_page_view-blank_counter_page model = (page model).same
  where
    page :
        (model : CounterPageModel)
        → SameMarkup (counter_page_view model) (counter_page_view (blank_counter_page model))
    page model = html_document_view-blank_document model.document (
        element-SameMarkup "main" (record { alike = refl })
          (markup-SameMarkups
            (element-SameMarkup "header" (record { alike = refl })
              (markup-SameMarkups (text_element "h1" _ _ _)
                (markup-SameMarkups (text_element "p" _ _ _) none-SameMarkups)))
            (markup-SameMarkups (alert_view-blank_alert model.alert) (
              markup-SameMarkups
                (post_form_view-blank_form model.create_form (
                  element-SameMarkup "section" (record { alike = refl })
                    (markup-SameMarkups (text_field_view-blank_text_field model.new_counter_field) (
                      markup-SameMarkups (submit_button_view-blank_button model.create_button)
                        none-SameMarkups))))
                (markup-SameMarkups (counter_list_view-blank_counter_list model.list)
                  none-SameMarkups)))))

bookmark_status_view-blank_bookmark :
    (bookmark : ArticleBookmarkPresentation)
    → SameMarkup (bookmark_status_view bookmark) (bookmark_status_view (blank_bookmark bookmark))
unfolding bookmark_status_view
bookmark_status_view-blank_bookmark (article_saved status_text) = text_element "span" _ _ _
bookmark_status_view-blank_bookmark (article_not_saved status_text) = text_element "span" _ _ _

article_row_view-blank_article_row :
    (row : ArticleRow)
    → SameMarkup (article_row_view row) (article_row_view (blank_article_row row))
unfolding article_row_view
article_row_view-blank_article_row row =
    element-SameMarkup "li" (record { alike = refl })
      (markup-SameMarkups (text_element "span" _ _ _) (
        markup-SameMarkups
          (element-SameMarkup "section" (record { alike = refl })
            (markup-SameMarkups (text_element "h2" _ _ _) (
              markup-SameMarkups
                (element-SameMarkup "div" (record { alike = refl })
                  (markup-SameMarkups (bookmark_status_view-blank_bookmark row.bookmark)
                    (markup-SameMarkups (text_element "span" _ _ _) none-SameMarkups)))
                none-SameMarkups)))
          (markup-SameMarkups
            (post_form_view-blank_form row.form (submit_button_view-blank_button row.button))
            none-SameMarkups)))

article_list_view-blank_article_list :
    (list : ArticleListPresentation)
    → SameMarkup (article_list_view list) (article_list_view (blank_article_list list))
unfolding article_list_view
article_list_view-blank_article_list (article_list_empty message) = text_element "p" _ _ _
article_list_view-blank_article_list (article_list_populated row rows) =
    element-SameMarkup "ol" (record { alike = refl })
      (each-SameMarkups article_row_view blank_article_row article_row_view-blank_article_row
        (row ∷ rows))

-- The articles page of a model has the markup characters of the page of the blank model, in the same
-- order, whatever its texts: no text of the model adds or removes one.
pub articles_page_view-blank_articles_page :
    (model : ArticlesPageModel)
    → skeleton (articles_page_view model).value
      ≡ skeleton (articles_page_view (blank_articles_page model)).value
unfolding articles_page_view
articles_page_view-blank_articles_page model = (page model).same
  where
    page :
        (model : ArticlesPageModel)
        → SameMarkup (articles_page_view model) (articles_page_view (blank_articles_page model))
    page model = html_document_view-blank_document model.document (
        element-SameMarkup "main" (record { alike = refl })
          (markup-SameMarkups
            (element-SameMarkup "header" (record { alike = refl })
              (markup-SameMarkups (text_element "p" _ _ _) (
                markup-SameMarkups (text_element "h1" _ _ _)
                  (markup-SameMarkups (text_element "p" _ _ _) none-SameMarkups))))
            (markup-SameMarkups (alert_view-blank_alert model.alert) (
              markup-SameMarkups (article_list_view-blank_article_list model.list)
                none-SameMarkups))))
