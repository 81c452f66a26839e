-- ===== src/Web/Views/ArticlesPage.antt =====
-- packages/web/src/views/pages/ArticlesPage.view.tsx
use es_ts_example.Common.{[], ◌∷◌}
use es_ts_example.Web.Html.{Html, markup, text, more}
use es_ts_example.Web.Html.Element.{named, element}
use es_ts_example.Web.Models.{
  ArticleBookmarkPresentation, article_saved, article_not_saved, ArticleRow,
  ArticleListPresentation, article_list_empty, article_list_populated, ArticlesPageModel,
}
use es_ts_example.Web.Views.{
  is, one, each, alert_view, html_document_view, post_form_view, submit_button_view,
}

unfoldable pub bookmark_status_view : ArticleBookmarkPresentation → Html
bookmark_status_view (article_saved status_text) =
    element (named "span")
      (is "className" "badge badge-primary badge-outline" ∷ is "data-role" "bookmark-status" ∷ [])
      (one (text status_text))
bookmark_status_view (article_not_saved status_text) =
    element (named "span")
      (is "className" "badge badge-ghost" ∷ is "data-role" "bookmark-status" ∷ [])
      (one (text status_text))

unfoldable pub article_row_view : ArticleRow → Html
article_row_view row =
    element (named "li")
      (is "className"
          "group grid gap-5 border-t border-base-300 py-6 sm:grid-cols-[4rem_1fr_auto] sm:items-center"
        ∷ is "data-article-id" row.article_id
        ∷ [])
      (more
        (markup (
          element (named "span")
            (is "className" "font-mono text-xs tracking-[0.24em] text-base-content/40" ∷ [])
            (one (text row.index_text))))
        (more
          (markup (
            element (named "section") (is "className" "grid gap-2" ∷ []) (
              more
                (markup (
                  element (named "h2")
                    (is "className"
                        "font-serif text-2xl font-semibold leading-tight text-base-content"
                      ∷ [])
                    (one (text row.title))))
                (one (
                  markup (
                    element (named "div") (is "className" "flex flex-wrap items-center gap-3" ∷ [])
                      (more (markup (bookmark_status_view row.bookmark)) (
                        one (
                          markup (
                            element (named "span")
                              (is "className" "font-mono text-xs text-base-content/45" ∷ [])
                              (one (text row.article_id))))))))))))
          (one (markup (post_form_view row.form (submit_button_view row.button))))))

unfoldable pub article_list_view : ArticleListPresentation → Html
article_list_view (article_list_empty message) =
    element (named "p")
      (is "className" "border-t border-base-300 py-8 text-base-content/60"
        ∷ is "data-role" "article-list-empty"
        ∷ [])
      (one (text message))
article_list_view (article_list_populated row rows) =
    element (named "ol") (is "className" "grid" ∷ is "data-role" "article-list" ∷ [])
      (each article_row_view (row ∷ rows))

unfoldable pub articles_page_view : ArticlesPageModel → Html
articles_page_view model = html_document_view model.document (
    element (named "main")
      (is "className"
          "mx-auto grid min-h-screen w-full max-w-4xl content-start gap-10 px-6 py-12 sm:px-10 sm:py-16"
        ∷ is "data-component" "ArticlesPage"
        ∷ [])
      (more
        (markup (
          element (named "header") (is "className" "grid max-w-2xl gap-4" ∷ []) (
            more
              (markup (
                element (named "p")
                  (is "className" "font-mono text-xs uppercase tracking-[0.3em] text-primary" ∷ [])
                  (one (text model.eyebrow))))
              (more
                (markup (
                  element (named "h1")
                    (is "className"
                        "font-serif text-5xl font-bold leading-none text-base-content sm:text-7xl"
                      ∷ [])
                    (one (text model.heading))))
                (one (
                  markup (
                    element (named "p")
                      (is "className" "max-w-xl text-lg leading-relaxed text-base-content/65" ∷ [])
                      (one (text model.intro)))))))))
        (more (markup (alert_view model.alert)) (one (markup (article_list_view model.list))))))
