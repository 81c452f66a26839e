-- ===== src/Web/Factories/ArticlesPage.antt =====
-- packages/web/src/factories/pages/ArticlesPage.factory.ts
use Prim.Native.String.{◌++◌}
use es_ts_example.Common.{
  ℕ, ◌+◌, Bool, true, false, none, some, List, [], ◌∷◌, map_index, if◌then◌else◌,
}
use es_ts_example.Common.Decimal.{show}
use es_ts_example.Application.User.{ArticleRead}
use es_ts_example.Web.Models.{
  primary, secondary, ArticleBookmarkPresentation, article_saved, article_not_saved, ArticleRow,
  ArticleListPresentation, article_list_empty, article_list_populated, ArticlesPageModel,
}
use es_ts_example.Web.Messages.{web_i18n}
use es_ts_example.Web.Factories.{
  make_alert_model, make_html_document_model, hidden_field, make_post_form_model,
  make_submit_button_model,
}

unfoldable pub make_bookmark_presentation : Bool → ArticleBookmarkPresentation
make_bookmark_presentation true = article_saved (web_i18n "articles.bookmark.saved")
make_bookmark_presentation false = article_not_saved (web_i18n "articles.bookmark.notSaved")

unfoldable pub make_row : ℕ → ArticleRead → ArticleRow
unfolding make_bookmark_presentation make_submit_button_model make_post_form_model show
make_row index article = record {
  article_id = article.article_id;
  bookmark = make_bookmark_presentation article.bookmarked;
  button =
      make_submit_button_model
        (web_i18n
          (if article.bookmarked then "articles.action.remove" else "articles.action.bookmark"))
        (if article.bookmarked then secondary else primary);
  form =
      make_post_form_model "/actions/articles/toggle-bookmark"
        (hidden_field "articleId" article.article_id ∷ []);
  index_text = "0" ++ show (index + 1);
  title = article.title;
}

unfoldable pub make_list : List ArticleRead → ArticleListPresentation
unfolding make_row
make_list [] = article_list_empty (web_i18n "articles.list.empty")
make_list (article ∷ articles) =
    article_list_populated (make_row 0 article) (map_index make_row 1 articles)

-- The second argument tells whether the error is "command-failed".
unfoldable pub make_articles_page_model : List ArticleRead → Bool → ArticlesPageModel
unfolding make_alert_model make_html_document_model make_list
make_articles_page_model articles command_failed = record {
  alert =
      make_alert_model
        (if command_failed then some (web_i18n "articles.error.commandFailed") else none);
  document = make_html_document_model (web_i18n "articles.documentTitle");
  eyebrow = web_i18n "articles.eyebrow";
  heading = web_i18n "articles.heading";
  intro = web_i18n "articles.intro";
  list = make_list articles;
}
