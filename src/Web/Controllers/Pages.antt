-- ===== src/Web/Controllers/Pages.antt =====
-- The controllers of packages/web/src/controllers that make pages: getCounterPage and getArticlesPage.
use es_ts_example.Common.{Bool, false, Option, none, some, List, String, ◌==◌, if◌then◌else◌}
use es_ts_example.Effect.{Effect, succeed, ◌>>=◌}
use es_ts_example.Application.Counter.{CounterSummary}
use es_ts_example.Application.User.{ArticleRead}
use es_ts_example.Web.Models.{CounterPageModel, ArticlesPageModel}
use es_ts_example.Web.Factories.CounterPage.{
  CounterPageError, missing_id, command_failed, make_counter_page_model,
}
use es_ts_example.Web.Factories.ArticlesPage.{make_articles_page_model}

pub record GetCounterPageInput : Type 0 where
  pub error : Option String
  pub new_counter_id : Option String

unfoldable pub as_page_error : Option String → Option CounterPageError
as_page_error none = none
as_page_error (some value) =
    if value == "missing-id"
    then some missing_id
    else if value == "command-failed"
    then some command_failed
    else none

abbrev pub logged_in_user_id : String
logged_in_user_id = "FooBar"

-- `input.error === "command-failed"`
unfoldable pub is_command_failed : Option String → Bool
is_command_failed none = false
is_command_failed (some error) = error == "command-failed"

module _ {S E : Type 0} where
  -- The first argument is `queries.ListCounters({})`.
  unfoldable pub get_counter_page_controller :
      Effect S E (List CounterSummary) → GetCounterPageInput → Effect S E CounterPageModel
  get_counter_page_controller list_counters input = do
    counters ← list_counters
    succeed (make_counter_page_model counters (as_page_error input.error) input.new_counter_id)

  -- The first argument is `queries.ListArticles`, on the user of the query.
  unfoldable pub get_articles_page_controller :
      (String → Effect S E (List ArticleRead)) → Option String → Effect S E ArticlesPageModel
  get_articles_page_controller list_articles error = do
    articles ← list_articles logged_in_user_id
    succeed (make_articles_page_model articles (is_command_failed error))
