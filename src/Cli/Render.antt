-- ===== src/Cli/Render.antt =====
-- The texts that packages/cli/src/index.ts prints.
use Prim.Native.String.{String, ◌++◌}
use es_ts_example.Common.{List, [], ◌∷◌, map, length, if◌then◌else◌}
use es_ts_example.Common.Decimal.{show}
use es_ts_example.Application.Counter.{
  CounterSummary, active_counter_summary, disabled_counter_summary, CounterCommandReceipt,
}
use es_ts_example.Application.User.{ArticleRead, UserBookmarkReceipt}

abbrev pub usage_lines : List String
usage_lines =
    "Usage: counter <command> [counterId]" ∷ "" ∷ "Commands:"
    ∷ "  create <counterId>     Start a new counter at zero"
    ∷ "  increment <counterId>  Add one to a counter"
    ∷ "  decrement <counterId>  Subtract one from a counter"
    ∷ "  disable <counterId>    Retire a counter"
    ∷ "  list                   Show every counter rebuilt from its events"
    ∷ "  bookmark <userId> <articleId>  Toggle an article bookmark"
    ∷ "  articles <userId>              List articles with bookmark state" ∷ []

-- `Arr.join`
unfoldable pub join : String → List String → String
join separator [] = ""
join separator (line ∷ []) = line
join separator (line ∷ other ∷ lines) = line ++ separator ++ join separator (other ∷ lines)

unfoldable pub usage : String
unfolding join
usage = join "\n" usage_lines

unfoldable pub render_counter : CounterSummary → String
unfolding show
render_counter (disabled_counter_summary i value version) =
    "#" ++ i ++ " value=" ++ show value ++ " status=" ++ "disabled" ++ " version=" ++ show version
render_counter (active_counter_summary i value version) =
    "#" ++ i ++ " value=" ++ show value ++ " status=" ++ "active" ++ " version=" ++ show version

unfoldable pub render_receipt : CounterCommandReceipt → String
unfolding show
render_receipt receipt = "Applied #" ++ receipt.counter_id ++ " version=" ++ show receipt.version

unfoldable pub render_list : List CounterSummary → List String
unfolding render_counter
render_list [] = "No counters yet." ∷ []
render_list (counter ∷ counters) = "Counters:" ∷ map render_counter (counter ∷ counters)

unfoldable pub render_article : ArticleRead → String
render_article article =
    "#"
    ++ article.article_id
    ++ " \""
    ++ article.title
    ++ "\" "
    ++ (if article.bookmarked then "[bookmarked]" else "[ ]")

unfoldable pub render_article_list : List ArticleRead → List String
unfolding render_article
render_article_list [] = "No articles yet." ∷ []
render_article_list (article ∷ articles) = "Articles:" ∷ map render_article (article ∷ articles)

unfoldable pub render_bookmark_receipt : UserBookmarkReceipt → String
unfolding show
render_bookmark_receipt receipt =
    "Toggled bookmarks for "
    ++ receipt.user_id
    ++ " ("
    ++ show (length receipt.bookmarked_article_ids)
    ++ ")"
