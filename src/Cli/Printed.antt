-- ===== src/Cli/Printed.antt =====
-- What packages/cli/src/index.ts is to print, written out.
use Prim.Native.String.{String, ◌++◌}
use es_ts_example.Common.{ℕ, ◌≡◌, refl, ap, Bool, true, false, List, [], ◌∷◌, map, if◌then◌else◌}
use es_ts_example.Common.Decimal.{show}
use es_ts_example.Application.Counter.{
  CounterSummary, active_counter_summary, disabled_counter_summary, CounterCommandReceipt,
}
use es_ts_example.Application.User.{ArticleRead}
use es_ts_example.Cli.Render.{
  render_counter, render_receipt, render_list, render_article, render_article_list,
}

abbrev status_text : Bool → String
status_text retired = if retired then "disabled" else "active"

abbrev counter_text : String → ℕ → Bool → ℕ → String
counter_text i value retired version =
    "#"
    ++ i
    ++ " value="
    ++ show value
    ++ " status="
    ++ status_text retired
    ++ " version="
    ++ show version

-- The line of a counter.
abbrev pub counter_line : CounterSummary → String
counter_line (active_counter_summary i value version) = counter_text i value false version
counter_line (disabled_counter_summary i value version) = counter_text i value true version

-- A heading, and a line for each counter; or that there are none.
abbrev pub counter_list : List CounterSummary → List String
counter_list [] = "No counters yet." ∷ []
counter_list (row ∷ rows) = "Counters:" ∷ counter_line row ∷ map counter_line rows

-- The line of an article.
abbrev pub article_line : ArticleRead → String
article_line article =
    "#"
    ++ article.article_id
    ++ " \""
    ++ article.title
    ++ "\" "
    ++ (if article.bookmarked then "[bookmarked]" else "[ ]")

-- A heading, and a line for each article; or that there are none.
abbrev pub article_list : List ArticleRead → List String
article_list [] = "No articles yet." ∷ []
article_list (article ∷ articles) = "Articles:" ∷ article_line article ∷ map article_line articles

-- The line of a command that was carried out.
abbrev pub receipt_line : String → ℕ → String
receipt_line i version = "Applied #" ++ i ++ " version=" ++ show version

render_counter_lem : (counter : CounterSummary) → render_counter counter ≡ counter_line counter
unfolding render_counter
render_counter_lem (active_counter_summary i value version) = refl
render_counter_lem (disabled_counter_summary i value version) = refl

pub render_list_lem : (rows : List CounterSummary) → render_list rows ≡ counter_list rows
unfolding render_list
render_list_lem [] = refl
render_list_lem (row ∷ rows) =
    ap (λ line. "Counters:" ∷ map line (row ∷ rows)) (λ i counter. render_counter_lem counter i)

pub render_article_list_lem :
    (articles : List ArticleRead) → render_article_list articles ≡ article_list articles
unfolding render_article_list render_article
render_article_list_lem [] = refl
render_article_list_lem (article ∷ articles) = refl

pub render_receipt_lem :
    (receipt : CounterCommandReceipt)
    → render_receipt receipt ≡ receipt_line receipt.counter_id receipt.version
unfolding render_receipt
render_receipt_lem receipt = refl
