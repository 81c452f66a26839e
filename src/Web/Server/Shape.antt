-- ===== src/Web/Server/Shape.antt =====
-- What the stored data can do to the markup of the pages that packages/web/src/server.ts answers with.
use es_ts_example.Common.{
  ◌≡◌, refl, ap, sym, ◌∙◌, Bool, Option, List, [], ◌∷◌, String, ℕ, ◌+◌, map, map_index, length,
  arith,
}
use es_ts_example.Application.Counter.{
  CounterSummary, active_counter_summary, disabled_counter_summary,
}
use es_ts_example.Application.User.{ArticleRead}
use es_ts_example.Web.Models.{CounterRow}
use es_ts_example.Web.Factories.CounterPage.{CounterPageError, make_counter_page_model}
use es_ts_example.Web.Factories.CounterPage as Counters
use es_ts_example.Web.Factories.ArticlesPage.{make_articles_page_model}
use es_ts_example.Web.Factories.ArticlesPage as Articles
use es_ts_example.Web.Views.Blank.{
  blank_counter_page, blank_article_row, blank_article_list, blank_articles_page, blank_counter_row,
  blank_counter_list,
}
use es_ts_example.Web.Views.Markup.{skeleton}
use es_ts_example.Web.Views.CounterPage.{counter_page_view}
use es_ts_example.Web.Views.ArticlesPage.{articles_page_view}
use es_ts_example.Web.Views.Pages.{
  counter_page_view-blank_counter_page, articles_page_view-blank_articles_page,
}

-- Every row has the three buttons, and texts.
abbrev blank_row : CounterRow
blank_row = blank_counter_row (Counters.make_row (active_counter_summary "" 0 0))

make_row-blank :
    (summary : CounterSummary) → blank_counter_row (Counters.make_row summary) ≡ blank_row
unfolding Counters.make_row
make_row-blank (active_counter_summary i value version) = refl
make_row-blank (disabled_counter_summary i value version) = refl

rows-blank :
    (xs ys : List CounterSummary)
    → length xs ≡ length ys
    → map blank_counter_row (map Counters.make_row xs)
      ≡ map blank_counter_row (map Counters.make_row ys)
rows-blank [] [] h = refl
rows-blank (x ∷ xs) (y ∷ ys) h =
    rw (make_row-blank x, make_row-blank y, rows-blank xs ys (omega (arith, h)))
rows-blank [] (y ∷ ys) h = absurd (omega (arith, h))
rows-blank (x ∷ xs) [] h = absurd (omega (arith, h))

list-blank :
    (xs ys : List CounterSummary)
    → length xs ≡ length ys
    → blank_counter_list (Counters.make_list xs) ≡ blank_counter_list (Counters.make_list ys)
unfolding Counters.make_list
list-blank [] [] h = refl
list-blank (x ∷ xs) (y ∷ ys) h =
    rw (make_row-blank x, make_row-blank y, rows-blank xs ys (omega (arith, h)))
list-blank [] (y ∷ ys) h = absurd (omega (arith, h))
list-blank (x ∷ xs) [] h = absurd (omega (arith, h))

page-blank :
    (xs ys : List CounterSummary) (error : Option CounterPageError) (i j : Option String)
    → length xs ≡ length ys
    → blank_counter_page (make_counter_page_model xs error i)
      ≡ blank_counter_page (make_counter_page_model ys error j)
unfolding make_counter_page_model
page-blank xs ys error i j h = rw (list-blank xs ys h)

-- Two counter pages with the same error and as many counters have the same markup characters in the
-- same order: neither the counters' ids and values nor the id that the query carries adds or removes one.
pub counter_page_shape :
    (xs ys : List CounterSummary) (error : Option CounterPageError) (i j : Option String)
    → length xs ≡ length ys
    → skeleton (counter_page_view (make_counter_page_model xs error i)).value
      ≡ skeleton (counter_page_view (make_counter_page_model ys error j)).value
counter_page_shape xs ys error i j h =
    counter_page_view-blank_counter_page (make_counter_page_model xs error i)
    ∙ ap (λ model. skeleton (counter_page_view model).value) (page-blank xs ys error i j h)
    ∙ sym (counter_page_view-blank_counter_page (make_counter_page_model ys error j))

-- An articles page without its texts still tells which articles are bookmarked.
abbrev flags : List ArticleRead → List Bool
flags = map (λ article. article.bookmarked)

article_row-blank :
    (m n : ℕ) (x y : ArticleRead)
    → x.bookmarked ≡ y.bookmarked
    → blank_article_row (Articles.make_row m x) ≡ blank_article_row (Articles.make_row n y)
unfolding Articles.make_row
article_row-blank m n x y h = rw h

articles-blank :
    (m n : ℕ) (xs ys : List ArticleRead)
    → flags xs ≡ flags ys
    → map blank_article_row (map_index Articles.make_row m xs)
      ≡ map blank_article_row (map_index Articles.make_row n ys)
articles-blank m n [] [] h = refl
articles-blank m n (x ∷ xs) (y ∷ ys) h =
    rw (article_row-blank m n x y cc, articles-blank (m + 1) (n + 1) xs ys cc)
articles-blank m n [] (y ∷ ys) h = cc
articles-blank m n (x ∷ xs) [] h = cc

article_list-blank :
    (xs ys : List ArticleRead)
    → flags xs ≡ flags ys
    → blank_article_list (Articles.make_list xs) ≡ blank_article_list (Articles.make_list ys)
unfolding Articles.make_list
article_list-blank [] [] h = refl
article_list-blank (x ∷ xs) (y ∷ ys) h =
    rw (article_row-blank 0 0 x y cc, articles-blank 1 1 xs ys cc)
article_list-blank [] (y ∷ ys) h = cc
article_list-blank (x ∷ xs) [] h = cc

articles_page-blank :
    (xs ys : List ArticleRead) (error : Bool)
    → flags xs ≡ flags ys
    → blank_articles_page (make_articles_page_model xs error)
      ≡ blank_articles_page (make_articles_page_model ys error)
unfolding make_articles_page_model
articles_page-blank xs ys error h = rw (article_list-blank xs ys h)

-- Two articles pages with the same error and the same bookmarks at the same places have the same markup
-- characters in the same order, whatever the ids and titles of the articles.
pub articles_page_shape :
    (xs ys : List ArticleRead) (error : Bool)
    → map (λ article. article.bookmarked) xs ≡ map (λ article. article.bookmarked) ys
    → skeleton (articles_page_view (make_articles_page_model xs error)).value
      ≡ skeleton (articles_page_view (make_articles_page_model ys error)).value
articles_page_shape xs ys error h =
    articles_page_view-blank_articles_page (make_articles_page_model xs error)
    ∙ ap (λ model. skeleton (articles_page_view model).value) (articles_page-blank xs ys error h)
    ∙ sym (articles_page_view-blank_articles_page (make_articles_page_model ys error))
