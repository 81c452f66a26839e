-- ===== src/Application/User/ReadModel.antt =====
-- The list of articles of a user (packages/application/src/user/readModels.ts and queries/listArticles.ts)
-- against the user's own events.
use es_ts_example.Common.{
  ◌≡◌, refl, sym, ◌∙◌, true, false, Bool-cases, inl, inr, List, [], ◌∷◌, foldl, map, String, ◌==◌,
  arith, if◌then◌else◌, filter,
}
use es_ts_example.Common.{rec_get-rec_set}
use es_ts_example.Effect.{success}
use es_ts_example.EventSourcing.EventStore.{EventStore}
use es_ts_example.EventSourcing.EventStore.Contract.{LogView, Implements, everything, events_of}
use es_ts_example.EventSourcing.Projection.{project, replay_projection}
use es_ts_example.Domain.User.{
  UserEvent, article_bookmarked, article_bookmark_removed, user_state_from,
}
use es_ts_example.Domain.User.Bookmarks.{has_bookmark, mark, marked, has_bookmark-user_state_from}
use es_ts_example.Application.User.{
  ArticleRead, article_catalog, BookmarkProjectionState, initial_bookmark_projection_state,
  is_article_bookmarked, articles_with_bookmarks, apply_bookmark_event, bookmark_projection,
  list_articles_handler,
}
use es_ts_example.Application.User.Keys.{bookmark_projection_key, bookmark_projection_key_eq}

abbrev pub user_of : UserEvent → String
user_of (article_bookmarked u _) = u
user_of (article_bookmark_removed u _) = u

-- The events of a log about a user.
abbrev pub own_events : List UserEvent → String → List UserEvent
own_events log u = filter (λ e. user_of e == u) log

is_article_bookmarked-apply :
    (s : BookmarkProjectionState) (e : UserEvent) (u a : String)
    → is_article_bookmarked (apply_bookmark_event s e) u a ≡ (
        if user_of e == u
        then mark (is_article_bookmarked s u a) e a
        else is_article_bookmarked s u a)
unfolding is_article_bookmarked apply_bookmark_event
is_article_bookmarked-apply s (article_bookmarked v x) u a =
    rw
      (
        rec_get-rec_set s.bookmarks (bookmark_projection_key v x) (bookmark_projection_key u a)
            true,
        bookmark_projection_key_eq v u x a,
      )
      (ground arith)
is_article_bookmarked-apply s (article_bookmark_removed v x) u a =
    rw
      (
        rec_get-rec_set s.bookmarks (bookmark_projection_key v x) (bookmark_projection_key u a)
            false,
        bookmark_projection_key_eq v u x a,
      )
      (ground arith)

fold-is_article_bookmarked :
    (s : BookmarkProjectionState) (log : List UserEvent) (u a : String)
    → is_article_bookmarked (foldl (project bookmark_projection) s log) u a
      ≡ foldl (λ b e. mark b e a) (is_article_bookmarked s u a) (own_events log u)
unfolding project bookmark_projection
fold-is_article_bookmarked s [] u a = refl
fold-is_article_bookmarked s (e ∷ log) u a = elim (Bool-cases (user_of e == u)) [
  | inl own ↦
      fold-is_article_bookmarked (apply_bookmark_event s e) log u a
      ∙ rw (is_article_bookmarked-apply s e u a, own)
  | inr other ↦
      fold-is_article_bookmarked (apply_bookmark_event s e) log u a
      ∙ rw (is_article_bookmarked-apply s e u a, other)
]

-- The one projection of all users' events tells of each user and article what the user aggregate,
-- replayed from the user's own events, tells.
pub is_article_bookmarked-replay_projection :
    (log : List UserEvent) (u a : String)
    → is_article_bookmarked (replay_projection bookmark_projection log) u a
      ≡ has_bookmark (user_state_from (own_events log u)) a
unfolding replay_projection bookmark_projection marked is_article_bookmarked
is_article_bookmarked-replay_projection log u a =
    fold-is_article_bookmarked initial_bookmark_projection_state log u a
    ∙ sym (has_bookmark-user_state_from (own_events log u) a)

-- The catalog, with the bookmarks of a user's own events.
abbrev pub catalog_for : List UserEvent → String → List ArticleRead
catalog_for log u =
    map
      (λ article. record {
        article_id = article.article_id;
        title = article.title;
        bookmarked = has_bookmark (user_state_from (own_events log u)) article.article_id;
      })
      article_catalog

module _ {S Log StoreError : Type 0} (store : EventStore S UserEvent StoreError)
    {view : LogView Log UserEvent} {Holds : S → Log → Type 0}
    (impl : Implements store view Holds) where
  -- Listing the articles for a user gives the catalog in its order, each article with the bookmark
  -- that the user's own events left; and it changes nothing.
  pub list_articles_handler_lem :
      (s : S) (log : Log) (u : String)
      → Holds s log
      → list_articles_handler store u s
        ≡ (success (catalog_for (events_of (view.read_all log everything)) u), s)
  unfolding list_articles_handler articles_with_bookmarks
  list_articles_handler_lem s log u h =
      let told =
        is_article_bookmarked-replay_projection (events_of (view.read_all log everything)) u in
      rw (impl.fetch_all_reads s log everything h) (simp told)
