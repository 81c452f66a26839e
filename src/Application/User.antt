-- ===== src/Application/User.antt =====
-- packages/application/src/user: commands.ts, repository.ts, handlers.ts, readModels.ts,
-- articleCatalog.ts and queries/listArticles.ts.
pub mod Keys
pub mod ReadModel
pub mod Handler
use mathlib.Core.Option.{get_or}
use es_ts_example.Common.{
  Bool, true, false, Option, none, some, List, [], ◌∷◌, String, ◌==◌, map, if◌then◌else◌,
}
use es_ts_example.Common.{rec_get, rec_set}
use es_ts_example.Effect
use es_ts_example.Effect.{Effect, ◌>>=◌, map_error}
use es_ts_example.EventSourcing.Decision.{Decision}
use es_ts_example.EventSourcing.EventStore.{EventStore, store_error}
use es_ts_example.EventSourcing.EventStore.Contract.{everything, events_of}
use es_ts_example.EventSourcing.Repository.{
  RepositoryOptions, CommitError, not_appended, load, commit,
}
use es_ts_example.EventSourcing.Projection.{Projection, make_projection, replay_projection}
use es_ts_example.Domain.User.{
  UserState, user_does_not_exist, existing_user, initial_user_state, UserEvent, article_bookmarked,
  article_bookmark_removed, apply_user_event, UserAggregate, toggle_article_bookmark,
}
use es_ts_example.Application.User.Keys.{bookmark_projection_key}

-- `ToggleArticleBookmarkCommand`, the only command.
pub record UserCommand : Type 0 where
  pub user_id : String
  pub article_id : String

-- `UserDecision<never>`
unfoldable pub decide : UserCommand → UserAggregate → Decision UserAggregate ⊥
unfolding toggle_article_bookmark
decide command aggregate = toggle_article_bookmark command.article_id aggregate

module _ {S StoreError : Type 0} (store : EventStore S UserEvent StoreError) where
  abbrev pub make_user_repository : RepositoryOptions S UserState UserEvent StoreError
  make_user_repository = record {
    store = store;
    initial_state = initial_user_state;
    reducer = apply_user_event;
    stream_name = none;
  }

  unfoldable pub user_command_handler :
      UserCommand → Effect S (CommitError ⊥ StoreError) UserAggregate
  user_command_handler command = do
    user ← map_error (λ e. not_appended (store_error e)) (load make_user_repository command.user_id)
    commit make_user_repository (decide command user)

pub record ArticleCatalogEntry : Type 0 where
  pub article_id : String
  pub title : String

abbrev pub article_catalog : List ArticleCatalogEntry
article_catalog =
    record { article_id = "events-over-state"; title = "Events Over State" }
    ∷ record { article_id = "effective-boundaries"; title = "Effective Boundaries" }
    ∷ record { article_id = "projections-as-products"; title = "Projections Are Products" }
    ∷ record { article_id = "small-batches"; title = "Small Batches, Fast Feedback" }
    ∷ record { article_id = "boring-software"; title = "The Value of Boring Software" }
    ∷ []

pub record ArticleRead : Type 0 where
  pub article_id : String
  pub title : String
  pub bookmarked : Bool

pub record UserBookmarkReceipt : Type 0 where
  pub user_id : String
  pub bookmarked_article_ids : List String

unfoldable pub user_bookmark_receipt_from_aggregate : UserAggregate → UserBookmarkReceipt
user_bookmark_receipt_from_aggregate aggregate = elim aggregate.state [
  | user_does_not_exist ↦ record { user_id = aggregate.aggregate_id; bookmarked_article_ids = [] }
  | existing_user u ids ↦ record { user_id = u; bookmarked_article_ids = ids }
]

pub record BookmarkProjectionState : Type 0 where
  pub bookmarks : List (String × Bool)

abbrev pub initial_bookmark_projection_state : BookmarkProjectionState
initial_bookmark_projection_state = record { bookmarks = [] }

unfoldable pub is_article_bookmarked : BookmarkProjectionState → String → String → Bool
unfolding rec_get
is_article_bookmarked state user_id article_id =
    get_or (rec_get state.bookmarks (bookmark_projection_key user_id article_id)) false

unfoldable pub articles_with_bookmarks : BookmarkProjectionState → String → List ArticleRead
articles_with_bookmarks state user_id =
    map
      (λ article. record {
        article_id = article.article_id;
        title = article.title;
        bookmarked = is_article_bookmarked state user_id article.article_id;
      })
      article_catalog

unfoldable pub apply_bookmark_event : BookmarkProjectionState → UserEvent → BookmarkProjectionState
unfolding rec_set
apply_bookmark_event state (article_bookmarked u a) = record {
  bookmarks = rec_set state.bookmarks (bookmark_projection_key u a) true;
}
apply_bookmark_event state (article_bookmark_removed u a) = record {
  bookmarks = rec_set state.bookmarks (bookmark_projection_key u a) false;
}

-- The source events are all user events: `Schema.is(Domain.UserEvent)` holds of each.
unfoldable pub bookmark_projection : Projection BookmarkProjectionState UserEvent UserEvent
unfolding make_projection
bookmark_projection =
    make_projection "user-bookmarks" initial_bookmark_projection_state apply_bookmark_event some

module _ {S StoreError : Type 0} (store : EventStore S UserEvent StoreError) where
  -- `makeListArticlesHandler`, on the user of the query.
  unfoldable pub list_articles_handler : String → Effect S StoreError (List ArticleRead)
  list_articles_handler user_id =
      Effect.map
        (λ records.
          articles_with_bookmarks (replay_projection bookmark_projection (events_of records))
            user_id)
        (store.fetch_all everything)
