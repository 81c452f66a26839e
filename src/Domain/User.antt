-- ===== src/Domain/User.antt =====
-- packages/domain/src/user: State.ts, Events.ts, Reducer.ts, Aggregate.ts and Decisions.ts.
pub mod Bookmarks
pub mod Replay
use es_ts_example.Common.{
  List, [], ◌∷◌, ◌++◌, String, Bool, true, false, not, ◌&&◌, ◌==◌, filter, contains, if◌then◌else◌,
}
use es_ts_example.EventSourcing.Aggregate.{
  Aggregate, AggregateDefinition, define_aggregate, replay_into,
}
use es_ts_example.EventSourcing.Decision.{Decision, accept}

pub data UserState : Type 0 where
  user_does_not_exist : UserState
  existing_user : String → List String → UserState

abbrev pub initial_user_state : UserState
initial_user_state = user_does_not_exist

-- The user and the article.
pub data UserEvent : Type 0 where
  article_bookmarked article_bookmark_removed : String → String → UserEvent

-- `bookmarkedArticleIds` of Reducer.ts
unfoldable pub bookmarked_article_ids : UserState → List String
bookmarked_article_ids user_does_not_exist = []
bookmarked_article_ids (existing_user _ ids) = ids

unfoldable pub apply_user_event : UserState → UserEvent → UserState
unfolding bookmarked_article_ids contains
apply_user_event state (article_bookmarked user_id article_id) =
    let article_ids = bookmarked_article_ids state in
    existing_user user_id
      (if contains article_ids article_id then article_ids else article_ids ++ article_id ∷ [])
apply_user_event state (article_bookmark_removed user_id article_id) =
    existing_user user_id (filter (λ a. not (a == article_id)) (bookmarked_article_ids state))

unfoldable pub user_state_from : List UserEvent → UserState
unfolding replay_into apply_user_event
user_state_from = replay_into initial_user_state apply_user_event

abbrev pub UserAggregate : Type 0
UserAggregate = Aggregate UserState UserEvent String

unfoldable pub user_aggregate : AggregateDefinition UserState UserEvent String
unfolding define_aggregate apply_user_event
user_aggregate = define_aggregate initial_user_state apply_user_event

unfoldable pub new_user : String → UserAggregate
unfolding user_aggregate
new_user user_id = user_aggregate.empty user_id

unfoldable pub record_user_event : UserEvent → UserAggregate → UserAggregate
unfolding user_aggregate
record_user_event = user_aggregate.record_event

unfoldable pub replay_user : String → List UserEvent → UserAggregate
unfolding user_aggregate
replay_user user_id events = user_aggregate.replay user_id events

-- `Schema.is(State.ExistingUser)`
unfoldable pub is_existing_user : UserState → Bool
is_existing_user user_does_not_exist = false
is_existing_user (existing_user _ _) = true

-- `toggleArticleBookmark` never rejects, whatever the type of rejections.
module _ {Rejection : Type 0} where
  unfoldable pub toggle_article_bookmark : String → UserAggregate → Decision UserAggregate Rejection
  unfolding is_existing_user record_user_event bookmarked_article_ids contains
  toggle_article_bookmark article_id aggregate =
      let is_bookmarked =
        is_existing_user aggregate.state
        && contains (bookmarked_article_ids aggregate.state) article_id in
      let event =
        if is_bookmarked
        then article_bookmark_removed aggregate.aggregate_id article_id
        else article_bookmarked aggregate.aggregate_id article_id in
      accept (record_user_event event aggregate)
