-- ===== src/Tests/Domain.antt =====
-- The theorems about packages/domain/src, on concrete logs.
use es_ts_example.Common.{◌≡◌, refl, not, false, List, [], ◌∷◌}
use es_ts_example.Domain.Counter.{
  CounterEvent, counter_created, counter_incremented, counter_disabled, counter_state_from,
}
use es_ts_example.Domain.Counter.Bounds.{IsValid, counter_state_from-IsValid}
use es_ts_example.Domain.User.{
  UserEvent, article_bookmarked, article_bookmark_removed, user_state_from, UserAggregate,
  replay_user, toggle_article_bookmark, record_user_event,
}
use es_ts_example.Domain.User.Bookmarks.{
  has_bookmark, marked, has_bookmark-user_state_from, toggle_flips,
}

abbrev retired_log : List CounterEvent
retired_log = counter_created "c" ∷ counter_incremented "c" ∷ counter_disabled "c" ∷ []

counter_state_from-IsValid_example : IsValid (counter_state_from retired_log)
counter_state_from-IsValid_example = counter_state_from-IsValid retired_log

abbrev reading_log : List UserEvent
reading_log =
    article_bookmarked "u" "x" ∷ article_bookmarked "u" "y" ∷ article_bookmark_removed "u" "x" ∷ []

has_bookmark-user_state_from_example :
    has_bookmark (user_state_from reading_log) "x" ≡ marked reading_log "x"
has_bookmark-user_state_from_example = has_bookmark-user_state_from reading_log "x"

marked_test : marked reading_log "x" ≡ false
unfolding marked
marked_test = refl

abbrev reader : UserAggregate
reader = replay_user "u" reading_log

abbrev reader_once : UserAggregate
reader_once = record_user_event (article_bookmarked "u" "x") reader

toggle_flips_example : has_bookmark reader_once.state "x" ≡ not (has_bookmark reader.state "x")
unfolding replay_user toggle_article_bookmark
toggle_flips_example = toggle_flips {Rejection = ⊥} "x" reader reader_once "x" refl
