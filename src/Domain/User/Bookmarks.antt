-- ===== src/Domain/User/Bookmarks.antt =====
-- The bookmarks of a user (packages/domain/src/user/Reducer.ts and Decisions.ts).
use es_ts_example.Common.{
  ◌+◌, ◌≡◌, refl, ap, sym, ◌∙◌, List, [], ◌∷◌, ◌++◌, foldl, String, true, false, Bool, not, ◌&&◌,
  ◌==◌, eq_iff, arith, if◌then◌else◌, contains, contains-append, contains-filter, Distinct,
  Distinct-append, Distinct-filter,
}
use es_ts_example.EventSourcing.Decision.{succeeded, succeeded_inj}
use es_ts_example.Domain.User.{
  UserState, user_does_not_exist, existing_user, UserEvent, article_bookmarked,
  article_bookmark_removed, bookmarked_article_ids, apply_user_event, user_state_from,
  UserAggregate, is_existing_user, toggle_article_bookmark,
}

-- Whether a state holds a bookmark of an article.
abbrev pub has_bookmark : UserState → String → Bool
has_bookmark s a = contains (bookmarked_article_ids s) a

-- What one event makes of the bookmark of an article.
abbrev pub mark : Bool → UserEvent → String → Bool
mark b (article_bookmarked _ x) a = if x == a then true else b
mark b (article_bookmark_removed _ x) a = if x == a then false else b

-- Whether the last event of a log about an article is its bookmark: an account of the log that keeps
-- no list.
unfoldable pub marked : List UserEvent → String → Bool
marked log a = foldl (λ b e. mark b e a) false log

pub has_bookmark-apply :
    (s : UserState) (e : UserEvent) (a : String)
    → has_bookmark (apply_user_event s e) a ≡ mark (has_bookmark s a) e a
unfolding apply_user_event bookmarked_article_ids
has_bookmark-apply s (article_bookmarked u x) a =
    ground (arith, contains-append (bookmarked_article_ids s) x a, eq_iff x a)
has_bookmark-apply s (article_bookmark_removed u x) a =
    contains-filter (bookmarked_article_ids s) x a

fold-has_bookmark :
    (s : UserState) (log : List UserEvent) (a : String)
    → has_bookmark (foldl apply_user_event s log) a
      ≡ foldl (λ b e. mark b e a) (has_bookmark s a) log
fold-has_bookmark s [] a = refl
fold-has_bookmark s (e ∷ es) a =
    fold-has_bookmark (apply_user_event s e) es a
    ∙ ap (λ b. foldl (λ c f. mark c f a) b es) (has_bookmark-apply s e a)

-- After any log of a user's events, an article is in the list of bookmarks exactly if the last event
-- about it is its bookmark.
pub has_bookmark-user_state_from :
    (log : List UserEvent) (a : String) → has_bookmark (user_state_from log) a ≡ marked log a
unfolding user_state_from marked bookmarked_article_ids contains
has_bookmark-user_state_from log a = fold-has_bookmark user_does_not_exist log a

apply-Distinct :
    (s : UserState) (e : UserEvent)
    → Distinct (bookmarked_article_ids s)
    → Distinct (bookmarked_article_ids (apply_user_event s e))
unfolding apply_user_event bookmarked_article_ids
apply-Distinct s (article_bookmarked u x) d =
    ground (arith, Distinct-append (bookmarked_article_ids s) x)
apply-Distinct s (article_bookmark_removed u x) d = Distinct-filter (bookmarked_article_ids s) x d

fold-Distinct :
    (s : UserState) (log : List UserEvent)
    → Distinct (bookmarked_article_ids s)
    → Distinct (bookmarked_article_ids (foldl apply_user_event s log))
fold-Distinct s [] d = d
fold-Distinct s (e ∷ es) d = fold-Distinct (apply_user_event s e) es (apply-Distinct s e d)

-- However often a log bookmarks an article, the list of bookmarks holds no id twice.
pub user_state_from-Distinct :
    (log : List UserEvent) → Distinct (bookmarked_article_ids (user_state_from log))
unfolding user_state_from bookmarked_article_ids
user_state_from-Distinct log = fold-Distinct user_does_not_exist log tt

is_existing_user-contains :
    (s : UserState) (a : String)
    → (is_existing_user s && contains (bookmarked_article_ids s) a) ≡ has_bookmark s a
unfolding is_existing_user bookmarked_article_ids contains
is_existing_user-contains user_does_not_exist a = refl
is_existing_user-contains (existing_user u xs) a = refl

-- The event that a toggle records.
abbrev pub toggle_event : String → UserAggregate → UserEvent
toggle_event article_id aggregate =
    if has_bookmark aggregate.state article_id
    then article_bookmark_removed aggregate.aggregate_id article_id
    else article_bookmarked aggregate.aggregate_id article_id

-- A toggle is always accepted: it records one new event, which is pending behind the others.
pub toggle_article_bookmark_lem :
    {Rejection : Type 0} (article_id : String) (aggregate : UserAggregate)
    → toggle_article_bookmark {Rejection = Rejection} article_id aggregate
      ≡ succeeded (record aggregate {
        state = apply_user_event aggregate.state (toggle_event article_id aggregate);
        version = aggregate.version + 1;
        pending_events = aggregate.pending_events ++ toggle_event article_id aggregate ∷ [];
      })
unfolding toggle_article_bookmark
toggle_article_bookmark_lem article_id aggregate =
    rw (is_existing_user-contains aggregate.state article_id)

flipped :
    (b c : Bool) (s : UserState) (u article_id a : String)
    → has_bookmark s article_id ≡ b
    → has_bookmark s a ≡ c
    → mark c
        (if b then article_bookmark_removed u article_id else article_bookmarked u article_id)
        a
      ≡ (if article_id == a then not c else c)
flipped true c s u article_id a h k = ground (arith, eq_iff article_id a)
flipped false c s u article_id a h k = ground (arith, eq_iff article_id a)

-- An accepted toggle turns the bookmark of its article round, whether the user existed or not, and
-- leaves every other article as it was.
pub toggle_flips :
    {Rejection : Type 0} (article_id : String) (aggregate after : UserAggregate) (a : String)
    → toggle_article_bookmark {Rejection = Rejection} article_id aggregate ≡ succeeded after
    → has_bookmark after.state a ≡ (
        if article_id == a
        then not (has_bookmark aggregate.state a)
        else has_bookmark aggregate.state a)
toggle_flips article_id aggregate after a h =
    let same = succeeded_inj (sym h ∙ toggle_article_bookmark_lem article_id aggregate) in
    rw same (
      rw has_bookmark-apply
        (flipped _ _ aggregate.state aggregate.aggregate_id article_id a refl refl))

-- Toggling an article twice gives the same bookmarks as before, of every article.
pub toggle_twice :
    {Rejection : Type 0} (article_id : String) (aggregate once twice : UserAggregate) (a : String)
    → toggle_article_bookmark {Rejection = Rejection} article_id aggregate ≡ succeeded once
    → toggle_article_bookmark {Rejection = Rejection} article_id once ≡ succeeded twice
    → has_bookmark twice.state a ≡ has_bookmark aggregate.state a
toggle_twice {Rejection} article_id aggregate once twice a h k = ground (
  arith,
  toggle_flips {Rejection = Rejection} article_id aggregate once a h,
  toggle_flips {Rejection = Rejection} article_id once twice a k,
)
