-- ===== src/Application/User/Handler.antt =====
-- What a toggle does to the store (packages/application/src/user/handlers.ts), over any store that keeps
-- its contract.
use es_ts_example.Common.{◌≡◌, refl, not, [], ◌∷◌, String, ◌==◌, if◌then◌else◌}
use es_ts_example.Effect.{success}
use es_ts_example.EventSourcing.Aggregate.{record_event}
use es_ts_example.EventSourcing.Decision.{succeeded}
use es_ts_example.EventSourcing.EventStore.{EventStore}
use es_ts_example.EventSourcing.EventStore.Contract.{LogView, Implements, Streams}
use es_ts_example.EventSourcing.Repository.{load}
use es_ts_example.EventSourcing.Repository.Laws.{history, changed, load_lem, commit_accepted}
use es_ts_example.Domain.User.{UserEvent, UserAggregate, replay_user}
use es_ts_example.Domain.User.Bookmarks.{
  has_bookmark, toggle_event, toggle_article_bookmark_lem, toggle_flips,
}
use es_ts_example.Domain.User.Replay.{replay_user-eq-replayed}
use es_ts_example.Application.User.{UserCommand, decide, make_user_repository, user_command_handler}

module _ {S Log StoreError : Type 0} (store : EventStore S UserEvent StoreError)
    {view : LogView Log UserEvent} {Holds : S → Log → Type 0}
    (impl : Implements store view Holds) where
  -- The user of a command, as the log has it.
  abbrev pub addressed : Log → UserCommand → UserAggregate
  addressed log c = replay_user c.user_id (history (make_user_repository store) impl log c.user_id)

  -- The user with the toggle recorded.
  abbrev pub toggled : Log → UserCommand → UserAggregate
  toggled log c =
      changed (make_user_repository store) impl c.user_id
        (history (make_user_repository store) impl log c.user_id)
        (toggle_event c.article_id (addressed log c) ∷ [])

  module _ (s : S) (log : Log) (c : UserCommand) (holds : Holds s log) where
    load-addressed : load (make_user_repository store) c.user_id s ≡ (success (addressed log c), s)
    load-addressed =
        rw (
          load_lem (make_user_repository store) impl s log c.user_id holds,
          replay_user-eq-replayed,
        )

    decide-toggled : decide c (addressed log c) ≡ succeeded (toggled log c)
    unfolding decide replay_user record_event
    decide-toggled =
        rw (toggle_article_bookmark_lem {Rejection = ⊥} c.article_id (addressed log c)) refl

    -- In a store that reads and extends the user's stream faithfully, a toggle succeeds; the user that it
    -- returns, which is the one that loads afterwards, has the bookmark of the article turned round,
    -- and every other as it was.
    pub user_command_handler_toggles :
        {IsSound : Log → String → Type 0} (streams : Streams view IsSound) (a : String)
        → IsSound log c.user_id
        → let saved : UserAggregate = record (toggled log c) { pending_events = [] } in
          let outcome = user_command_handler store c s in
          let before = has_bookmark (addressed log c).state a in
          (outcome.0 ≡ success saved)
          × (load (make_user_repository store) c.user_id outcome.1 ≡ (success saved, outcome.1))
          × (has_bookmark saved.state a ≡ (if c.article_id == a then not before else before))
    unfolding user_command_handler decide
    user_command_handler_toggles streams a sound =
        let (returned, held, again) =
          commit_accepted (make_user_repository store) impl streams s log c.user_id holds sound
            {Rejection = ⊥} (toggle_event c.article_id (addressed log c) ∷ []) in
        rw (load-addressed, decide-toggled)
          (
            returned,
            again,
            toggle_flips {Rejection = ⊥} c.article_id (addressed log c) (toggled log c) a
                decide-toggled,
          )
