-- ===== src/Domain/User/Replay.antt =====
-- The aggregate of packages/domain/src/user/Aggregate.ts is the generic one, at the user's reducer.
use es_ts_example.Common.{◌≡◌, List, String}
use es_ts_example.EventSourcing.Aggregate.Replay.{replayed, replay_aggregate-eq-replayed}
use es_ts_example.Domain.User.{
  UserEvent, initial_user_state, apply_user_event, replay_user, user_state_from,
}

pub replay_user-eq-replayed :
    (user_id : String) (events : List UserEvent)
    → replay_user user_id events ≡ replayed user_id initial_user_state apply_user_event events
unfolding replay_user
replay_user-eq-replayed user_id events =
    replay_aggregate-eq-replayed apply_user_event user_id initial_user_state events

pub state-replay_user :
    (user_id : String) (events : List UserEvent)
    → (replay_user user_id events).state ≡ user_state_from events
unfolding user_state_from
state-replay_user user_id events = rw replay_user-eq-replayed
