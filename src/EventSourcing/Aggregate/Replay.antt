-- ===== src/EventSourcing/Aggregate/Replay.antt =====
-- What replaying and recording make of a log (packages/event-sourcing/src/aggregate.ts).
use mathlib.Core.List.{foldl-append}
use es_ts_example.Common.{
  ◌+◌, ◌≡◌, ◌∙◌, List, [], ◌∷◌, ◌++◌, foldl, append-nil, append_assoc, arith, length, length-append,
}
use es_ts_example.EventSourcing.Aggregate.{
  Reducer, Aggregate, make_aggregate, replay_into, record_event, replay_event, replay_aggregate,
}

-- The aggregate of a log: the folded state, a version that counts the log, nothing pending.
abbrev pub replayed {ℓ} :
    {State Event Key : Type ℓ}
    → Key
    → State
    → Reducer State Event
    → List Event
    → Aggregate State Event Key
replayed aggregate_id initial_state reducer events = record {
  aggregate_id = aggregate_id;
  state = replay_into initial_state reducer events;
  version = length events;
  pending_events = [];
}

module _ {ℓ} {State Event Key : Type ℓ} (reducer : Reducer State Event) where
  replay_from :
      (a : Aggregate State Event Key) (events : List Event)
      → foldl (λ aggregate event. replay_event reducer event aggregate) a events
        ≡ record a { state = foldl reducer a.state events; version = a.version + length events }
  unfolding replay_event
  replay_from a [] = ground arith
  replay_from a (e ∷ es) = rw (replay_from (replay_event reducer e a) es) (ground arith)

  -- Replaying a log gives exactly: the given id, the fold of the reducer over the log in order, the
  -- number of events as the version, and no pending event.
  pub replay_aggregate-eq-replayed :
      (aggregate_id : Key) (initial_state : State) (events : List Event)
      → replay_aggregate aggregate_id initial_state reducer events
        ≡ replayed aggregate_id initial_state reducer events
  unfolding replay_aggregate replay_into
  replay_aggregate-eq-replayed aggregate_id initial_state events =
      replay_from (make_aggregate aggregate_id initial_state) events ∙ ground arith

  -- Record a list of events, the first one first.
  abbrev pub record_all : Aggregate State Event Key → List Event → Aggregate State Event Key
  record_all a events = foldl (λ aggregate event. record_event reducer event aggregate) a events

  pub record_all_lem :
      (a : Aggregate State Event Key) (events : List Event)
      → record_all a events ≡ record a {
        state = foldl reducer a.state events;
        version = a.version + length events;
        pending_events = a.pending_events ++ events;
      }
  unfolding record_event
  record_all_lem a [] = ground (arith, append-nil a.pending_events)
  record_all_lem a (e ∷ es) =
      rw (record_all_lem (record_event reducer e a) es)
        (ground (arith, append_assoc a.pending_events (e ∷ []) es))

  -- Recording new events on the aggregate of a log, and replaying the log with these events at its
  -- end, give the same id, state and version; the recorded ones are pending, in order.
  pub record_all-replay_aggregate :
      (aggregate_id : Key) (initial_state : State) (log events : List Event)
      → record_all (replay_aggregate aggregate_id initial_state reducer log) events
        ≡ record (replay_aggregate aggregate_id initial_state reducer (log ++ events)) {
          pending_events = events;
        }
  unfolding replay_into
  record_all-replay_aggregate aggregate_id initial_state log events =
      rw (record_all_lem, replay_aggregate-eq-replayed, replay_aggregate-eq-replayed)
        (ground (arith, foldl-append reducer initial_state log events, length-append log events))
