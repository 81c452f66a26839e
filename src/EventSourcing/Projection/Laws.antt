-- ===== src/EventSourcing/Projection/Laws.antt =====
-- A projection sees only the events that it selects, and can be resumed from a checkpoint
-- (packages/event-sourcing/src/projection.ts, and the reads of event-store.ts).
use mathlib.Core.List.{foldl-append, map-append}
use es_ts_example.Common.{
  ◌+◌, ◌≡◌, refl, none, some, Option-cases, inl, inr, List, [], ◌∷◌, ◌++◌, foldl, filter_map,
  length, drop-append_length,
}
use es_ts_example.EventSourcing.EventStore.{StoredEvent, records_from_sequence_number}
use es_ts_example.EventSourcing.EventStore.Contract.{events_of}
use es_ts_example.EventSourcing.EventStore.Log.{IsWellFormed, records_from_sequence_number-drop}
use es_ts_example.EventSourcing.Projection.{
  Projection, ProjectionCheckpoint, project, replay_projection,
}

module _ {State SelectedEvent SourceEvent : Type 0}
    (projection : Projection State SelectedEvent SourceEvent) where
  project-filter_map :
      (state : State) (events : List SourceEvent)
      → foldl (project projection) state events
        ≡ foldl projection.reducer state (filter_map projection.matches_projection events)
  unfolding project filter_map
  project-filter_map state [] = refl
  project-filter_map state (e ∷ es) = elim (Option-cases (projection.matches_projection e)) [
    | inl missed ↦ rw (missed, project) (project-filter_map state es)
    | inr (a, selected) ↦
        rw (selected, project) (project-filter_map (projection.reducer state a) es)
  ]

  -- Replaying a projection is the fold of its reducer over the events that it selects, in order: the
  -- others have no effect.
  pub replay_projection-filter_map :
      (events : List SourceEvent)
      → replay_projection projection events
        ≡ foldl projection.reducer projection.initial_state
            (filter_map projection.matches_projection events)
  unfolding replay_projection
  replay_projection-filter_map events = project-filter_map projection.initial_state events

  -- A checkpoint of a log: the state of its replay, and the number of its last record.
  abbrev pub checkpoint_of : List (StoredEvent SourceEvent) → ProjectionCheckpoint State
  checkpoint_of log = record {
    state = replay_projection projection (events_of log);
    last_event_store_sequence_number = length log;
  }

  -- From the checkpoint of a well-formed log, whatever was appended since, reading from the number
  -- after the checkpoint's and folding what is read gives the replay of the whole log: no event is
  -- skipped or seen twice.
  pub resume-replay_projection :
      (log added : List (StoredEvent SourceEvent))
      → IsWellFormed (log ++ added)
      → foldl (project projection) (checkpoint_of log).state (
          events_of (
            records_from_sequence_number (log ++ added) (record {
              starting_event_sequence_number =
                  some ((checkpoint_of log).last_event_store_sequence_number + 1);
              limit = none;
            })))
        ≡ replay_projection projection (events_of (log ++ added))
  unfolding replay_projection
  resume-replay_projection log added h = rw (
    records_from_sequence_number-drop (log ++ added) (length log) none h,
    drop-append_length log added,
    map-append,
    foldl-append,
  )
