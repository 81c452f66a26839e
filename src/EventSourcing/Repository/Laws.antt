-- ===== src/EventSourcing/Repository/Laws.antt =====
-- What loading, saving and committing through packages/event-sourcing/src/repository.ts guarantee,
-- over any store that keeps its contract.
use es_ts_example.Common.{
  ◌+◌, ◌≡◌, ◌≢◌, refl, ◌∙◌, ap, sym, List, [], ◌++◌, String, arith, length, length-append,
  length-map,
}
use es_ts_example.Common.Int.{pos, pos_inj, sub_ℕ, sub_ℕ_of_le}
use es_ts_example.Effect.{success, failure, map}
use es_ts_example.EventSourcing.Aggregate.{Aggregate, replay_aggregate}
use es_ts_example.EventSourcing.Aggregate.Replay.{
  replayed, record_all, replay_aggregate-eq-replayed, record_all-replay_aggregate,
}
use es_ts_example.EventSourcing.Decision.{succeeded, failed}
use es_ts_example.EventSourcing.EventStore.{AppendRequest, conflict, expected_version_conflict}
use es_ts_example.EventSourcing.EventStore.Contract.{
  LogView, Implements, Streams, whole_stream, events_of,
}
use es_ts_example.EventSourcing.Repository.{
  RepositoryOptions, rejected, stream_name_for, load, save, commit,
}

module _ {S Log State Event Error : Type 0} (options : RepositoryOptions S State Event Error)
    {view : LogView Log Event} {Holds : S → Log → Type 0}
    (store : Implements options.store view Holds) where
  -- The events of an aggregate's stream.
  abbrev pub history : Log → String → List Event
  history log aggregate_id =
      events_of (view.read log (whole_stream (stream_name_for options aggregate_id)))

  -- The aggregate of a history, with new events recorded on it.
  abbrev pub changed : String → List Event → List Event → Aggregate State Event String
  changed aggregate_id past events =
      record_all options.reducer
        (replay_aggregate aggregate_id options.initial_state options.reducer past) events

  -- The request that `save` makes for such an aggregate.
  abbrev pub request : String → List Event → List Event → AppendRequest Event
  request aggregate_id past events = record {
    aggregate_id = stream_name_for options aggregate_id;
    expected_version = pos (length past);
    events = events;
  }

  -- Loading replays the stream of the aggregate, and changes nothing.
  pub load_lem :
      (s : S) (log : Log) (aggregate_id : String)
      → Holds s log
      → load options aggregate_id s ≡ (
        success (
            replayed aggregate_id options.initial_state options.reducer (history log aggregate_id)),
        s,
      )
  unfolding load
  load_lem s log aggregate_id h = rw (
    store.fetch_reads s log (whole_stream (stream_name_for options aggregate_id)) h,
    replay_aggregate-eq-replayed,
  )

  changed_lem :
      (aggregate_id : String) (past events : List Event)
      → changed aggregate_id past events
        ≡ record (replayed aggregate_id options.initial_state options.reducer (past ++ events)) {
          pending_events = events;
        }
  changed_lem aggregate_id past events =
      rw (record_all-replay_aggregate, replay_aggregate-eq-replayed)

  expected :
      (past events : List Event)
      → sub_ℕ (length (past ++ events)) (length events) ≡ pos (length past)
  expected past events = rw (length-append past events) (
      sub_ℕ_of_le (length past + length events) (length events) (omega arith)
      ∙ ap pos (omega arith))

  -- `save` asks the store to append the pending events at the version of the loaded history.
  save_lem :
      (s : S) (aggregate_id : String) (past events : List Event)
      → save options (changed aggregate_id past events) s
        ≡ map
            (λ _. replayed aggregate_id options.initial_state options.reducer (past ++ events))
            (options.store.append (request aggregate_id past events))
            s
  unfolding save
  save_lem s aggregate_id past events =
      rw (changed_lem aggregate_id past events, expected past events)

  -- Where the version that the store counts is not the length of the history that an aggregate was
  -- loaded from, saving it fails with a conflict, and changes nothing.
  pub save_conflict :
      (s : S) (log : Log) (aggregate_id : String) (past events : List Event)
      → Holds s log
      → view.version log (stream_name_for options aggregate_id) ≢ length past
      → save options (changed aggregate_id past events) s ≡ (
        failure (
            conflict (
              expected_version_conflict
                (request aggregate_id past events)
                (view.version log (stream_name_for options aggregate_id)))),
        s,
      )
  save_conflict s log aggregate_id past events holds ne =
      let command = request aggregate_id past events in
      rw (
        save_lem s aggregate_id past events,
        store.append_conflicts s log command holds (λ e. ne (pos_inj e)),
      )

  module _ {IsSound : Log → String → Type 0} (streams : Streams view IsSound) (s : S) (log : Log)
      (aggregate_id : String) (holds : Holds s log)
      (sound : IsSound log (stream_name_for options aggregate_id)) where
    pub version-history :
        view.version log (stream_name_for options aggregate_id) ≡ length (history log aggregate_id)
    version-history =
        streams.counts log _ sound
        ∙ sym (
            length-map (λ r. r.event)
              (view.read log (whole_stream (stream_name_for options aggregate_id))))

    -- Saving new events on the aggregate that was loaded succeeds and returns it with nothing
    -- pending; the stream is then the history with these events behind it; and the next load gives
    -- the very aggregate that was returned.
    pub load-save :
        (events : List Event)
        → let past = history log aggregate_id in
          let saved =
            replayed aggregate_id options.initial_state options.reducer (past ++ events) in
          let outcome = save options (changed aggregate_id past events) s in
          (outcome.0 ≡ success saved)
          × Holds outcome.1 (view.extend log (request aggregate_id past events))
          × (load options aggregate_id outcome.1 ≡ (success saved, outcome.1))
    load-save events =
        let past = history log aggregate_id in
        let command = request aggregate_id past events in
        let (stored, held) = store.append_stores s log command holds (ap pos version-history) in
        let s' = (options.store.append command s).1 in
        let again : load options aggregate_id s' ≡ (
          success (replayed aggregate_id options.initial_state options.reducer (past ++ events)),
          s',
        ) =
          rw (
            load_lem s' (view.extend log command) aggregate_id held,
            streams.grows log command sound,
          ) in
        rw (save_lem s aggregate_id past events, stored) (refl, held, again)

    cleared :
        (events : List Event)
        → let past = history log aggregate_id in
          ◌≡◌ {A = Aggregate State Event String}
            (record (changed aggregate_id past events) { pending_events = [] })
            (replayed aggregate_id options.initial_state options.reducer (past ++ events))
    cleared events = rw (changed_lem aggregate_id (history log aggregate_id) events)

    -- Committing an accepted decision, which recorded events on the aggregate that was loaded, is
    -- such a save.
    pub commit_accepted :
        {Rejection : Type 0} (events : List Event)
        → let after = changed aggregate_id (history log aggregate_id) events in
          let saved : Aggregate State Event String = record after { pending_events = [] } in
          let outcome = commit options {Rejection = Rejection} (succeeded after) s in
          (outcome.0 ≡ success saved)
          × Holds outcome.1
              (view.extend log (request aggregate_id (history log aggregate_id) events))
          × (load options aggregate_id outcome.1 ≡ (success saved, outcome.1))
    unfolding commit
    commit_accepted events =
        let (returned, held, again) = load-save events in
        rw (cleared events) (rw returned, held, again)

  -- Committing a rejected decision fails with its rejection, and does not touch the store.
  pub commit_rejected :
      {Rejection : Type 0} (rejection : Rejection) (s : S)
      → commit options (failed rejection) s ≡ (failure (rejected rejection), s)
  unfolding commit
  commit_rejected rejection s = refl
