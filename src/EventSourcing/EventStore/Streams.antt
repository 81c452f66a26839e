-- ===== src/EventSourcing/EventStore/Streams.antt =====
-- The streams of a well-formed log (packages/event-sourcing/src/event-store.ts).
use es_ts_example.Common.{
  ℕ, ◌+◌, ◌≡◌, refl, ap, List, [], ◌∷◌, ◌++◌, String, eq_refl, filter, filter-append, filter-All,
  All, map_index, true,
}
use mathlib.Core.List.{map-append}
use es_ts_example.EventSourcing.EventStore.{
  StoredEvent, AppendRequest, is_of_aggregate, aggregate_version_in_records, records_for_aggregate,
  stored_event_for_append, stored_events_for_append,
}
use es_ts_example.EventSourcing.EventStore.Contract.{
  record_view, added_to, whole_stream, events_of, Streams,
}
use es_ts_example.EventSourcing.EventStore.Log.{
  IsWellFormed, records_for_aggregate_all, stored_events_for_append-IsWellFormed,
}

module _ {Event : Type 0} where
  module _ (command : AppendRequest Event) (version sequence : ℕ) where
    abbrev added_from : ℕ → List Event → List (StoredEvent Event)
    added_from = map_index (stored_event_for_append command version sequence)

    added_from-All :
        (i : ℕ) (events : List Event)
        → All (λ r. is_of_aggregate command.aggregate_id r ≡ true) (added_from i events)
    added_from-All i [] = tt
    added_from-All i (e ∷ es) = (eq_refl command.aggregate_id, added_from-All (i + 1) es)

    events_of-added_from : (i : ℕ) (events : List Event) → events_of (added_from i events) ≡ events
    events_of-added_from i [] = refl
    events_of-added_from i (e ∷ es) = ap (◌∷◌ e) (events_of-added_from (i + 1) es)

    -- Everything that an append adds is of its stream, and holds its events in order.
    pub filter-stored_events_for_append :
        filter
          (is_of_aggregate command.aggregate_id)
          (stored_events_for_append command version sequence)
        ≡ stored_events_for_append command version sequence
    unfolding stored_events_for_append
    filter-stored_events_for_append =
        filter-All (is_of_aggregate command.aggregate_id) _ (added_from-All 0 command.events)

    pub events_of-stored_events_for_append :
        events_of (stored_events_for_append command version sequence) ≡ command.events
    unfolding stored_events_for_append
    events_of-stored_events_for_append = events_of-added_from 0 command.events

  abbrev pub IsSoundStream : List (StoredEvent Event) → String → Type 0
  IsSoundStream log name = IsWellFormed log

  pub extended :
      (log : List (StoredEvent Event)) (command : AppendRequest Event)
      → IsWellFormed log
      → records_for_aggregate (log ++ added_to log command) (whole_stream command.aggregate_id)
        ≡ records_for_aggregate log (whole_stream command.aggregate_id) ++ added_to log command
  extended log command h = rw (
    records_for_aggregate_all (log ++ added_to log command) command.aggregate_id
        (stored_events_for_append-IsWellFormed log command h),
    records_for_aggregate_all log command.aggregate_id h,
    filter-append (is_of_aggregate command.aggregate_id) log (added_to log command),
    filter-stored_events_for_append,
  )

  -- In a store that keeps well-formed logs every stream is read and extended faithfully.
  pub record_view-Streams : Streams (record_view {Event = Event}) IsSoundStream
  unfolding aggregate_version_in_records
  record_view-Streams = record {
    counts = λ log name h. rw (records_for_aggregate_all log name h);
    grows = λ log command h.
        rw (extended log command h, map-append, events_of-stored_events_for_append);
    keeps = λ log command name h. stored_events_for_append-IsWellFormed log command h;
  }
