-- ===== src/Application/EventStore/Streams.antt =====
-- The streams that a slice sees of the shared log (packages/application/src/eventStore.ts): the version
-- of a stream counts every record of its id, a read only the slice's own.
use mathlib.Core.List.{map-append, filter_map-append}
use es_ts_example.Common.{
  ℕ, ◌+◌, ◌≡◌, refl, ap, ◌∙◌, Bool, true, false, ◌&&◌, Option, none, some, Bool-cases, Option-cases,
  inl, inr, List, [], ◌∷◌, ◌++◌, map, filter_map, String, arith, length, length-append, filter,
  filter-append, map_index,
}
use es_ts_example.EventSourcing.EventStore.{
  StoredEvent, AppendRequest, is_of_aggregate, aggregate_version_in_records,
  stored_event_for_append, stored_events_for_append,
}
use es_ts_example.EventSourcing.EventStore.Contract.{
  Streams, record_view, added_to, whole_stream, events_of,
}
use es_ts_example.EventSourcing.EventStore.Log.{
  IsWellFormed, records_for_aggregate_all, stored_events_for_append-IsWellFormed,
}
use es_ts_example.EventSourcing.EventStore.Streams.{extended}
use es_ts_example.Domain.{DomainEvent}
use es_ts_example.Application.EventStore.{EventSchema, belongs_to_slice, narrowed, domain_request}
use es_ts_example.Application.EventStore.Laws.{IsSchema, slice_view}

abbrev is_none {ℓ} : {A : Type ℓ} → Option A → Bool
is_none none = true
is_none (some a) = false

module _ {Event : Type 0} (schema : EventSchema Event) where
  -- How many records of an id belong to another slice.
  abbrev pub foreign : List (StoredEvent DomainEvent) → String → ℕ
  foreign log name =
      length (filter (λ r. is_of_aggregate name r && is_none (schema.is r.event)) log)

  narrowed_split :
      (log : List (StoredEvent DomainEvent)) (name : String)
      → length (filter (is_of_aggregate name) log)
        ≡ length (narrowed schema (filter (is_of_aggregate name) log)) + foreign log name
  unfolding narrowed filter_map
  narrowed_split [] name = omega arith
  narrowed_split (r ∷ log) name = elim (Bool-cases (is_of_aggregate name r)) [
    | inr other ↦ rw other (narrowed_split log name)
    | inl own ↦ elim (Option-cases (schema.is r.event)) [
      | inl missed ↦ rw (own, missed) (omega (arith, narrowed_split log name))
      | inr (e, kept) ↦ rw (own, kept) (omega (arith, narrowed_split log name))
    ]
  ]

  -- The version of a stream is what the slice reads of it, and the records of other slices.
  pub version-foreign :
      (log : List (StoredEvent DomainEvent)) (name : String)
      → IsWellFormed log
      → aggregate_version_in_records log name
        ≡ length ((slice_view schema record_view).read log (whole_stream name)) + foreign log name
  unfolding aggregate_version_in_records
  version-foreign log name h = rw (records_for_aggregate_all log name h) (narrowed_split log name)

  -- No other slice has written to the stream.
  pub record IsOwn (log : List (StoredEvent DomainEvent)) (name : String) : Type 0 where
    pub well_formed : IsWellFormed log
    pub no_foreign : foreign log name ≡ 0

  module _ (is_schema : IsSchema schema) where
    module _ (command : AppendRequest Event) (version sequence : ℕ) where
      abbrev added_from : ℕ → List Event → List (StoredEvent DomainEvent)
      added_from i events =
          map_index (stored_event_for_append (domain_request schema command) version sequence) i
            (map schema.as_domain events)

      foreign-added_from :
          (i : ℕ) (events : List Event) (name : String) → foreign (added_from i events) name ≡ 0
      foreign-added_from i [] name = refl
      foreign-added_from i (e ∷ es) name =
          ground (arith, is_schema.recognises e, foreign-added_from (i + 1) es name)

      events_of-narrowed-added_from :
          (i : ℕ) (events : List Event) → events_of (narrowed schema (added_from i events)) ≡ events
      unfolding narrowed filter_map
      events_of-narrowed-added_from i [] = refl
      events_of-narrowed-added_from i (e ∷ es) =
          rw (is_schema.recognises e) (ap (◌∷◌ e) (events_of-narrowed-added_from (i + 1) es))

    -- What the slice appends is its own, and is what it reads back.
    pub foreign-added :
        (log : List (StoredEvent DomainEvent)) (command : AppendRequest Event) (name : String)
        → foreign (log ++ added_to log (domain_request schema command)) name ≡ foreign log name
    unfolding stored_events_for_append
    foreign-added log command name =
        let version = aggregate_version_in_records log command.aggregate_id in
        let own =
          λ (r : StoredEvent DomainEvent). is_of_aggregate name r && is_none (schema.is r.event) in
        rw (filter-append own log _, length-append (filter own log) _)
          (omega (arith, foreign-added_from command version (length log) 0 command.events name))

    events_of-narrowed-added :
        (log : List (StoredEvent DomainEvent)) (command : AppendRequest Event)
        → events_of (narrowed schema (added_to log (domain_request schema command)))
          ≡ command.events
    unfolding stored_events_for_append
    events_of-narrowed-added log command =
        events_of-narrowed-added_from command
          (aggregate_version_in_records log command.aggregate_id) (length log) 0 command.events

    narrowed-append :
        (xs ys : List (StoredEvent DomainEvent))
        → narrowed schema (xs ++ ys) ≡ narrowed schema xs ++ narrowed schema ys
    unfolding narrowed
    narrowed-append xs ys = filter_map-append (belongs_to_slice schema) xs ys

    -- A stream that no other slice has written to is read and extended faithfully through the slice,
    -- and its appends leave every such stream so.
    pub slice_view-Streams : Streams (slice_view schema record_view) IsOwn
    slice_view-Streams = record {
      counts = λ log name h. omega (arith, version-foreign log name h.well_formed, h.no_foreign);
      grows = λ log command h. rw (
        extended log (domain_request schema command) h.well_formed,
        narrowed-append,
        map-append,
        events_of-narrowed-added log command,
      );
      keeps = λ log command name h. record {
        well_formed = stored_events_for_append-IsWellFormed log _ h.well_formed;
        no_foreign = foreign-added log command name ∙ h.no_foreign;
      };
    }
