-- ===== src/Application/EventStore/Narrowed.antt =====
-- The records that a slice of packages/application/src/eventStore.ts has to read of the shared log: those
-- of its own context, as they stand.
use es_ts_example.Common.{◌≡◌, refl, ap, ◌∙◌, List, [], ◌∷◌, filter_map}
use es_ts_example.EventSourcing.EventStore.{StoredEvent}
use es_ts_example.Domain.{DomainEvent, counter_event, user_event}
use es_ts_example.Domain.Counter.{CounterEvent}
use es_ts_example.Domain.User.{UserEvent}
use es_ts_example.Application.EventStore.{
  counter_event_of, user_event_of, counter_event_schema, user_event_schema, belongs_to_slice,
  narrowed,
}

-- A record of another event.
abbrev with_event : {A B : Type 0} → StoredEvent A → B → StoredEvent B
with_event r e = record {
  aggregate_id = r.aggregate_id;
  aggregate_version = r.aggregate_version;
  event_store_sequence_number = r.event_store_sequence_number;
  event = e;
}

abbrev counter_first :
    StoredEvent DomainEvent
    → DomainEvent
    → List (StoredEvent CounterEvent)
    → List (StoredEvent CounterEvent)
counter_first r (counter_event e) rest = with_event r e ∷ rest
counter_first r (user_event e) rest = rest

-- The records of counter events.
abbrev pub counter_records : List (StoredEvent DomainEvent) → List (StoredEvent CounterEvent)
counter_records [] = []
counter_records (r ∷ rest) = counter_first r r.event (counter_records rest)

abbrev user_first :
    StoredEvent DomainEvent
    → DomainEvent
    → List (StoredEvent UserEvent)
    → List (StoredEvent UserEvent)
user_first r (counter_event e) rest = rest
user_first r (user_event e) rest = with_event r e ∷ rest

-- The records of user events.
abbrev pub user_records : List (StoredEvent DomainEvent) → List (StoredEvent UserEvent)
user_records [] = []
user_records (r ∷ rest) = user_first r r.event (user_records rest)

counter_narrowed :
    (r : StoredEvent DomainEvent) (e : DomainEvent) (rest : List (StoredEvent DomainEvent))
    → narrowed counter_event_schema (with_event r e ∷ rest)
      ≡ counter_first r e (narrowed counter_event_schema rest)
unfolding narrowed belongs_to_slice filter_map counter_event_of
counter_narrowed r (counter_event e) rest = refl
counter_narrowed r (user_event e) rest = refl

pub narrowed_counter_lem :
    (records : List (StoredEvent DomainEvent))
    → narrowed counter_event_schema records ≡ counter_records records
unfolding narrowed
narrowed_counter_lem [] = refl
narrowed_counter_lem (r ∷ rest) =
    counter_narrowed r r.event rest ∙ ap (counter_first r r.event) (narrowed_counter_lem rest)

user_narrowed :
    (r : StoredEvent DomainEvent) (e : DomainEvent) (rest : List (StoredEvent DomainEvent))
    → narrowed user_event_schema (with_event r e ∷ rest)
      ≡ user_first r e (narrowed user_event_schema rest)
unfolding narrowed belongs_to_slice filter_map user_event_of
user_narrowed r (counter_event e) rest = refl
user_narrowed r (user_event e) rest = refl

pub narrowed_user_lem :
    (records : List (StoredEvent DomainEvent))
    → narrowed user_event_schema records ≡ user_records records
unfolding narrowed
narrowed_user_lem [] = refl
narrowed_user_lem (r ∷ rest) =
    user_narrowed r r.event rest ∙ ap (user_first r r.event) (narrowed_user_lem rest)
