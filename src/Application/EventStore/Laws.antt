-- ===== src/Application/EventStore/Laws.antt =====
-- What a slice may rely on (packages/application/src/eventStore.ts), and where the shared log breaks it:
-- versions count every record of an id, and reads only the slice's own.
use es_ts_example.Common.{◌≡◌, refl, some}
use es_ts_example.EventSourcing.EventStore.{EventStore, expected_version_conflict}
use es_ts_example.EventSourcing.EventStore.Contract.{LogView, Implements}
use es_ts_example.Domain.{DomainEvent}
use es_ts_example.Application.EventStore.{
  EventSchema, narrowed, domain_request, event_store_for, counter_event_schema, user_event_schema,
  counter_event_of, user_event_of,
}

-- A slice's events are recognised.
pub record IsSchema {Event : Type 0} (schema : EventSchema Event) : Type 0 where
  pub recognises : (e : Event) → schema.is (schema.as_domain e) ≡ some e

pub counter_event_schema-IsSchema : IsSchema counter_event_schema
unfolding counter_event_of
counter_event_schema-IsSchema = record { recognises = λ e. refl }

pub user_event_schema-IsSchema : IsSchema user_event_schema
unfolding user_event_of
user_event_schema-IsSchema = record { recognises = λ e. refl }

module _ {Event : Type 0} (schema : EventSchema Event) where
  -- A log of the whole domain, seen by the slice.
  abbrev pub slice_view : {Log : Type 0} → LogView Log DomainEvent → LogView Log Event
  slice_view view = record {
    read = λ log query. narrowed schema (view.read log query);
    read_all = λ log query. narrowed schema (view.read_all log query);
    version = view.version;
    added = λ log command. narrowed schema (view.added log (domain_request schema command));
    extend = λ log command. view.extend log (domain_request schema command);
  }

  -- The slice's store over any store of domain events keeps the contract of a store, for this view.
  pub event_store_for-Implements :
      {S Log StoreError : Type 0} (store : EventStore S DomainEvent StoreError)
      (view : LogView Log DomainEvent) (Holds : S → Log → Type 0)
      → Implements store view Holds
      → Implements (event_store_for schema store) (slice_view view) Holds
  unfolding event_store_for expected_version_conflict
  event_store_for-Implements store view Holds impl = record {
    fetch_reads = λ s log query h. rw (impl.fetch_reads s log query h);
    fetch_all_reads = λ s log query h. rw (impl.fetch_all_reads s log query h);
    append_conflicts =
        λ s log command h ne. rw (impl.append_conflicts s log (domain_request schema command) h ne);
    append_stores = λ s log command h e.
        let (stored, held) = impl.append_stores s log (domain_request schema command) h e in
        (rw stored, held);
  }
