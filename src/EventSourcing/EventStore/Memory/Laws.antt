-- ===== src/EventSourcing/EventStore/Memory/Laws.antt =====
-- The in-memory store keeps the contract of a store, and well-formed logs.
use es_ts_example.Common.{◌≡◌, refl, Bool-cases, inl, inr}
use es_ts_example.Common.Int.{pos, int_beq, int_beq_of_eq, int_beq_ne}
use es_ts_example.EventSourcing.EventStore.{AppendRequest, aggregate_version_in_records}
use es_ts_example.EventSourcing.EventStore.Contract.{Implements, record_view}
use es_ts_example.EventSourcing.EventStore.Log.{IsWellFormed, stored_events_for_append-IsWellFormed}
use es_ts_example.EventSourcing.EventStore.Memory.{Ref, append, make_in_memory_event_store}

module _ {Event Error : Type 0} where
  -- The in-memory store is a store over the log that its `Ref` holds.
  pub make_in_memory_event_store-Implements :
      Implements (make_in_memory_event_store {Event = Event} {Error = Error}) record_view ◌≡◌
  unfolding make_in_memory_event_store
  make_in_memory_event_store-Implements = record {
    fetch_reads = λ s log query h. rw h;
    fetch_all_reads = λ s log query h. rw h;
    append_conflicts = λ s log command h ne. rw (h, int_beq_ne _ _ ne);
    append_stores = λ s log command h e. rw (h, int_beq_of_eq _ _ e) (refl, refl);
  }

module _ {Event : Type 0} (Error : Type 0) where
  -- Whatever the command and its outcome, an append keeps a well-formed log well-formed.
  pub append-IsWellFormed :
      (log : Ref Event) (command : AppendRequest Event)
      → IsWellFormed log
      → IsWellFormed (append {Error = Error} command log).1
  unfolding append
  append-IsWellFormed log command h =
      elim (Bool-cases (
        int_beq (pos (aggregate_version_in_records log command.aggregate_id))
          command.expected_version)) [
            | inl same ↦ rw same (stored_events_for_append-IsWellFormed log command h)
            | inr other ↦ rw other h
          ]
