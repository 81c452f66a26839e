-- ===== src/Application/Counter/Handler.antt =====
-- What a counter command does to the store (packages/application/src/counter/handlers.ts), over any store
-- that keeps its contract.
use es_ts_example.Common.{◌≡◌, ◌∙◌, [], ◌∷◌, String}
use es_ts_example.Effect.{success, failure}
use es_ts_example.EventSourcing.Decision.{succeeded, failed}
use es_ts_example.EventSourcing.EventStore.{EventStore, AppendRequest}
use es_ts_example.EventSourcing.EventStore.Contract.{LogView, Implements, Streams}
use es_ts_example.EventSourcing.Repository.{rejected, load}
use es_ts_example.EventSourcing.Repository.Laws.{
  history, request, load_lem, commit_accepted, commit_rejected,
}
use es_ts_example.Domain.Counter.{CounterEvent, CounterAggregate, CounterRejection, replay_counter}
use es_ts_example.Domain.Counter.Replay.{
  replay_counter-eq-replayed, id-replay_counter, record_counter_event-replay_counter,
}
use es_ts_example.Application.Counter.{
  CounterCommand, target, decide, make_counter_repository, counter_command_handler,
}
use es_ts_example.Application.Counter.Decide.{event_of, decide_records}

module _ {S Log StoreError : Type 0} (store : EventStore S CounterEvent StoreError)
    {view : LogView Log CounterEvent} {Holds : S → Log → Type 0}
    (impl : Implements store view Holds) where
  -- The counter that a command addresses, as the log has it.
  abbrev pub addressed : Log → CounterCommand → CounterAggregate
  addressed log c =
      replay_counter (target c) (history (make_counter_repository store) impl log (target c))

  -- The request to append one event of the counter behind its history.
  abbrev pub one_event : Log → CounterCommand → CounterEvent → AppendRequest CounterEvent
  one_event log c e =
      request (make_counter_repository store) impl (target c)
        (history (make_counter_repository store) impl log (target c)) (e ∷ [])

  module _ (s : S) (log : Log) (c : CounterCommand) (holds : Holds s log) where
    load-addressed :
        load (make_counter_repository store) (target c) s ≡ (success (addressed log c), s)
    load-addressed = rw (
      load_lem (make_counter_repository store) impl s log (target c) holds,
      replay_counter-eq-replayed,
    )

    -- A command that the domain refuses fails with exactly that refusal, and writes nothing.
    pub counter_command_handler_refused :
        (r : CounterRejection)
        → decide c (addressed log c) ≡ failed r
        → counter_command_handler store c s ≡ (failure (rejected r), s)
    unfolding counter_command_handler
    counter_command_handler_refused r h =
        rw (load-addressed, h, commit_rejected (make_counter_repository store) impl r s)

    -- In a store that reads and extends the counter's stream faithfully, a command that the domain accepts
    -- succeeds with the aggregate that the decision made, nothing pending; the counter loads as that
    -- aggregate afterwards; and the log is extended by the one event that stands for the command.
    pub counter_command_handler_accepted :
        {IsSound : Log → String → Type 0} (streams : Streams view IsSound)
        (after : CounterAggregate)
        → IsSound log (target c)
        → decide c (addressed log c) ≡ succeeded after
        → let saved : CounterAggregate = record after { pending_events = [] } in
          let outcome = counter_command_handler store c s in
          (outcome.0 ≡ success saved)
          × (load (make_counter_repository store) (target c) outcome.1 ≡ (success saved, outcome.1))
          × Holds outcome.1 (view.extend log (one_event log c (event_of c)))
    unfolding counter_command_handler
    counter_command_handler_accepted streams after sound h =
        let past = history (make_counter_repository store) impl log (target c) in
        let e = event_of c in
        let recorded =
          decide_records c (addressed log c) after (id-replay_counter (target c) past) h in
        let same = recorded ∙ record_counter_event-replay_counter (target c) past e in
        let (returned, held, again) =
          commit_accepted (make_counter_repository store) impl streams s log (target c) holds sound
            {Rejection = CounterRejection} (e ∷ []) in
        rw (load-addressed, h, same) (returned, again, held)
