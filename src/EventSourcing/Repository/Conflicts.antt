-- ===== src/EventSourcing/Repository/Conflicts.antt =====
-- Optimistic concurrency of packages/event-sourcing/src/repository.ts, over any store that keeps its
-- contract.
use es_ts_example.Common.{
  ◌+◌, ◌≡◌, ◌≢◌, refl, ◌∙◌, ap, sym, List, [], ◌∷◌, String, arith, length, length-append,
}
use es_ts_example.Effect.{failure}
use es_ts_example.EventSourcing.EventStore.{conflict, expected_version_conflict}
use es_ts_example.EventSourcing.EventStore.Contract.{LogView, Implements, Streams}
use es_ts_example.EventSourcing.Repository.{RepositoryOptions, stream_name_for, save}
use es_ts_example.EventSourcing.Repository.Laws.{
  history, changed, request, save_conflict, load-save, version-history,
}

eq-nil_of_length {ℓ} : {A : Type ℓ} (xs : List A) → length xs ≡ 0 → xs ≡ []
eq-nil_of_length [] h = refl
eq-nil_of_length (x ∷ xs) h = absurd (omega arith)

module _ {S Log State Event Error : Type 0} (options : RepositoryOptions S State Event Error)
    {view : LogView Log Event} {Holds : S → Log → Type 0}
    (store : Implements options.store view Holds) where
  module _ {IsSound : Log → String → Type 0} (streams : Streams view IsSound) (s : S) (log : Log)
      (aggregate_id : String) (holds : Holds s log)
      (sound : IsSound log (stream_name_for options aggregate_id)) where
    -- Saving events on an aggregate whose history options store is shorter or longer than the stream now is fails
    -- with a conflict that tells both versions, and changes nothing.
    pub save_stale :
        (past events : List Event)
        → length past ≢ length (history options store log aggregate_id)
        → save options (changed options store aggregate_id past events) s ≡ (
          failure (
              conflict (
                expected_version_conflict
                  (request options store aggregate_id past events)
                  (length (history options store log aggregate_id)))),
          s,
        )
    save_stale past events ne =
        let seen = version-history options store streams s log aggregate_id holds sound in
        let other : view.version log (stream_name_for options aggregate_id) ≢ length past =
          λ e. ne (sym e ∙ seen) in
        rw (save_conflict options store s log aggregate_id past events holds other, seen)

  module _ {IsSound : Log → String → Type 0} (streams : Streams view IsSound) (s : S) (log : Log)
      (aggregate_id : String) (holds : Holds s log)
      (sound : IsSound log (stream_name_for options aggregate_id)) where
    -- Of two clients that loaded the same history, the second to save events is refused, if the first
    -- saved any, and what the first saved stays.
    pub no_lost_update :
        (first second : List Event)
        → first ≢ []
        → let past = history options store log aggregate_id in
          let saved = (save options (changed options store aggregate_id past first) s).1 in
          save options (changed options store aggregate_id past second) saved ≡ (
            failure (
                conflict (
                  expected_version_conflict
                    (request options store aggregate_id past second)
                    (length past + length first))),
            saved,
          )
    no_lost_update first second ne =
        let past = history options store log aggregate_id in
        let saved = (save options (changed options store aggregate_id past first) s).1 in
        let command = request options store aggregate_id past first in
        let log' = view.extend log command in
        let held : Holds saved log' =
          (load-save options store streams s log aggregate_id holds sound first).1 in
        let grown : length (history options store log' aggregate_id) ≡ length past + length first =
          ap length (streams.grows log command sound) ∙ length-append past first in
        let longer : length past ≢ length (history options store log' aggregate_id) =
          λ e. ne (eq-nil_of_length first (omega (arith, grown))) in
        rw (← grown) (
          save_stale streams saved log' aggregate_id held (streams.keeps log command _ sound) past
            second longer)
