-- ===== src/EventSourcing/Projection.antt =====
-- packages/event-sourcing/src/projection.ts
pub mod Laws
use es_ts_example.Common.{ℕ, Option, none, some, List, foldl, String}
use es_ts_example.EventSourcing.Aggregate.{Reducer}

pub record Projection {ℓ} (State SelectedEvent SourceEvent : Type ℓ) : Type ℓ where
  pub projection_id : String
  pub initial_state : State
  pub reducer : Reducer State SelectedEvent
  pub matches_projection : SourceEvent → Option SelectedEvent

pub record ProjectionCheckpoint {ℓ} (State : Type ℓ) : Type ℓ where
  pub state : State
  pub last_event_store_sequence_number : ℕ

unfoldable pub initial_checkpoint {ℓ} : {State : Type ℓ} → State → ProjectionCheckpoint State
initial_checkpoint state = record { state = state; last_event_store_sequence_number = 0 }

module _ {ℓ} {State SelectedEvent SourceEvent : Type ℓ} where
  -- One round of the fold: an event that is not selected leaves the state.
  unfoldable pub project : Projection State SelectedEvent SourceEvent → State → SourceEvent → State
  project projection state event = elim (projection.matches_projection event) [
    | none ↦ state
    | some selected ↦ projection.reducer state selected
  ]

  unfoldable pub replay_projection :
      Projection State SelectedEvent SourceEvent → List SourceEvent → State
  unfolding project
  replay_projection projection events = foldl (project projection) projection.initial_state events

  unfoldable pub make_projection :
      String
      → State
      → Reducer State SelectedEvent
      → (SourceEvent → Option SelectedEvent)
      → Projection State SelectedEvent SourceEvent
  make_projection projection_id initial_state reducer matches_projection = record {
    projection_id = projection_id;
    initial_state = initial_state;
    reducer = reducer;
    matches_projection = matches_projection;
  }
