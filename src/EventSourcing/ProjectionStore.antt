-- ===== src/EventSourcing/ProjectionStore.antt =====
-- packages/event-sourcing/src/projection-store.ts. The `SchemaStore` over a key-value store is not
-- the program's: it is a parameter.
pub mod Laws
use es_ts_example.Common.{ℕ, ◌+◌, Option, none, some, String, not, nat_beq, if◌then◌else◌}
use es_ts_example.Effect.{Effect, succeed, fail, ◌>>=◌, ◌>>◌, map, map_error}
use es_ts_example.EventSourcing.Projection.{ProjectionCheckpoint, initial_checkpoint}

pub record Versioned {ℓ} (A : Type ℓ) : Type ℓ where
  pub value : A
  pub version : ℕ

pub record ProjectionStoreVersionConflict : Type 0 where
  pub projection_id : String
  pub expected_version : ℕ
  pub actual_version : ℕ

-- `Cause` stands for `KeyValueStoreError | SchemaError`.
pub data ProjectionStoreError (Cause : Type 0) : Type 0 where
  version_conflict : ProjectionStoreVersionConflict → ProjectionStoreError Cause
  schema_store_error : Cause → ProjectionStoreError Cause

-- `Persistence.KeyValueStore.SchemaStore`, over the state `S` behind it.
pub record SchemaStore (S Value Cause : Type 0) : Type 0 where
  pub get : String → Effect S Cause (Option Value)
  pub set : String → Value → Effect S Cause (Unit {0})

module _ {S State Cause : Type 0}
    (schema_store : SchemaStore S (Versioned (ProjectionCheckpoint State)) Cause)
    (initial_state : State) where
  abbrev pub initial_versioned_checkpoint : Versioned (ProjectionCheckpoint State)
  initial_versioned_checkpoint = record { value = initial_checkpoint initial_state; version = 0 }

  unfoldable pub load :
      String → Effect S (ProjectionStoreError Cause) (Versioned (ProjectionCheckpoint State))
  load projection_id =
      map
        (λ found. elim found [ none ↦ initial_versioned_checkpoint | some checkpoint ↦ checkpoint ])
        (map_error schema_store_error (schema_store.get projection_id))

  abbrev pub version_of : Option (Versioned (ProjectionCheckpoint State)) → ℕ
  version_of none = 0
  version_of (some stored) = stored.version

  unfoldable pub save :
      String
      → ProjectionCheckpoint State
      → ℕ
      → Effect S (ProjectionStoreError Cause) (Versioned (ProjectionCheckpoint State))
  save projection_id checkpoint expected_version = do
    stored_projection ← map_error schema_store_error (schema_store.get projection_id)
    let actual_version = version_of stored_projection
    if not (nat_beq actual_version expected_version)
        then fail (
            version_conflict (record {
              projection_id = projection_id;
              expected_version = expected_version;
              actual_version = actual_version;
            }))
        else do
          let saved_projection : Versioned (ProjectionCheckpoint State) = record {
            value = checkpoint;
            version = actual_version + 1;
          }
          map_error schema_store_error (schema_store.set projection_id saved_projection)
          succeed saved_projection
