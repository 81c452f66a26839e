-- ===== src/EventSourcing/ProjectionStore/Laws.antt =====
-- Optimistic concurrency of packages/event-sourcing/src/projection-store.ts, over a key-value store
-- that works.
use es_ts_example.Common.{
  ℕ, ◌+◌, ◌≡◌, ◌≢◌, refl, Option, none, some, String, ◌==◌, if◌then◌else◌, nat_beq_ne, nat_beq_refl,
  str_ne, eq_refl, arith,
}
use es_ts_example.Effect.{success, failure}
use es_ts_example.EventSourcing.Projection.{ProjectionCheckpoint}
use es_ts_example.EventSourcing.ProjectionStore.{
  Versioned, SchemaStore, version_conflict, version_of, initial_versioned_checkpoint, load, save,
}

-- A key-value store that works: `contents` is what a state holds under a key.
pub record IsReliable {S Value Cause : Type 0} (schema_store : SchemaStore S Value Cause)
    (contents : S → String → Option Value) : Type 0 where
  pub get_gives : (s : S) (key : String) → schema_store.get key s ≡ (success (contents s key), s)
  pub set_succeeds : (s : S) (key : String) (v : Value) → (schema_store.set key v s).0 ≡ success tt
  pub set_puts :
      (s : S) (key other : String) (v : Value)
      → contents (schema_store.set key v s).1 other
        ≡ (if key == other then some v else contents s other)

module _ {S State Cause : Type 0}
    (schema_store : SchemaStore S (Versioned (ProjectionCheckpoint State)) Cause)
    (initial_state : State)
    {contents : S → String → Option (Versioned (ProjectionCheckpoint State))}
    (reliable : IsReliable schema_store contents) where
  -- What a projection last stored: the initial checkpoint at version 0 if nothing.
  abbrev pub stored : S → String → Versioned (ProjectionCheckpoint State)
  stored s projection_id = elim (contents s projection_id) [
    | none ↦ initial_versioned_checkpoint schema_store initial_state
    | some checkpoint ↦ checkpoint
  ]

  -- A load returns what the projection last stored, and changes nothing.
  pub load_lem :
      (s : S) (projection_id : String)
      → load schema_store initial_state projection_id s ≡ (success (stored s projection_id), s)
  unfolding load
  load_lem s projection_id = rw (reliable.get_gives s projection_id)

  version-stored :
      (s : S) (projection_id : String)
      → version_of schema_store initial_state (contents s projection_id)
        ≡ (stored s projection_id).version
  version-stored s projection_id = ground arith

  save_current :
      (s : S) (projection_id : String) (checkpoint : ProjectionCheckpoint State)
      → let loaded = stored s projection_id in
        let saved : Versioned (ProjectionCheckpoint State) = record {
          value = checkpoint;
          version = loaded.version + 1;
        } in
        save schema_store initial_state projection_id checkpoint loaded.version s
        ≡ (success saved, (schema_store.set projection_id saved s).1)
  unfolding save
  save_current s projection_id checkpoint =
      let version = (stored s projection_id).version in
      let saved : Versioned (ProjectionCheckpoint State) = record {
        value = checkpoint;
        version = version + 1;
      } in
      rw (
        reliable.get_gives s projection_id,
        version-stored s projection_id,
        nat_beq_refl version,
        reliable.set_succeeds s projection_id saved,
      )

  stored-set :
      (s : S) (projection_id other : String) (v : Versioned (ProjectionCheckpoint State))
      → stored (schema_store.set projection_id v s).1 other
        ≡ (if projection_id == other then v else stored s other)
  stored-set s projection_id other v =
      rw (reliable.set_puts s projection_id other v, stored) (ground arith)

  -- Saving at the version that was loaded succeeds with the next version; the projection then loads
  -- as it was saved, and any other as before.
  pub load-save_checkpoint :
      (s : S) (projection_id : String) (checkpoint : ProjectionCheckpoint State)
      → let loaded = stored s projection_id in
        let saved : Versioned (ProjectionCheckpoint State) = record {
          value = checkpoint;
          version = loaded.version + 1;
        } in
        let outcome = save schema_store initial_state projection_id checkpoint loaded.version s in
        (outcome.0 ≡ success saved)
        × (load schema_store initial_state projection_id outcome.1 ≡ (success saved, outcome.1))
        × ((other : String)
            → projection_id ≢ other
            → load schema_store initial_state other outcome.1
              ≡ (success (stored s other), outcome.1))
  load-save_checkpoint s projection_id checkpoint =
      let saved : Versioned (ProjectionCheckpoint State) = record {
        value = checkpoint;
        version = (stored s projection_id).version + 1;
      } in
      rw (save_current s projection_id checkpoint) (
        refl,
        rw (load_lem, stored-set s projection_id projection_id saved, eq_refl projection_id),
        λ other ne. rw (load_lem, stored-set s projection_id other saved, str_ne _ _ ne),
      )

  -- Saving at any other version fails with a conflict that tells both versions, and changes nothing.
  pub save_stale_checkpoint :
      (s : S) (projection_id : String) (checkpoint : ProjectionCheckpoint State) (expected : ℕ)
      → (stored s projection_id).version ≢ expected
      → save schema_store initial_state projection_id checkpoint expected s ≡ (
        failure (
            version_conflict (record {
              projection_id = projection_id;
              expected_version = expected;
              actual_version = (stored s projection_id).version;
            })),
        s,
      )
  unfolding save
  save_stale_checkpoint s projection_id checkpoint expected ne = rw (
    reliable.get_gives s projection_id,
    version-stored s projection_id,
    nat_beq_ne (stored s projection_id).version expected ne,
  )
