-- ===== src/EventSourcing/EventStore/Log.antt =====
-- Well-formed logs of packages/event-sourcing/src/event-store.ts: the numbers that the records carry
-- are their positions, in the whole log and in their own stream.
use es_ts_example.Common.{
  ℕ, zero, suc, ◌+◌, ◌≤◌, ◌≡◌, ◌&&◌, refl, ap, true, Option, none, some, List, [], ◌∷◌, ◌++◌,
  String, ◌==◌, eq_refl, arith, leb, length, length-append, filter, filter-append, drop, map_index,
  append-nil, append_assoc,
}
use es_ts_example.EventSourcing.EventStore.{
  StoredEvent, AppendRequest, is_of_aggregate, aggregate_version_in_records, records_for_aggregate,
  records_from_sequence_number, stored_event_for_append, stored_events_for_append,
}

module _ {ℓ} {Event : Type ℓ} where
  -- The sequence numbers go up by one, from the one after `k`.
  abbrev pub IsNumbered : ℕ → List (StoredEvent Event) → Type 0
  IsNumbered k [] = Unit
  IsNumbered k (r ∷ rs) = (r.event_store_sequence_number ≡ k + 1) × IsNumbered (k + 1) rs

  -- Each version counts the records of the stream up to and with its own, those `before` included.
  abbrev pub IsVersioned : List (StoredEvent Event) → List (StoredEvent Event) → Type 0
  IsVersioned before [] = Unit
  IsVersioned before (r ∷ rs) =
      (r.aggregate_version ≡ aggregate_version_in_records before r.aggregate_id + 1)
      × IsVersioned (before ++ r ∷ []) rs

  pub record IsWellFormed (log : List (StoredEvent Event)) : Type 0 where
    pub numbered : IsNumbered 0 log
    pub versioned : IsVersioned [] log

  IsNumbered-append :
      (k : ℕ) (xs ys : List (StoredEvent Event))
      → IsNumbered k xs
      → IsNumbered (k + length xs) ys
      → IsNumbered k (xs ++ ys)
  IsNumbered-append k [] ys hx hy = let e : k + 0 ≡ k = omega arith in rw e at hy
  IsNumbered-append k (x ∷ xs) ys hx hy =
      let e : k + suc (length xs) ≡ k + 1 + length xs = omega arith in
      (hx.0, IsNumbered-append (k + 1) xs ys hx.1 (rw e at hy))

  IsVersioned-append :
      (before xs ys : List (StoredEvent Event))
      → IsVersioned before xs
      → IsVersioned (before ++ xs) ys
      → IsVersioned before (xs ++ ys)
  IsVersioned-append before [] ys hx hy = rw append-nil at hy
  IsVersioned-append before (x ∷ xs) ys hx hy = (
    hx.0,
    IsVersioned-append (before ++ x ∷ []) xs ys hx.1 (rw (append_assoc before (x ∷ []) xs) hy),
  )

  pub version-append :
      (xs ys : List (StoredEvent Event)) (aggregate_id : String)
      → aggregate_version_in_records (xs ++ ys) aggregate_id
        ≡ aggregate_version_in_records xs aggregate_id
          + aggregate_version_in_records ys aggregate_id
  unfolding aggregate_version_in_records
  version-append xs ys aggregate_id =
      rw filter-append (length-append (filter (is_of_aggregate aggregate_id) xs) _)

  pub version-concat :
      (before : List (StoredEvent Event)) (r : StoredEvent Event)
      → aggregate_version_in_records (before ++ r ∷ []) r.aggregate_id
        ≡ aggregate_version_in_records before r.aggregate_id + 1
  version-concat before r = rw version-append (ap (◌+◌ _) one)
    where
      one : aggregate_version_in_records (r ∷ []) r.aggregate_id ≡ 1
      one = unfold aggregate_version_in_records in rw (eq_refl r.aggregate_id)

  module _ (command : AppendRequest Event) (version sequence : ℕ) where
    abbrev added_from : ℕ → List Event → List (StoredEvent Event)
    added_from = map_index (stored_event_for_append command version sequence)

    added-IsNumbered :
        (i : ℕ) (events : List Event) → IsNumbered (sequence + i) (added_from i events)
    added-IsNumbered i [] = tt
    added-IsNumbered i (e ∷ es) =
        let p : sequence + i + 1 ≡ sequence + (i + 1) = omega arith in
        (refl, rw p (added-IsNumbered (i + 1) es))

    added-IsVersioned :
        (i : ℕ) (events : List Event) (before : List (StoredEvent Event))
        → aggregate_version_in_records before command.aggregate_id ≡ version + i
        → IsVersioned before (added_from i events)
    added-IsVersioned i [] before h = tt
    added-IsVersioned i (e ∷ es) before h =
        let r : StoredEvent Event = stored_event_for_append command version sequence i e in
        (
          omega arith,
          added-IsVersioned (i + 1) es (before ++ r ∷ []) (omega (arith, version-concat before r)),
        )

  -- The records that an append adds continue both numberings.
  pub stored_events_for_append-IsWellFormed :
      (log : List (StoredEvent Event)) (command : AppendRequest Event)
      → IsWellFormed log
      → IsWellFormed (
          log
          ++ stored_events_for_append command
              (aggregate_version_in_records log command.aggregate_id)
              (length log))
  unfolding stored_events_for_append
  stored_events_for_append-IsWellFormed log command h =
      let version = aggregate_version_in_records log command.aggregate_id in
      let e : length log + 0 ≡ 0 + length log = omega arith in
      record {
        numbered =
            IsNumbered-append 0 log _ h.numbered
              (rw e at (added-IsNumbered command version (length log) 0 command.events));
        versioned =
            IsVersioned-append [] log _ h.versioned
              (added-IsVersioned command version (length log) 0 command.events log (omega arith));
      }

  filter_numbered_all :
      (m k : ℕ) (xs : List (StoredEvent Event))
      → m ≤ k + 1
      → IsNumbered k xs
      → filter (λ r. leb m r.event_store_sequence_number) xs ≡ xs
  filter_numbered_all m k [] le h = refl
  filter_numbered_all m k (x ∷ xs) le h =
      ground (arith, filter_numbered_all m (k + 1) xs (omega arith) h.1)

  filter_numbered_from :
      (m k n : ℕ) (xs : List (StoredEvent Event))
      → m ≡ k + n + 1
      → IsNumbered k xs
      → filter (λ r. leb m r.event_store_sequence_number) xs ≡ drop n xs
  filter_numbered_from m k zero xs e h = filter_numbered_all m k xs (omega arith) h
  filter_numbered_from m k (suc n) [] e h = refl
  filter_numbered_from m k (suc n) (x ∷ xs) e h =
      ground (arith, filter_numbered_from m (k + 1) n xs (omega arith) h.1)

  -- In a well-formed log, reading from the number after position `n` skips the first `n` records.
  pub records_from_sequence_number-drop :
      (log : List (StoredEvent Event)) (n : ℕ) (limit : Option ℕ)
      → IsWellFormed log
      → records_from_sequence_number log
          (record { starting_event_sequence_number = some (n + 1); limit = limit })
        ≡ drop n log
  unfolding records_from_sequence_number
  records_from_sequence_number-drop log n limit h =
      filter_numbered_from (n + 1) 0 n log (omega arith) h.numbered

  pub records_from_sequence_number_all :
      (log : List (StoredEvent Event)) (limit : Option ℕ)
      → IsWellFormed log
      → records_from_sequence_number log
          (record { starting_event_sequence_number = none; limit = limit })
        ≡ log
  unfolding records_from_sequence_number
  records_from_sequence_number_all log limit h =
      filter_numbered_all 1 0 log (omega arith) h.numbered

  filter_numbered_stream :
      (aggregate_id : String) (k : ℕ) (xs : List (StoredEvent Event))
      → IsNumbered k xs
      → filter (λ r. r.aggregate_id == aggregate_id && leb 1 r.event_store_sequence_number) xs
        ≡ filter (is_of_aggregate aggregate_id) xs
  filter_numbered_stream aggregate_id k [] h = refl
  filter_numbered_stream aggregate_id k (x ∷ xs) h =
      let later = filter_numbered_stream aggregate_id (k + 1) xs h.1 in
      let positive : leb 1 x.event_store_sequence_number ≡ true = ground arith in
      rw (later, positive) (ground arith)

  -- In a well-formed log, a stream query without a start reads every record of the stream.
  pub records_for_aggregate_all :
      (log : List (StoredEvent Event)) (aggregate_id : String)
      → IsWellFormed log
      → records_for_aggregate log
          (record { aggregate_id = aggregate_id; starting_event_sequence_number = none })
        ≡ filter (is_of_aggregate aggregate_id) log
  unfolding records_for_aggregate
  records_for_aggregate_all log aggregate_id h =
      filter_numbered_stream aggregate_id 0 log h.numbered

pub IsWellFormed-nil {ℓ} : {Event : Type ℓ} → IsWellFormed {Event = Event} []
IsWellFormed-nil = record { numbered = tt; versioned = tt }
