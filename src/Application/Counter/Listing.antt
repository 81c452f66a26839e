-- ===== src/Application/Counter/Listing.antt =====
-- The rows of the list of counters (packages/application/src/counter/queries/listCounters.ts).
use mathlib.Core.List.{foldl-append, map-append, Perm}
use mathlib.Core.List.Perm
use es_ts_example.Common.{
  ℕ, zero, suc, ◌+◌, ◌-◌, ◌≤◌, Bool, false, none, some, ltb, length, length-map, ◌≡◌, refl, ap, sym,
  ◌∙◌, true, false, ◌||◌, Bool-cases, Option, Option-cases, inl, inr, List, [], ◌∷◌, ◌++◌,
  append-nil, append_assoc, foldl, map, filter_map, String, ◌==◌, eq_iff, eq_refl, arith,
  if◌then◌else◌, filter, filter-append, contains, contains-append, Distinct, Distinct-append,
}
use es_ts_example.EventSourcing.Aggregate.{replay_into}
use es_ts_example.EventSourcing.EventStore.{StoredEvent}
use es_ts_example.EventSourcing.EventStore.Contract.{events_of}
use es_ts_example.Common.Int.{pos, sub_ℕ}
use es_ts_example.Domain.Counter.{
  CounterState, counter_not_created, active_counter, disabled_counter, CounterEvent,
  counter_created, counter_incremented, counter_decremented, counter_disabled, to_counter_value,
  apply_counter_event, replay_counter,
}
use es_ts_example.Domain.Counter.Replay.{replay_counter-eq-replayed}
use es_ts_example.Application.Counter.{
  CounterSummary, active_counter_summary, disabled_counter_summary, counter_summary_of,
  counter_id_of, add_to_group, group_from, group_by, EntryOrder, counter_rows,
}

-- The ids that a list holds, each once, in the order in which they first occur.
abbrev with_id : List String → String → List String
with_id ids k = if contains ids k then ids else ids ++ k ∷ []

pub ids_in : List String → List String
ids_in names = foldl with_id [] names

contains-fold :
    (ids names : List String) (k : String)
    → contains (foldl with_id ids names) k ≡ (contains ids k || contains names k)
unfolding contains
contains-fold ids [] k = ground arith
contains-fold ids (x ∷ names) k =
    contains-fold (with_id ids x) names k ∙ ground (arith, contains-append ids x k, eq_iff x k)

fold-Distinct : (ids names : List String) → Distinct ids → Distinct (foldl with_id ids names)
fold-Distinct ids [] d = d
fold-Distinct ids (x ∷ names) d =
    fold-Distinct (with_id ids x) names (ground (arith, Distinct-append ids x))

pub contains-ids_in :
    (names : List String) (k : String) → contains (ids_in names) k ≡ contains names k
unfolding ids_in contains
contains-ids_in names k = contains-fold [] names k

ids_in-Distinct : (names : List String) → Distinct (ids_in names)
unfolding ids_in
ids_in-Distinct names = fold-Distinct [] names tt

module _ {A : Type 0} (key : A → String) where
  -- The members of a list that have a key, in order.
  abbrev pub group_of : List A → String → List A
  group_of xs k = filter (λ x. key x == k) xs

  abbrev table : List String → List A → List (String × List A)
  table ids xs = map (λ k. (k, group_of xs k)) ids

  group_of_none : (xs : List A) (k : String) → contains (map key xs) k ≡ false → group_of xs k ≡ []
  unfolding contains
  group_of_none [] k h = refl
  group_of_none (x ∷ xs) k h = ground (arith, group_of_none xs k)

  group_of_other :
      (xs : List A) (a : A) (k : String)
      → (k == key a) ≡ false
      → group_of (xs ++ a ∷ []) k ≡ group_of xs k
  group_of_other xs a k h =
      rw (filter-append (λ x. key x == k) xs (a ∷ []))
        (ground (arith, eq_iff k (key a), eq_iff (key a) k, append-nil (group_of xs k)))

  group_of_own :
      (xs : List A) (a : A) (k : String)
      → (k == key a) ≡ true
      → group_of (xs ++ a ∷ []) k ≡ group_of xs k ++ a ∷ []
  group_of_own xs a k h =
      rw (filter-append (λ x. key x == k) xs (a ∷ []))
        (ground (arith, eq_iff k (key a), eq_iff (key a) k))

  table_other :
      (ids : List String) (xs : List A) (a : A)
      → contains ids (key a) ≡ false
      → table ids xs ≡ table ids (xs ++ a ∷ [])
  unfolding contains
  table_other [] xs a h = refl
  table_other (k ∷ ids) xs a h =
      rw (group_of_other xs a k (ground arith))
        (ap (◌∷◌ (k, group_of xs k)) (table_other ids xs a (ground arith)))

  add_to_group_new :
      (ids : List String) (xs : List A) (a : A)
      → contains ids (key a) ≡ false
      → add_to_group (key a) a (table ids xs) ≡ table ids (xs ++ a ∷ []) ++ (key a, a ∷ []) ∷ []
  unfolding contains add_to_group
  add_to_group_new [] xs a h = refl
  add_to_group_new (k ∷ ids) xs a h = elim (Bool-cases (k == key a)) [
    | inl same ↦ absurd (ground arith)
    | inr other ↦ rw (other, group_of_other xs a k other, add_to_group_new ids xs a (ground arith))
  ]

  add_to_group_old :
      (ids : List String) (xs : List A) (a : A)
      → contains ids (key a) ≡ true
      → Distinct ids
      → add_to_group (key a) a (table ids xs) ≡ table ids (xs ++ a ∷ [])
  unfolding contains add_to_group
  add_to_group_old [] xs a h d = absurd (ground arith)
  add_to_group_old (k ∷ ids) xs a h d = elim (Bool-cases (k == key a)) [
    | inl same ↦
        let fresh : contains ids (key a) ≡ false = ground (arith, eq_iff k (key a)) in
        rw (same, group_of_own xs a k same, table_other ids xs a fresh)
    | inr other ↦
        rw (other, group_of_other xs a k other, add_to_group_old ids xs a (ground arith) d.1)
  ]

  -- Adding a member to the table of a prefix gives the table of the longer prefix.
  add_to_group-table :
      (xs : List A) (a : A)
      → add_to_group (key a) a (table (ids_in (map key xs)) xs)
        ≡ table (ids_in (map key (xs ++ a ∷ []))) (xs ++ a ∷ [])
  unfolding ids_in
  add_to_group-table xs a =
      let ids = ids_in (map key xs) in
      let one_more : ids_in (map key (xs ++ a ∷ [])) ≡ with_id ids (key a) =
        rw (map-append, foldl-append) in
      elim (Bool-cases (contains ids (key a))) [
        | inl old ↦
            rw (one_more, old) (add_to_group_old ids xs a old (ids_in-Distinct (map key xs)))
        | inr new ↦
            let none_yet : group_of xs (key a) ≡ [] =
              group_of_none xs (key a) (sym (contains-ids_in (map key xs) (key a)) ∙ new) in
            rw (
              one_more,
              new,
              map-append,
              add_to_group_new ids xs a new,
              group_of_own xs a (key a) (eq_refl (key a)),
              none_yet,
            )
      ]

  group_from-table :
      (done xs : List A)
      → group_from key (table (ids_in (map key done)) done) xs
        ≡ table (ids_in (map key (done ++ xs))) (done ++ xs)
  unfolding group_from
  group_from-table done [] = rw append-nil
  group_from-table done (a ∷ xs) =
      rw (add_to_group-table done a)
        (group_from-table (done ++ a ∷ []) xs ∙ rw (append_assoc done (a ∷ []) xs))

  -- `Arr.groupBy` makes one group for each key that occurs, of the members that have the key.
  pub group_by-eq-table :
      (xs : List A) → group_by key xs ≡ map (λ k. (k, group_of xs k)) (ids_in (map key xs))
  unfolding group_by ids_in
  group_by-eq-table xs = group_from-table [] xs

-- The counter that an event is about.
abbrev pub subject : CounterEvent → String
subject (counter_created i) = i
subject (counter_incremented i) = i
subject (counter_decremented i) = i
subject (counter_disabled i) = i

-- The records of a log that are about a counter.
abbrev pub records_about :
    List (StoredEvent CounterEvent) → String → List (StoredEvent CounterEvent)
records_about records k = filter (λ r. subject r.event == k) records

-- The counters that a log is about, each once, in the order in which they first occur.
abbrev pub counters_in : List (StoredEvent CounterEvent) → List String
counters_in records = ids_in (map (λ r. subject r.event) records)

-- What the events behind its creation make of the value of a counter, within 0 and 5, and whether they
-- retire it, after which nothing counts.
abbrev pub life : ℕ → List CounterEvent → ℕ × Bool
life v [] = (v, false)
life v (counter_created _ ∷ es) = life v es
life v (counter_incremented _ ∷ es) = life (if ltb v 5 then suc v else 5) es
life v (counter_decremented _ ∷ es) = life (v - 1) es
life v (counter_disabled _ ∷ es) = (v, true)

-- The summary of a counter that has such a life, by its id and its number of events.
abbrev pub summary : String → ℕ → ℕ × Bool → CounterSummary
summary i n (v, false) = active_counter_summary i v n
summary i n (v, true) = disabled_counter_summary i v n

-- The row of a counter, from its number of events and its events: none before its creation.
abbrev pub account : ℕ → List CounterEvent → Option CounterSummary
account n [] = none
account n (counter_created i ∷ es) = some (summary i n (life 0 es))
account n (counter_incremented _ ∷ es) = account n es
account n (counter_decremented _ ∷ es) = account n es
account n (counter_disabled _ ∷ es) = account n es

-- The row of the records about a counter.
abbrev pub account_of : List (StoredEvent CounterEvent) → Option CounterSummary
account_of records = account (length records) (events_of records)

-- The rows of a log, in the order that the groups are listed in.
abbrev pub rows_of : EntryOrder → List (StoredEvent CounterEvent) → List CounterSummary
rows_of to_entries records =
    filter_map (λ entry. account_of entry.1)
      (to_entries (map (λ k. (k, records_about records k)) (counters_in records)))

summarised : String → ℕ → CounterState → Option CounterSummary
summarised k n s =
    counter_summary_of (record { aggregate_id = k; state = s; version = n; pending_events = [] })

up_lem : (v : ℕ) → to_counter_value (pos (v + 1)) ≡ (if ltb v 5 then suc v else 5)
unfolding to_counter_value
up_lem v = ground arith

down_lem : (v : ℕ) → v ≤ 5 → to_counter_value (sub_ℕ v 1) ≡ v - 1
unfolding to_counter_value
down_lem zero h = refl
down_lem (suc v) h = ground arith

life-retired :
    (k i : String) (n v : ℕ) (es : List CounterEvent)
    → summarised k n (foldl apply_counter_event (disabled_counter i v) es)
      ≡ some (summary i n (v, true))
unfolding summarised counter_summary_of apply_counter_event
life-retired k i n v [] = refl
life-retired k i n v (e ∷ es) = life-retired k i n v es

life-active :
    (k i : String) (n v : ℕ) (es : List CounterEvent)
    → v ≤ 5
    → summarised k n (foldl apply_counter_event (active_counter i v) es)
      ≡ some (summary i n (life v es))
unfolding summarised counter_summary_of apply_counter_event
life-active k i n v [] h = refl
life-active k i n v (counter_created _ ∷ es) h = life-active k i n v es h
life-active k i n v (counter_incremented _ ∷ es) h =
    rw (up_lem v) (life-active k i n (if ltb v 5 then suc v else 5) es (ground arith))
life-active k i n v (counter_decremented _ ∷ es) h =
    rw (down_lem v h) (life-active k i n (v - 1) es (omega (arith, h)))
life-active k i n v (counter_disabled _ ∷ es) h = life-retired k i n v es

account-fold :
    (k : String) (n : ℕ) (es : List CounterEvent)
    → summarised k n (foldl apply_counter_event counter_not_created es) ≡ account n es
unfolding summarised counter_summary_of apply_counter_event
account-fold k n [] = refl
account-fold k n (counter_created i ∷ es) = life-active k i n 0 es (omega arith)
account-fold k n (counter_incremented _ ∷ es) = account-fold k n es
account-fold k n (counter_decremented _ ∷ es) = account-fold k n es
account-fold k n (counter_disabled _ ∷ es) = account-fold k n es

-- The summary of a replayed counter is the account of its events.
counter_summary_of-account :
    (k : String) (records : List (StoredEvent CounterEvent))
    → counter_summary_of (replay_counter k (events_of records)) ≡ account_of records
unfolding summarised replay_into
counter_summary_of-account k records =
    rw replay_counter-eq-replayed
      (rw (length-map (λ r. r.event) records) (account-fold k (length records) (events_of records)))

subject-eq : (e : CounterEvent) → counter_id_of e ≡ subject e
unfolding counter_id_of
subject-eq (counter_created i) = refl
subject-eq (counter_incremented i) = refl
subject-eq (counter_decremented i) = refl
subject-eq (counter_disabled i) = refl

filter_map-table :
    {A B C : Type 0} (f : A → B) (g : B → Option C) (xs : List A)
    → filter_map g (map f xs) ≡ filter_map (λ x. g (f x)) xs
unfolding filter_map
filter_map-table f g [] = refl
filter_map-table f g (x ∷ xs) = elim (Option-cases (g (f x))) [
  | inl missed ↦ rw missed (filter_map-table f g xs)
  | inr (c, kept) ↦ rw kept (ap (◌∷◌ c) (filter_map-table f g xs))
]

filter_map-same :
    {A B : Type 0} (f g : A → Option B) (xs : List A)
    → ((x : A) → f x ≡ g x)
    → filter_map f xs ≡ filter_map g xs
filter_map-same f g xs same = ap (λ h. filter_map h xs) (λ i x. same x i)

-- The rows of the list of counters are the accounts of the counters that the log is about.
pub counter_rows-eq-rows_of :
    (to_entries : EntryOrder) (records : List (StoredEvent CounterEvent))
    → counter_rows to_entries records ≡ rows_of to_entries records
unfolding counter_rows
counter_rows-eq-rows_of to_entries records =
    let named : ◌≡◌ {A = StoredEvent CounterEvent → String} (λ r. counter_id_of r.event)
        (λ r. subject r.event) =
      λ i r. subject-eq r.event i in
    rw (named, group_by-eq-table (λ (r : StoredEvent CounterEvent). subject r.event) records)
      (filter_map-same {A = String × List (StoredEvent CounterEvent)} _ _
        (to_entries (map (λ k. (k, records_about records k)) (counters_in records)))
        (λ entry. counter_summary_of-account entry.0 entry.1))

-- In whatever order the groups are listed, the rows are, up to that order, one for each counter that the
-- log has a creation of, with the id of the creation, the value that its later events left within 0 and
-- 5, whether they retired it, and the number of its events; and none for the others.
pub counter_rows-Perm :
    (to_entries : EntryOrder) (records : List (StoredEvent CounterEvent))
    → ((groups : List (String × List (StoredEvent CounterEvent))) → Perm (to_entries groups) groups)
    → Perm
        (counter_rows to_entries records)
        (filter_map (λ k. account_of (records_about records k)) (counters_in records))
counter_rows-Perm to_entries records permutes =
    let own : String → String × List (StoredEvent CounterEvent) =
      λ k. (k, records_about records k) in
    let row : String × List (StoredEvent CounterEvent) → Option CounterSummary =
      λ entry. account_of entry.1 in
    let accounts = filter_map-table own row (counters_in records) in
    rw (counter_rows-eq-rows_of to_entries records, ← accounts)
      (Perm.filter_map row (permutes (map own (counters_in records))))
