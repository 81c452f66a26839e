-- ===== src/Domain/Counter/Bounds.antt =====
-- What holds of the state of every log of counter events, whoever wrote it
-- (packages/domain/src/counter/Reducer.ts and State.ts).
use mathlib.Core.List.{foldl-append}
use es_ts_example.Common.{
  ℕ, ◌+◌, ◌≤◌, ◌≡◌, refl, List, [], ◌∷◌, ◌++◌, foldl, String, true, Option, none, some, arith,
}
use es_ts_example.Common.Int.{ℤ, pos, negsuc, sub_ℕ}
use es_ts_example.Domain.Counter.{
  CounterState, counter_not_created, active_counter, disabled_counter, CounterEvent,
  counter_created, counter_incremented, counter_decremented, counter_disabled, counter_value_check,
  to_counter_value, apply_counter_event, counter_state_from,
}

-- The value passes the check of `CounterValue`, so that no `make` of the reducer throws.
abbrev pub IsValid : CounterState → Type 0
IsValid counter_not_created = Unit
IsValid (active_counter _ value) = counter_value_check (pos value) ≡ true
IsValid (disabled_counter _ value) = counter_value_check (pos value) ≡ true

pub counter_value_check-le : (n : ℕ) → counter_value_check (pos n) ≡ true → n ≤ 5
unfolding counter_value_check
counter_value_check-le n h = ground arith

pub counter_value_check_of_le : (n : ℕ) → n ≤ 5 → counter_value_check (pos n) ≡ true
unfolding counter_value_check
counter_value_check_of_le n h = ground arith

-- Clamping always gives a value that passes the check, and keeps one that does.
pub to_counter_value_lem :
    (z : ℤ)
    → (counter_value_check (pos (to_counter_value z)) ≡ true)
      × (counter_value_check z ≡ true → pos (to_counter_value z) ≡ z)
unfolding to_counter_value counter_value_check
to_counter_value_lem (pos n) = (ground arith, λ h. ground arith)
to_counter_value_lem (negsuc n) = (refl, λ h. cc)

apply_counter_event-IsValid :
    (s : CounterState) (e : CounterEvent) → IsValid s → IsValid (apply_counter_event s e)
unfolding apply_counter_event
apply_counter_event-IsValid counter_not_created (counter_created i) h =
    (to_counter_value_lem (pos 0)).0
apply_counter_event-IsValid counter_not_created (counter_incremented i) h = tt
apply_counter_event-IsValid counter_not_created (counter_decremented i) h = tt
apply_counter_event-IsValid counter_not_created (counter_disabled i) h = tt
apply_counter_event-IsValid (active_counter j v) (counter_created i) h = h
apply_counter_event-IsValid (active_counter j v) (counter_incremented i) h =
    (to_counter_value_lem (pos (v + 1))).0
apply_counter_event-IsValid (active_counter j v) (counter_decremented i) h =
    (to_counter_value_lem (sub_ℕ v 1)).0
apply_counter_event-IsValid (active_counter j v) (counter_disabled i) h = h
apply_counter_event-IsValid (disabled_counter j v) _ h = h

fold-IsValid :
    (s : CounterState) (log : List CounterEvent)
    → IsValid s
    → IsValid (foldl apply_counter_event s log)
fold-IsValid s [] h = h
fold-IsValid s (e ∷ es) h =
    fold-IsValid (apply_counter_event s e) es (apply_counter_event-IsValid s e h)

-- Every log, in any order and with any events, replays to a state whose value is an integer between
-- 0 and 5.
pub counter_state_from-IsValid : (log : List CounterEvent) → IsValid (counter_state_from log)
unfolding counter_state_from
counter_state_from-IsValid log = fold-IsValid counter_not_created log tt

pub counter_state_from-append :
    (log more : List CounterEvent)
    → counter_state_from (log ++ more) ≡ foldl apply_counter_event (counter_state_from log) more
unfolding counter_state_from
counter_state_from-append log more = foldl-append apply_counter_event counter_not_created log more

fold_disabled :
    (i : String) (v : ℕ) (more : List CounterEvent)
    → foldl apply_counter_event (disabled_counter i v) more ≡ disabled_counter i v
unfolding apply_counter_event
fold_disabled i v [] = refl
fold_disabled i v (e ∷ more) = fold_disabled i v more

-- Once a log has disabled a counter, no later event changes its state.
pub disabled_is_final :
    (log more : List CounterEvent) (i : String) (v : ℕ)
    → counter_state_from log ≡ disabled_counter i v
    → counter_state_from (log ++ more) ≡ disabled_counter i v
disabled_is_final log more i v h =
    rw (counter_state_from-append log more, h) (fold_disabled i v more)

-- The id of the first creation of a log.
abbrev pub first_created : List CounterEvent → Option String
first_created [] = none
first_created (counter_created i ∷ _) = some i
first_created (_ ∷ es) = first_created es

-- The id that a state names.
abbrev pub named : CounterState → Option String
named counter_not_created = none
named (active_counter i _) = some i
named (disabled_counter i _) = some i

apply-named :
    (s : CounterState) (e : CounterEvent) (i : String)
    → named s ≡ some i
    → named (apply_counter_event s e) ≡ some i
unfolding apply_counter_event
apply-named counter_not_created e i h = cc
apply-named (active_counter j v) (counter_created k) i h = h
apply-named (active_counter j v) _ i h = h
apply-named (disabled_counter j v) e i h = h

fold-named :
    (s : CounterState) (log : List CounterEvent) (i : String)
    → named s ≡ some i
    → named (foldl apply_counter_event s log) ≡ some i
fold-named s [] i h = h
fold-named s (e ∷ es) i h = fold-named (apply_counter_event s e) es i (apply-named s e i h)

-- A log replays to a counter exactly if it holds a creation, and the counter keeps the id of the
-- first one; without a creation nothing is fabricated.
pub named-counter_state_from :
    (log : List CounterEvent) → named (counter_state_from log) ≡ first_created log
unfolding counter_state_from apply_counter_event
named-counter_state_from [] = refl
named-counter_state_from (counter_created i ∷ es) = fold-named _ es i refl
named-counter_state_from (counter_incremented i ∷ es) = named-counter_state_from es
named-counter_state_from (counter_decremented i ∷ es) = named-counter_state_from es
named-counter_state_from (counter_disabled i ∷ es) = named-counter_state_from es
