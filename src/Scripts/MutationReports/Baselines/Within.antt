-- ===== src/Scripts/MutationReports/Baselines/Within.antt =====
-- What scripts/lint-mutation-baselines.ts lets through.
use Prim.Native.String.{String}
use es_ts_example.Common.{
  ℕ, ◌≡◌, ◌↔◌, ◌≤◌, refl, sym, ◌∙◌, Bool, true, false, ltb, Option, none, some, List, [], ◌∷◌,
  rec_get, All, arith, if◌then◌else◌,
}
use es_ts_example.Scripts.MutationReports.{flat_map}
use es_ts_example.Scripts.MutationReports.Health.{both_empty}
use es_ts_example.Scripts.MutationReports.Baselines.{
  violations_at, violations, timing_regressions, blocking_violations, Numbers, Baseline, Current,
  violation_if, count_increase_violation, too_high, mutant_count_violation, current_violations,
}

some_inj : {A : Type 0} {a b : A} → some a ≡ some b → a ≡ b
some_inj e = cc

module _ {Number : Type 0} (numbers : Numbers Number) where
  -- The counts of a package are within its baseline.
  pub record IsWithin (baseline : Baseline Number) (current : Current Number) : Type 0 where
    pub few_mutants :
        too_high numbers
          (numbers.of_int current.mutant_count)
          (numbers.of_int baseline.mutant_count)
          "1.15"
        ≡ false
    pub errors : current.errors ≤ baseline.errors
    pub survived : current.survived ≤ baseline.survived
    pub no_coverage : current.no_coverage ≤ baseline.no_coverage

  listed :
      (condition : Bool) (message : String)
      → (violation_if condition message ≡ []) ↔ (condition ≡ false)
  unfolding violation_if
  listed true message = (λ h. cc, λ h. cc)
  listed false message = (λ _. refl, λ _. refl)

  at_most :
      (name label : String) (baseline current : ℕ)
      → (count_increase_violation name label baseline current ≡ []) ↔ (current ≤ baseline)
  unfolding count_increase_violation
  at_most name label baseline current = (
    λ h. ground (arith, (listed (ltb baseline current) _).0 h),
    λ h. (listed (ltb baseline current) _).1 (ground arith),
  )

  within :
      (baseline : Baseline Number) (current : Current Number)
      → (current_violations numbers baseline current ≡ []) ↔ IsWithin baseline current
  unfolding current_violations mutant_count_violation
  within baseline current = (
    λ h.
        let (few, h₁) = (both_empty _ _).0 h in
        let (errors, h₂) = (both_empty _ _).0 h₁ in
        let (survived, uncovered) = (both_empty _ _).0 h₂ in
        record {
          few_mutants = (listed _ _).0 few;
          errors = (at_most _ _ _ _).0 errors;
          survived = (at_most _ _ _ _).0 survived;
          no_coverage = (at_most _ _ _ _).0 uncovered;
        },
    λ h. (both_empty _ _).1 (
      (listed _ _).1 h.few_mutants,
      (both_empty _ _).1 (
        (at_most _ _ _ _).1 h.errors,
        (both_empty _ _).1 ((at_most _ _ _ _).1 h.survived, (at_most _ _ _ _).1 h.no_coverage),
      ),
    ),
  )

  module _ (baselines : List (String × Baseline Number)) where
    -- A package has a baseline, and is within it.
    abbrev pub HasRoom : Current Number → Type 0
    HasRoom current =
        (baseline : Baseline Number) × (rec_get baselines current.package_name ≡ some baseline)
        × IsWithin baseline current

    room :
        (current : Current Number) (found : Option (Baseline Number))
        → rec_get baselines current.package_name ≡ found
        → (violations_at numbers baselines current found ≡ []) ↔ HasRoom current
    room current none e = (λ h. cc, λ (baseline, found, _). cc)
    room current (some baseline) e = (
      λ h. (baseline, e, (within baseline current).0 h),
      λ (other, found, h). (within baseline current).1 (rw (some_inj (sym e ∙ found)) h),
    )

    each_room :
        (current : List (Current Number))
        → (violations numbers baselines current ≡ []) ↔ All HasRoom current
    unfolding violations flat_map
    each_room [] = (λ _. tt, λ _. refl)
    each_room (item ∷ rest) =
        let first = room item (rec_get baselines item.package_name) refl in
        (
          λ h. let (here, there) = (both_empty _ _).0 h in (first.0 here, (each_room rest).0 there),
          λ (here, there). (both_empty _ _).1 (first.1 here, (each_room rest).1 there),
        )

    -- The check blocks nothing exactly if every package with a report has a baseline that its counts are
    -- within; where it is strict, exactly if there is no timing regression either.
    pub blocking_violations_lem :
        (strict : Bool) (current : List (Current Number))
        → (blocking_violations numbers baselines strict current ≡ []) ↔ (
            All HasRoom current
            × ((if strict then timing_regressions numbers baselines current else []) ≡ []))
    unfolding blocking_violations
    blocking_violations_lem true current = (
      λ h. let (here, there) = (both_empty _ _).0 h in ((each_room current).0 here, there),
      λ (here, there). (both_empty _ _).1 ((each_room current).1 here, there),
    )
    blocking_violations_lem false current =
        (λ h. ((each_room current).0 h, refl), λ (here, _). (each_room current).1 here)
