-- ===== src/Scripts/MutationReports/Baselines.antt =====
-- scripts/lint-mutation-baselines.ts. The arithmetic of JavaScript's numbers, which are no integers where
-- a count is multiplied or a time is measured, is a parameter.
pub mod Within
use Prim.Native.String.{String, ◌++◌}
use mathlib.Core.Option.{get_or}
use mathlib.Core.List
use es_ts_example.Common.{
  ℕ, ◌+◌, ◌≡◌, ◌↔◌, Bool, true, false, ◌&&◌, ltb, Option, none, some, List, [], ◌∷◌, map, length,
  rec_get, if◌then◌else◌,
}
use es_ts_example.Common.Decimal.{show}
use es_ts_example.Scripts.MutationReports.{
  MutationReport, mutants_from_report, count_status, flat_map,
}

-- JavaScript's numbers: those of the integers, the product with a literal, the difference, the order and
-- the text of a number.
pub record Numbers (Number : Type 0) : Type 0 where
  pub of_int : ℕ → Number
  pub times : Number → (literal : String) → Number
  pub minus : Number → Number → Number
  pub greater : Number → Number → Bool
  pub to_text : Number → String

pub record Baseline (Number : Type 0) : Type 0 where
  pub wall_time_ms : Number
  pub mutant_count : ℕ
  pub timeouts : ℕ
  pub errors : ℕ
  pub survived : ℕ
  pub no_coverage : ℕ

pub record Current (Number : Type 0) : Type 0 where
  pub package_name : String
  pub mutant_count : ℕ
  pub timeouts : ℕ
  pub errors : ℕ
  pub survived : ℕ
  pub no_coverage : ℕ
  pub wall_time_ms : Option Number

unfoldable pub violation_if : Bool → String → List String
violation_if condition message = if condition then message ∷ [] else []

unfoldable pub count_increase_violation : String → String → ℕ → ℕ → List String
unfolding violation_if
count_increase_violation package_name label baseline current = violation_if (ltb baseline current) (
    package_name
    ++ (": "
        ++ (label ++ (" increased from " ++ (show baseline ++ (" to " ++ (show current ++ ".")))))))

-- `timing` has the elapsed times of packages that are numbers; the report is that of the package.
unfoldable pub current_for_report :
    {Number : Type 0} → String → List (String × Number) → MutationReport → Current Number
current_for_report package_name timing report =
    let mutants = mutants_from_report report in
    record {
      package_name = package_name;
      mutant_count = length mutants;
      timeouts = count_status mutants "Timeout";
      errors = count_status mutants "CompileError" + count_status mutants "RuntimeError";
      survived = count_status mutants "Survived";
      no_coverage = count_status mutants "NoCoverage";
      wall_time_ms = rec_get timing package_name;
    }

module _ {Number : Type 0} (numbers : Numbers Number) where
  unfoldable pub too_high : Number → Number → String → Bool
  too_high current baseline multiplier = numbers.greater current (numbers.times baseline multiplier)

  abbrev pub minimum_wall_time_regression_ms : Number
  minimum_wall_time_regression_ms = numbers.of_int 30000

  unfoldable pub mutant_count_violation : Baseline Number → Current Number → List String
  unfolding too_high violation_if
  mutant_count_violation baseline current =
      violation_if
        (too_high (numbers.of_int current.mutant_count) (numbers.of_int baseline.mutant_count)
          "1.15")
        (current.package_name
          ++ (": mutant count "
              ++ (show current.mutant_count
                  ++ (" exceeds baseline "
                      ++ (show baseline.mutant_count ++ " by more than 15%.")))))

  abbrev regression_of : Baseline Number → Option Number → Bool
  regression_of baseline none = false
  regression_of baseline (some time) =
      too_high time baseline.wall_time_ms "1.2"
      && numbers.greater (numbers.minus time baseline.wall_time_ms) minimum_wall_time_regression_ms

  unfoldable pub is_wall_time_regression : Baseline Number → Current Number → Bool
  unfolding too_high
  is_wall_time_regression baseline current = regression_of baseline current.wall_time_ms

  abbrev time_text : Option Number → String
  time_text none = "undefined"
  time_text (some time) = numbers.to_text time

  unfoldable pub wall_time_violation : Baseline Number → Current Number → List String
  unfolding is_wall_time_regression violation_if
  wall_time_violation baseline current = violation_if (is_wall_time_regression baseline current) (
      current.package_name
      ++ (": mutation time "
          ++ (time_text current.wall_time_ms
              ++ ("ms exceeds baseline "
                  ++ (numbers.to_text baseline.wall_time_ms
                      ++ ("ms by more than 20% and more than "
                          ++ (numbers.to_text minimum_wall_time_regression_ms ++ "ms.")))))))

  unfoldable pub current_violations : Baseline Number → Current Number → List String
  unfolding mutant_count_violation count_increase_violation
  current_violations baseline current = List.◌++◌ (mutant_count_violation baseline current) (
      List.◌++◌
        (count_increase_violation current.package_name "error mutants" baseline.errors
          current.errors)
        (List.◌++◌
          (count_increase_violation current.package_name "surviving mutants" baseline.survived
            current.survived)
          (count_increase_violation current.package_name "no-coverage mutants" baseline.no_coverage
            current.no_coverage)))

  unfoldable pub timing_warnings : Baseline Number → Current Number → List String
  unfolding wall_time_violation count_increase_violation
  timing_warnings baseline current = List.◌++◌ (wall_time_violation baseline current) (
      count_increase_violation current.package_name "timeout mutants" baseline.timeouts
        current.timeouts)

  module _ (baselines : List (String × Baseline Number)) where
    abbrev pub violations_at : Current Number → Option (Baseline Number) → List String
    violations_at item none =
        (item.package_name ++ ": missing mutation baseline in policy/mutation-baselines.json.") ∷ []
    violations_at item (some baseline) = current_violations baseline item

    abbrev warnings_at : Current Number → Option (Baseline Number) → List String
    warnings_at item none = []
    warnings_at item (some baseline) = timing_warnings baseline item

    unfoldable pub violations : List (Current Number) → List String
    unfolding flat_map current_violations
    violations current =
        flat_map (λ item. violations_at item (rec_get baselines item.package_name)) current

    unfoldable pub timing_regressions : List (Current Number) → List String
    unfolding flat_map timing_warnings
    timing_regressions current =
        flat_map (λ item. warnings_at item (rec_get baselines item.package_name)) current

    -- `strictBaselineViolations`, on the value of `strictBaseline`.
    unfoldable pub blocking_violations : Bool → List (Current Number) → List String
    unfolding violations timing_regressions
    blocking_violations strict current =
        if strict
        then List.◌++◌ (violations current) (timing_regressions current)
        else violations current
