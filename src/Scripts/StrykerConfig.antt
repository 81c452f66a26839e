-- ===== src/Scripts/StrykerConfig.antt =====
-- scripts/lint-stryker-config.ts, over the files of the repository and the configuration of a package. The
-- regular expressions, the globs and the order of texts are parameters.
pub mod Tests
use Prim.Native.String.{String, ◌++◌}
use package.text.Mathlib.Text.{starts_with}
use mathlib.Core.List
use es_ts_example.Common.{
  ℕ, Bool, true, false, not, ◌||◌, ◌&&◌, ◌==◌, nat_beq, Option, none, some, List, [], ◌∷◌, map,
  filter, contains, rec_get, if◌then◌else◌,
}
use es_ts_example.Scripts.{Violation}
use es_ts_example.Scripts.Policy.{some_of}
use es_ts_example.Scripts.MutationScope.{without_bang}
use es_ts_example.Scripts.CoveragePolicy.{strings_only, is_100, threshold_names}

pub record Config : Type 0 where
  pub coverage_analysis : Option String
  pub mutate : Option (List (Option String))
  pub reporters : Option (List (Option String))
  pub thresholds : List (String × Option ℕ)
  pub test_files : Option (List (Option String))

unfoldable pub set_difference : List String → List String → List String
unfolding contains
set_difference left right = filter (λ item. not (contains right item)) left

-- The packages that have source files.
unfoldable pub package_directories : List String → List String → List String
unfolding some_of
package_directories tracked_files directories =
    filter (λ path. some_of (λ file. starts_with file (path ++ "/src/")) tracked_files) directories

abbrev violation : String → String → Violation
violation path message = record { path = path; message = message }

abbrev pub is_per_test : Option String → Bool
is_per_test none = false
is_per_test (some value) = value == "perTest"

-- `matches pattern text` is `pattern.test(text)`, `normalized_test_file` replaces the directory of the
-- package by "./", `glob_matches` tells whether a glob finds a file in a directory.
module _ (matches : String → String → Bool) (normalized_test_file : String → String)
    (includes : String → String → Bool) (sort : List String → List String)
    (glob_matches : String → String → Bool) (tracked_files : List String) where
  unfoldable pub discovered_unit_test_files : String → List String
  discovered_unit_test_files directory = sort (
      map normalized_test_file (
        filter (λ path. not (includes path "/support/"))
          (filter (matches "\\.(?:test\\.ts|test\\.tsx)$")
            (filter (λ path. starts_with path (directory ++ "/test/unit/")) tracked_files))))

  unfoldable pub source_matches_exclude : String → String → Bool
  unfolding without_bang contains
  source_matches_exclude directory exclude =
      let pattern = without_bang exclude in
      if not (matches "[*?[\\]{}]" pattern)
      then contains tracked_files (directory ++ ("/" ++ pattern))
      else glob_matches directory pattern

  unfoldable pub config_violations : String → Config → List Violation
  unfolding strings_only discovered_unit_test_files set_difference source_matches_exclude contains
      rec_get
  config_violations directory config =
      let path = directory ++ "/stryker.config.json" in
      let test_files = sort (strings_only config.test_files) in
      let discovered = discovered_unit_test_files directory in
      List.◌++◌
        (if is_per_test config.coverage_analysis
          then []
          else violation path "coverageAnalysis must be \"perTest\"." ∷ [])
        (List.◌++◌
          (map (λ name. violation path ("thresholds." ++ (name ++ " must be 100.")))
            (filter (λ name. not (is_100 (rec_get config.thresholds name))) threshold_names))
          (List.◌++◌
            (if contains (strings_only config.reporters) "json"
              then []
              else violation path "reporters must include \"json\" for report-health checks." ∷ [])
            (List.◌++◌
              (map (λ entry. violation path ("bun.testFiles is missing " ++ (entry ++ ".")))
                (set_difference discovered test_files))
              (List.◌++◌
                (map
                  (λ entry. violation path ("bun.testFiles references missing " ++ (entry ++ ".")))
                  (set_difference test_files discovered))
                (map
                  (λ entry.
                    violation path
                      ("mutation exclude " ++ (entry ++ " does not match any source file.")))
                  (filter (λ entry. not (source_matches_exclude directory entry))
                    (filter (λ entry. starts_with entry "!") (strings_only config.mutate))))))))
