-- ===== src/Scripts/CoveragePolicy.antt =====
-- scripts/lint-coverage-policy.ts, over the files that it reads. The regular expressions are written out
-- and tested by the engine, a parameter.
pub mod Clean
use Prim.Native.String.{String, ◌++◌}
use mathlib.Core.List
use mathlib.Core.Option.{get_or}
use es_ts_example.Common.{
  ℕ, Bool, true, false, not, ◌||◌, ◌==◌, nat_beq, Option, none, some, List, [], ◌∷◌, map, filter,
  filter_map, contains, rec_get, if◌then◌else◌,
}
use es_ts_example.Scripts.Policy.{some_of}
use es_ts_example.Scripts.MutationReports.{flat_map}

abbrev pub allowed_ignore_values : List String
allowed_ignore_values =
    "bin/main.ts" ∷ "bin/runtime.ts" ∷ "src/server.ts" ∷ "**/bin/runtime.ts" ∷ "**/src/server.ts"
    ∷ []

abbrev pub allowed_ignore_patterns : List String
allowed_ignore_patterns =
    "^bin\\/[A-Za-z0-9]+Seed\\.ts$" ∷ "^\\*\\*\\/bin\\/[A-Za-z0-9]+Seed\\.ts$"
    ∷ "^\\.\\.\\/[a-z0-9-]+\\/\\*\\*$" ∷ []

unfoldable pub threshold_is_100 : String → Bool
threshold_is_100 value =
    value == "1.0"
    || value == "{ lines = 1.0, functions = 1.0, statements = 1.0 }"
    || value == "{ lines = 1.0, statements = 1.0 }"

-- A value that is no array is `none`, an element that is no text too.
unfoldable pub strings_only : Option (List (Option String)) → List String
unfolding filter_map
strings_only none = []
strings_only (some values) = filter_map (λ value. value) values

abbrev is_none : {A : Type 0} → Option A → Bool
is_none none = true
is_none (some _) = false

unfoldable pub missing_record_key : List (String × String) → String → Bool
unfolding rec_get
missing_record_key entries key = is_none (rec_get entries key)

unfoldable pub compact_options : {A : Type 0} → List (Option A) → List A
unfolding filter_map
compact_options values = filter_map (λ value. value) values

unfoldable pub common_script_names : List String
common_script_names =
    "build" ∷ "build:types" ∷ "check" ∷ "typecheck" ∷ "format" ∷ "format:check" ∷ "format:write"
    ∷ "lint" ∷ "lint:oxlint" ∷ "lint:types" ∷ "test" ∷ "test:coverage" ∷ "test:property"
    ∷ "test:unit" ∷ "e2e" ∷ "acceptance" ∷ "mutation" ∷ "precommit" ∷ []

unfoldable pub root_policy_script_names : List String
root_policy_script_names =
    "build:tools" ∷ "lint:policy" ∷ "lint:mutation-scope" ∷ "lint:stryker-config"
    ∷ "lint:unit-test-architecture" ∷ "lint:mutation-report-health" ∷ "lint:mutation-baselines"
    ∷ "lint:noop-scripts" ∷ "lint:repo-path-policy" ∷ "lint:suppression-policy"
    ∷ "lint:web-ui-components" ∷ []

abbrev pub exact_script_directories : List (String × String)
exact_script_directories =
    ("bun test ./test/property", "test/property")
    ∷ ("bun test --coverage ./test/unit", "test/unit")
    ∷ ("bun test --no-coverage ./test/e2e", "test/e2e")
    ∷ []

-- `matches pattern text` is `pattern.test(text)`; `match_all` gives the groups of each match of a global
-- pattern, the whole match left out.
module _ (matches : String → String → Bool) (match_all : String → String → List String)
    (trim : String → String) where
  unfoldable pub allowed_ignore : String → Bool
  unfolding some_of contains
  allowed_ignore value =
      contains allowed_ignore_values value
      || some_of (λ pattern. matches pattern value) allowed_ignore_patterns

  unfoldable pub coverage_ignore_values : String → List String
  unfolding flat_map
  coverage_ignore_values text =
      flat_map (match_all "\"([^\"]+)\"")
        (match_all "coveragePathIgnorePatterns\\s*=\\s*\\[([^\\]]*)\\]" text)

  unfoldable pub coverage_threshold_values : String → List String
  coverage_threshold_values text = map trim (match_all "coverageThreshold\\s*=\\s*([^\\n]+)" text)

  -- The entries are the paths and texts of the files `bunfig.toml`.
  unfoldable pub bunfig_violations : List (String × String) → List String
  unfolding flat_map coverage_ignore_values coverage_threshold_values allowed_ignore
      threshold_is_100
  bunfig_violations entries =
      List.◌++◌
        (flat_map
          (λ entry.
            map (λ value. entry.0 ++ (": " ++ value))
              (filter (λ value. not (allowed_ignore value)) (coverage_ignore_values entry.1)))
          entries)
        (flat_map
          (λ entry.
            map (λ value. entry.0 ++ (": coverageThreshold = " ++ value))
              (filter (λ value. not (threshold_is_100 value)) (coverage_threshold_values entry.1)))
          entries)

module _ (matches : String → String → Bool) where
  unfoldable pub is_e2e_steps_script : String → Bool
  is_e2e_steps_script script =
      script == "bun test ./test/e2e/**/*.steps.ts"
      || script == "bun test --no-coverage ./test/e2e/**/*.steps.ts"
      || matches
          "^bunx --bun effect-bdd --features \"test\\/e2e\\/\\*\\*\\/\\*\\.feature\" --steps \"test\\/e2e\\/\\*\\*\\/\\*\\.steps\\.ts\" --reporter text$"
          script

  abbrev exact_or : String → Option String → Option String
  exact_or script (some directory) = some directory
  exact_or script none = if is_e2e_steps_script script then some "test/e2e" else none

  unfoldable pub required_directory_for_script : String → Option String
  unfolding rec_get is_e2e_steps_script
  required_directory_for_script script = exact_or script (rec_get exact_script_directories script)

-- The parsed configuration; a threshold is a number, or something else.
pub record StrykerConfig : Type 0 where
  pub thresholds : List (String × Option ℕ)
  pub test_files : Option (List (Option String))

abbrev pub is_100 : Option (Option ℕ) → Bool
is_100 none = false
is_100 (some none) = false
is_100 (some (some n)) = nat_beq n 100

unfoldable pub is_broad : String → Bool
is_broad value = value == "test/**/*.test.ts" || value == "test/**/*.property.test.ts"

abbrev pub threshold_names : List String
threshold_names = "high" ∷ "low" ∷ "break" ∷ []

-- `none` is a configuration that does not exist.
unfoldable pub stryker_violations : String → Option StrykerConfig → List String
unfolding rec_get strings_only is_broad
stryker_violations directory none = (directory ++ ": missing stryker.config.json") ∷ []
stryker_violations directory (some config) =
    let path = directory ++ "/stryker.config.json" in
    List.◌++◌
      (map (λ name. path ++ (": thresholds." ++ (name ++ " must be 100")))
        (filter (λ name. not (is_100 (rec_get config.thresholds name))) threshold_names))
      (map (λ value. path ++ (": bun.testFiles should use explicit unit/property globs: " ++ value))
        (filter is_broad (strings_only config.test_files)))

module _ (matches : String → String → Bool) (file_exists : String → Bool) where
  abbrev pub missing_directory : String → String → String → Option String → Option String
  missing_directory directory path name none = none
  missing_directory directory path name (some required) =
      if file_exists (directory ++ ("/" ++ required))
      then none
      else some (path ++ (": scripts." ++ (name ++ (" references missing " ++ required))))

  -- `packageViolations` for one directory, with the scripts of its manifest and its configuration.
  unfoldable pub package_violations :
      String → List (String × String) → Option StrykerConfig → List String
  unfolding missing_record_key compact_options required_directory_for_script stryker_violations
  package_violations directory scripts stryker =
      let path = directory ++ "/package.json" in
      List.◌++◌
        (if file_exists (directory ++ "/bunfig.toml")
          then []
          else (directory ++ ": missing bunfig.toml") ∷ [])
        (List.◌++◌
          (map (λ name. path ++ (": missing scripts." ++ name))
            (filter (missing_record_key scripts) common_script_names))
          (List.◌++◌
            (compact_options (
              map
                (λ entry.
                  missing_directory directory path entry.0
                    (required_directory_for_script matches entry.1))
                scripts))
            (stryker_violations directory stryker)))

unfoldable pub root_package_violations : List (String × String) → List String
unfolding missing_record_key
root_package_violations scripts =
    map (λ name. "package.json: missing scripts." ++ name)
      (filter (missing_record_key scripts) root_policy_script_names)
