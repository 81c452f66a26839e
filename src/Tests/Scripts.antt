-- ===== src/Tests/Scripts.antt =====
-- The theorems about the checks in scripts/, on reports, packages and texts written out.
use Prim.Native.String.{String}
use package.text.Mathlib.Text.{starts_with}
use es_ts_example.Common.{
  ℕ, ◌≡◌, ◌↔◌, refl, Bool, true, false, not, ◌&&◌, ◌||◌, ◌==◌, some, List, [], ◌∷◌, map, contains,
  rec_get, length, All,
}
use es_ts_example.Scripts.Policy.{some_of, named_exception_allows_path}
use es_ts_example.Scripts.MutationScope.{
  fixed_mutation_entry_allowed, without_bang, web_i18n_mutation_entry_allowed,
  mutation_entry_allowed,
}
use es_ts_example.Scripts.MutationScope.Allowed.{excepted, mutation_entry_allowed_lem}
use es_ts_example.Scripts.MutationReports.{mutant, MutationReport, report_violations}
use es_ts_example.Scripts.MutationReports.Health.{IsCaughtReport, report_violations_lem}
use es_ts_example.Scripts.MutationTimed.{positive_integer, PackageMutationResult, run_batches}
use es_ts_example.Scripts.MutationTimed.Batches.{run_batches_end}
use es_ts_example.Scripts.LiteralUnions.{LiteralSite, MemberUse, leaked_use}
use es_ts_example.Scripts.LiteralUnions.Owners.{has_member, has_member_at_home, leaked_use_lem}
use es_ts_example.Scripts.CoveragePolicy.{StrykerConfig, package_violations}
use es_ts_example.Scripts.CoveragePolicy.Clean.{
  HasStrict, has_script, required_scripts, finds_tests, package_violations_lem,
}

mutation_entry_allowed_lem_example : mutation_entry_allowed "packages/web" "!src/server.ts" ≡ (
    not (starts_with "!src/server.ts" "!")
    || contains excepted "!src/server.ts" && "packages/web" == "packages/web")
mutation_entry_allowed_lem_example = mutation_entry_allowed_lem "packages/web" "!src/server.ts"

mutation_entry_allowed_test : mutation_entry_allowed "packages/cli" "!src/server.ts" ≡ false
unfolding mutation_entry_allowed fixed_mutation_entry_allowed rec_get named_exception_allows_path
    without_bang web_i18n_mutation_entry_allowed contains
mutation_entry_allowed_test = refl

abbrev one_survivor : MutationReport
one_survivor = record {
  files = some (
      ("a.ts", record { mutants = some (mutant (some "Killed") ∷ mutant (some "Survived") ∷ []) })
      ∷ []);
}

report_violations_lem_example :
    (report_violations (("p", one_survivor) ∷ []) ≡ [])
    ↔ All {A = String × MutationReport}
        (λ report. IsCaughtReport report.1)
        (("p", one_survivor) ∷ [])
report_violations_lem_example = report_violations_lem (("p", one_survivor) ∷ [])

abbrev passed : String → PackageMutationResult ℕ
passed name = record { name = name; elapsed_ms = 1; exit_code = 0 }

abbrev three_packages : List String
three_packages = "a" ∷ "b" ∷ "c" ∷ []

run_batches_end_example :
    run_batches passed (positive_integer (some "02") 1) (length three_packages) three_packages
    ≡ some (map passed three_packages)
run_batches_end_example = run_batches_end passed (some "02") three_packages

positive_integer_test : positive_integer (some "12") 1 ≡ 12
unfolding positive_integer
positive_integer_test = refl

abbrev verbs : LiteralSite
verbs = record { file = "verbs.ts"; line = 3; members = "up" ∷ "down" ∷ [] }

abbrev raw_use : MemberUse
raw_use = record { file = "run.ts"; line = 7; member = "up" }

leaked_use_lem_example : leaked_use (verbs ∷ []) raw_use ≡ (
    some_of (has_member raw_use) (verbs ∷ [])
    && not (some_of (has_member_at_home raw_use) (verbs ∷ [])))
leaked_use_lem_example = leaked_use_lem (verbs ∷ []) raw_use

abbrev matches_nothing : String → String → Bool
matches_nothing pattern text = false

abbrev has_all : String → Bool
has_all path = true

abbrev one_script : List (String × String)
one_script = ("test:unit", "bun test --coverage ./test/unit") ∷ []

abbrev strict : StrykerConfig
strict = record {
  thresholds = ("high", some 100) ∷ ("low", some 100) ∷ ("break", some 100) ∷ [];
  test_files = some (some "test/unit/index.test.ts" ∷ []);
}

package_violations_lem_example :
    (package_violations matches_nothing has_all "packages/cli" one_script (some strict) ≡ []) ↔ (
      (has_all "packages/cli/bunfig.toml" ≡ true)
      × (All (λ name. has_script one_script name ≡ true) required_scripts
          × (All
                (λ entry. finds_tests matches_nothing has_all "packages/cli" entry.1 ≡ true)
                one_script
              × HasStrict (some strict))))
package_violations_lem_example =
    package_violations_lem matches_nothing has_all "packages/cli" one_script (some strict)
