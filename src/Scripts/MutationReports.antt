-- ===== src/Scripts/MutationReports.antt =====
-- scripts/lint-mutation-report-health.ts and scripts/lint-mutation-baselines.ts: what the reports of
-- mutation runs tell, once they are parsed.
pub mod Health
pub mod Baselines
use Prim.Native.String.{String, ◌++◌}
use mathlib.Core.Option.{get_or}
use mathlib.Core.List
use es_ts_example.Common.{
  ℕ, ◌+◌, Bool, true, false, ◌==◌, nat_beq, Option, none, some, List, [], ◌∷◌, map, filter_map,
  filter, length, if◌then◌else◌,
}
use es_ts_example.Common.Decimal.{show}

-- An element of `mutants`: an object, with its status if that is a text; or no object.
pub data MutantJson : Type 0 where
  mutant : Option String → MutantJson
  no_object : MutantJson

-- A file of a report has its mutants, or something that is no array.
pub record MutationFile : Type 0 where
  pub mutants : Option (List MutantJson)

pub record MutationReport : Type 0 where
  pub files : Option (List (String × MutationFile))

-- The status of an object.
abbrev pub object_status : MutantJson → Option (Option String)
object_status (mutant status) = some status
object_status no_object = none

unfoldable pub flat_map : {A B : Type 0} → (A → List B) → List A → List B
flat_map f [] = []
flat_map f (a ∷ rest) = List.◌++◌ (f a) (flat_map f rest)

-- `mutantsFromReport`: the statuses of the mutants.
unfoldable pub mutants_from_report : MutationReport → List (Option String)
unfolding flat_map filter_map
mutants_from_report report =
    filter_map object_status (flat_map (λ file. get_or file.1.mutants []) (get_or report.files []))

abbrev pub has_status : String → Option String → Bool
has_status status none = false
has_status status (some found) = found == status

unfoldable pub count_status : List (Option String) → String → ℕ
count_status mutants status = length (filter (has_status status) mutants)

pub record ReportSummary : Type 0 where
  pub path : String
  pub survived : ℕ
  pub no_coverage : ℕ
  pub timeout : ℕ
  pub errors : ℕ

unfoldable pub report_summary : String → MutationReport → ReportSummary
unfolding mutants_from_report count_status
report_summary path report =
    let mutants = mutants_from_report report in
    record {
      path = path;
      survived = count_status mutants "Survived";
      no_coverage = count_status mutants "NoCoverage";
      timeout = count_status mutants "Timeout";
      errors = count_status mutants "CompileError" + count_status mutants "RuntimeError";
    }

unfoldable pub health_violations : ReportSummary → List String
health_violations summary =
    List.◌++◌
      (if nat_beq summary.survived 0
        then []
        else (summary.path ++ (": " ++ (show summary.survived ++ " surviving mutants."))) ∷ [])
      (if nat_beq summary.no_coverage 0
        then []
        else (summary.path ++ (": " ++ (show summary.no_coverage ++ " no-coverage mutants."))) ∷ [])

-- The violations of the reports, by path.
unfoldable pub report_violations : List (String × MutationReport) → List String
unfolding flat_map report_summary health_violations
report_violations reports =
    flat_map health_violations (map (λ report. report_summary report.0 report.1) reports)
