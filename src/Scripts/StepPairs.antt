-- ===== src/Scripts/StepPairs.antt =====
-- scripts/lint-bdd-step-duplication.ts and scripts/lint-bdd-support-architecture.ts, over the step files and
-- their texts.
pub mod Duplicates
use Prim.Native.String.{String, ◌++◌}
use es_ts_example.Common.{
  Bool, true, false, not, ◌||◌, Option, none, some, List, [], ◌∷◌, map, filter, contains,
  if◌then◌else◌,
}
use es_ts_example.Scripts.{Violation}
use es_ts_example.Scripts.Policy.{named_exception_allows_path}
use es_ts_example.Scripts.CoveragePolicy.{compact_options}

pub record StepPair : Type 0 where
  pub relative_path : String
  pub domain_path : String
  pub application_path : String

abbrev pub domain_steps_root : String
domain_steps_root = "packages/domain/test/e2e/steps/"

abbrev pub application_steps_root : String
application_steps_root = "packages/application/test/e2e/steps/"

unfoldable pub application_path_for : String → String
application_path_for relative_path = application_steps_root ++ relative_path

-- `remove_first part text` drops the first occurrence of a part; `is_pure_re_export` tells whether the text
-- of a file is a re-export and nothing else; `step_files` lists the step files below a directory.
module _ (remove_first : String → String → String) (is_pure_re_export : String → Bool)
    (step_files : String → List String) where
  unfoldable pub relative_step_path : String → String → String
  relative_step_path root path = remove_first root path

  unfoldable pub step_pair : String → StepPair
  unfolding relative_step_path application_path_for
  step_pair domain_path =
      let relative_path = relative_step_path domain_steps_root domain_path in
      record {
        relative_path = relative_path;
        domain_path = domain_path;
        application_path = application_path_for relative_path;
      }

  unfoldable pub pairs : List StepPair
  unfolding step_pair contains relative_step_path application_path_for
  pairs =
      let application_files = step_files application_steps_root in
      map step_pair (
        filter
          (λ domain_path.
            contains application_files
              (application_path_for (relative_step_path domain_steps_root domain_path)))
          (step_files domain_steps_root))

  unfoldable pub violation_for_pair : StepPair → Option Violation
  violation_for_pair pair =
      if is_pure_re_export pair.domain_path || is_pure_re_export pair.application_path
      then none
      else some (record {
        path = pair.application_path;
        message =
            pair.relative_path
            ++ " duplicates domain and application step implementations; share scenario builders or re-export one side.";
      })

  unfoldable pub step_violations : List Violation
  unfolding pairs violation_for_pair compact_options named_exception_allows_path
  step_violations =
      filter
        (λ violation.
          not (named_exception_allows_path "bdd-step-duplication-ratchet" violation.path))
        (compact_options (map violation_for_pair pairs))

-- scripts/lint-bdd-support-architecture.ts; `is_generic` tests its regular expression.
unfoldable pub support_architecture_violations : (String → Bool) → List String → List Violation
unfolding named_exception_allows_path
support_architecture_violations is_generic tracked_text_files =
    map
      (λ path. record {
        path = path;
        message =
            "generic BDD assertions belong in @es-ts-example/test-support; keep only layer-specific adapters in package e2e support.";
      })
      (filter (λ path. not (named_exception_allows_path "bdd-support-architecture-ratchet" path))
        (filter is_generic tracked_text_files))
