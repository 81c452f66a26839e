-- ===== src/Scripts/ExceptionHealth/Healthy.antt =====
-- What a healthy list of exceptions is to scripts/lint-policy-exception-health.ts.
use Prim.Native.String.{String}
use es_ts_example.Common.{◌≡◌, ◌↔◌, Bool, not, false, List, [], contains, All}
use es_ts_example.Scripts.Policy.{policy_exceptions, policy_exception_named}
use es_ts_example.Scripts.CoveragePolicy.Clean.{none_reported, both_clean}
use es_ts_example.Scripts.ExceptionHealth.{
  literal_call_site_names, mentioned_names, allowlisted_paths, missing_path_violations,
  is_undefined, undefined_name_violations, unused_exception_violations, exception_health_violations,
}

module _ (is_glob : String → Bool) (match_all : String → List String)
    (includes : String → String → Bool) (exists : String → Bool) where
  -- Nothing is reported exactly if the files that the exceptions name are there, each name that a script
  -- asks for is defined, and each defined one is mentioned by a script.
  pub health_violations_lem :
      (sources : List String)
      → (exception_health_violations is_glob match_all includes exists sources ≡ []) ↔ (
          All
            (λ entry. not (exists entry.path) ≡ false)
            (allowlisted_paths is_glob match_all includes exists)
          × (All
                (λ name. is_undefined (policy_exception_named name) ≡ false)
                (literal_call_site_names is_glob match_all includes exists sources)
              × All
                  (λ exception.
                    not (
                      contains
                        (mentioned_names is_glob match_all includes exists sources)
                        exception.name)
                    ≡ false)
                  policy_exceptions))
  unfolding exception_health_violations missing_path_violations undefined_name_violations
      unused_exception_violations
  health_violations_lem sources =
      both_clean _ _
        (none_reported _ (λ entry. not (exists entry.path))
          (allowlisted_paths is_glob match_all includes exists))
        (both_clean _ _
          (none_reported _ (λ name. is_undefined (policy_exception_named name))
            (literal_call_site_names is_glob match_all includes exists sources))
          (none_reported _
            (λ exception.
              not (
                contains (mentioned_names is_glob match_all includes exists sources)
                  exception.name))
            policy_exceptions))
