-- ===== src/Scripts/ExceptionHealth.antt =====
-- scripts/lint-policy-exception-health.ts, over the texts of the scripts and the files that there are.
pub mod Healthy
use Prim.Native.String.{String, ◌++◌}
use mathlib.Core.List
use es_ts_example.Common.{
  Bool, true, false, not, Option, none, some, List, [], ◌∷◌, map, filter, contains, if◌then◌else◌,
}
use es_ts_example.Scripts.Policy.{
  PolicyException, policy_exceptions, policy_exception_named, some_of,
}
use es_ts_example.Scripts.MutationReports.{flat_map}
use es_ts_example.Scripts.LiteralUnions.{dedupe_from}

pub record AllowlistedPath : Type 0 where
  pub name : String
  pub path : String

-- `is_glob` tests a regular expression, `match_all` gives the first group of each match of one,
-- `includes text part` is `Str.includes`, `exists` tells whether there is a file.
module _ (is_glob : String → Bool) (match_all : String → List String)
    (includes : String → String → Bool) (exists : String → Bool) where
  unfoldable pub literal_call_site_names : List String → List String
  unfolding flat_map dedupe_from
  literal_call_site_names sources = dedupe_from [] (flat_map match_all sources)

  unfoldable pub mentioned_names : List String → List String
  unfolding some_of
  mentioned_names sources =
      filter (λ name. some_of (λ source. includes source ("\"" ++ (name ++ "\""))) sources)
        (map (λ exception. exception.name) policy_exceptions)

  unfoldable pub allowlisted_paths : List AllowlistedPath
  unfolding flat_map
  allowlisted_paths =
      flat_map
        (λ exception.
          map (λ path. record { name = exception.name; path = path })
            (filter (λ path. not (is_glob path)) exception.paths))
        policy_exceptions

  unfoldable pub missing_path_violations : List String
  unfolding allowlisted_paths
  missing_path_violations =
      map (λ entry. entry.name ++ (" allowlists " ++ (entry.path ++ ", which does not exist.")))
        (filter (λ entry. not (exists entry.path)) allowlisted_paths)

abbrev pub is_undefined : {A : Type 0} → Option A → Bool
is_undefined none = true
is_undefined (some _) = false

unfoldable pub undefined_name_violations : List String → List String
unfolding policy_exception_named
undefined_name_violations requested =
    map
      (λ name.
        "a script asks for policy exception \""
        ++ (name ++ "\", which scripts/policy-exceptions.ts does not define."))
      (filter (λ name. is_undefined (policy_exception_named name)) requested)

unfoldable pub unused_exception_violations : List String → List String
unfolding contains
unused_exception_violations used =
    map
      (λ exception.
        "policy exception \""
        ++ (exception.name ++ "\" is defined but no script asks for it; delete it or wire it up."))
      (filter (λ exception. not (contains used exception.name)) policy_exceptions)

module _ (is_glob : String → Bool) (match_all : String → List String)
    (includes : String → String → Bool) (exists : String → Bool) where
  unfoldable pub exception_health_violations : List String → List String
  unfolding missing_path_violations undefined_name_violations literal_call_site_names
      unused_exception_violations mentioned_names
  exception_health_violations sources =
      List.◌++◌ (missing_path_violations is_glob match_all includes exists) (
        List.◌++◌
          (undefined_name_violations
            (literal_call_site_names is_glob match_all includes exists sources))
          (unused_exception_violations (mentioned_names is_glob match_all includes exists sources)))
