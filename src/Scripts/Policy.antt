-- ===== src/Scripts/Policy.antt =====
-- scripts/policy-exceptions.ts: the named exceptions from the policies.
use Prim.Native.String.{String}
use es_ts_example.Common.{Bool, false, ◌||◌, ◌==◌, Option, none, some, List, [], ◌∷◌, if◌then◌else◌}

-- A pattern is the test of its regular expression.
pub record PolicyException : Type 0 where
  pub name : String
  pub rationale : String
  pub removal_condition : String
  pub owner_script : String
  pub paths : List String
  pub patterns : List (String → Bool)

abbrev pub policy_exceptions : List PolicyException
policy_exceptions =
    record {
      name = "mutation-runtime-boundaries";
      rationale =
          "Exclude runtime composition and adapter wiring that is exercised end-to-end rather than by unit-level mutation.";
      removal_condition =
          "Delete entries once the adapter has deterministic unit-level mutation tests.";
      owner_script = "scripts/lint-mutation-scope.ts";
      paths = "packages/web/src/mvc/jsx-runtime.ts" ∷ "packages/web/src/server.ts" ∷ [];
      patterns = [];
    }
    ∷ record {
      name = "mutation-public-barrel-boundaries";
      rationale =
          "Exclude public package barrels from mutation because their behavior is export wiring, and the Bun per-test runner eager-imports mutated barrels before tests execute.";
      removal_condition =
          "Delete once public entrypoint exports are validated by mutation-safe export contract tests or the Bun runner stops eager-importing mutated barrels.";
      owner_script = "scripts/lint-mutation-scope.ts";
      paths = "packages/web/src/index.ts" ∷ [];
      patterns = [];
    }
    ∷ record {
      name = "mutation-web-i18n-adapter-surface";
      rationale =
          "Exclude the FormatJS adapter and singleton catalog wiring from mutation. Focused formatting tests and the catalog policy cover their observable contracts; Stryker can only suppress descriptor-object and message-string mutants at file granularity.";
      removal_condition =
          "Delete once Stryker supports narrow per-line policy-owned excludes or once the i18n adapter is replaced by behaviorful first-party formatting code with mutation-oriented tests.";
      owner_script = "scripts/lint-mutation-scope.ts";
      paths = "packages/web/!src/i18n/**/*.ts" ∷ [];
      patterns = [];
    }
    ∷ record {
      name = "bdd-step-duplication-ratchet";
      rationale =
          "Domain and application currently duplicate BDD step implementations for the counter feature while their execution adapters differ.";
      removal_condition =
          "Delete each entry after shared scenario builders or re-exported steps remove the duplicate implementation.";
      owner_script = "scripts/lint-bdd-step-duplication.ts";
      paths = "packages/application/test/e2e/steps/counter.steps.ts" ∷ [];
      patterns = [];
    }
    ∷ record {
      name = "bdd-support-architecture-ratchet";
      rationale =
          "Generic BDD assertion modules predate a shared test-support assertion vocabulary.";
      removal_condition =
          "Delete each entry after shared assertions move to @es-ts-example/test-support and local support keeps only layer-specific adapters.";
      owner_script = "scripts/lint-bdd-support-architecture.ts";
      paths =
          "packages/application/test/e2e/support/Assertions.ts"
          ∷ "packages/domain/test/e2e/support/Assertions.ts" ∷ [];
      patterns = [];
    }
    ∷ []

-- `Arr.findFirst` by name.
unfoldable pub named_in : List PolicyException → String → Option PolicyException
named_in [] name = none
named_in (exception ∷ exceptions) name =
    let rest = named_in exceptions name in if exception.name == name then some exception else rest

unfoldable pub policy_exception_named : String → Option PolicyException
unfolding named_in
policy_exception_named name = named_in policy_exceptions name

-- `Arr.some`
unfoldable pub some_of : {A : Type 0} → (A → Bool) → List A → Bool
some_of p [] = false
some_of p (a ∷ rest) = p a || some_of p rest

unfoldable pub exception_allows_path : PolicyException → String → Bool
unfolding some_of
exception_allows_path exception path =
    some_of (λ allowed_path. allowed_path == path) exception.paths
    || some_of (λ pattern. pattern path) exception.patterns

unfoldable pub named_exception_allows_path : String → String → Bool
unfolding policy_exception_named exception_allows_path
named_exception_allows_path name path = elim (policy_exception_named name) [
  | none ↦ false
  | some exception ↦ exception_allows_path exception path
]
