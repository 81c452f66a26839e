-- ===== src/Linter/Sources.antt =====
-- oxlint-plugins/es-ts-example/rules: shared/policy-paths.mjs, shared/source-rule.mjs and the rules that test
-- the text of a file: test-fixture-boundaries, import-runtime-boundaries and public-entrypoint-policy.
pub mod Entrypoints
use Prim.Native.String.{String, ◌++◌}
use mathlib.Core.List
use es_ts_example.Common.{
  ℕ, ltb, Bool, true, false, not, ◌||◌, ◌&&◌, ◌==◌, Option, none, some, List, [], ◌∷◌,
  if◌then◌else◌,
}
use es_ts_example.Scripts.Policy.{some_of}
use es_ts_example.Linter.{Engine}
use es_ts_example.Linter.Paths.{normalize_filename, web_source_path}

-- `after_marker text marker` is the text from behind the first character of the first occurrence of a marker.
module _ (engine : Engine) (after_marker : String → String → Option String) where
  unfoldable pub from_markers : String → List String → String
  from_markers normalized [] = engine.replace "^\\/+" "" normalized
  from_markers normalized (marker ∷ markers) =
      let rest = from_markers normalized markers in
      elim (after_marker normalized marker) [ none ↦ rest | some relative ↦ relative ]

  unfoldable pub relative_filename : String → String
  unfolding from_markers normalize_filename
  relative_filename filename =
      let normalized = normalize_filename engine filename in
      if engine.matches "^(?:packages|scripts|test)\\/" normalized
      then normalized
      else from_markers normalized ("/packages/" ∷ "/scripts/" ∷ "/test/" ∷ [])

  unfoldable pub path_matches_policy_entry : String → String → Bool
  path_matches_policy_entry filename entry =
      filename == entry || engine.ends_with filename ("/" ++ entry)

  unfoldable pub path_allowed_by_policy : String → List String → List String → Bool
  unfolding relative_filename path_matches_policy_entry some_of
  path_allowed_by_policy filename paths patterns =
      let relative = relative_filename filename in
      some_of (λ entry. path_matches_policy_entry relative entry) paths
      || some_of (λ pattern. engine.matches pattern relative) patterns

  -- A rule of a text, which tells whether it reports the program.
  unfoldable pub source_rule : List String → (String → Bool) → String → String → Bool
  unfolding some_of
  source_rule patterns should_run filename text =
      if not (should_run filename)
      then false
      else some_of (λ pattern. engine.matches pattern text) patterns

  abbrev pub fixture_ratchet : List String
  fixture_ratchet =
      "packages/application/test/unit/index.test.ts"
      ∷ "packages/web/test/unit/web-infrastructure.test.ts" ∷ []

  unfoldable pub fixture_should_run : String → Bool
  unfolding path_allowed_by_policy
  fixture_should_run filename =
      engine.matches "\\/(?:packages\\/[^/]+\\/test|test)\\/.*\\.tsx?$" filename
      && not (path_allowed_by_policy filename fixture_ratchet [])

  -- The reports of a rule, by their messages.
  unfoldable pub test_fixture_boundaries : String → String → List String
  unfolding fixture_should_run
  test_fixture_boundaries filename text =
      if not (fixture_should_run filename)
      then []
      else List.◌++◌
          (if engine.matches "\\/packages\\/[^/]+\\/test\\/unit\\/.*\\.test\\.tsx?$" filename
              && engine.matches
                  "from\\s+[\"'][^\"']*(?:^|\\/)src\\/(?:demo|.*-demo|party\\/party-demo)(?:\\.ts)?[\"']"
                  text
            then "demoImport" ∷ []
            else [])
          (if engine.matches "\\b(?:Stryker was here|Mutation sentinel|noCover[A-Z0-9_])" text
            then "sentinel" ∷ []
            else [])

  unfoldable pub package_production_path : String → Bool
  package_production_path filename =
      engine.matches "\\/packages\\/[^/]+\\/(?:src|bin)\\/" filename
      && not (engine.matches "\\/packages\\/test-support\\/src\\/" filename)

  abbrev pub runtime_boundary_patterns : List String
  runtime_boundary_patterns =
      "from\\s+[\"'](?:fs|fs\\/promises|node:fs|node:fs\\/promises)[\"']"
      ∷ "from\\s+[\"'](?:effect\\/Config|effect\\/ConfigProvider)[\"']"
      ∷ "[\"'`]https:\\/\\/(?:picsum\\.photos|media\\.es-ts-example\\.local)"
      ∷ "[\"'`](?:\\/|#[A-Za-z0-9_-]*[g-zG-Z][A-Za-z0-9_-]*)"
      ∷ "\\bpathname\\b|\\brequest\\.url\\b|\\bUrl\\.fromString\\s*\\("
      ∷ "\\bBun\\.(?:env|file|spawn|spawnSync)\\b" ∷ []

  abbrev pub runtime_test_support_ratchet : List String
  runtime_test_support_ratchet =
      "packages/application/bin/main.ts" ∷ "packages/cli/bin/main.ts"
      ∷ "packages/event-sourcing/bin/main.ts" ∷ []

  unfoldable pub should_run_runtime_boundary : String → Bool
  unfolding package_production_path web_source_path
  should_run_runtime_boundary filename =
      (package_production_path filename || web_source_path engine filename)
      && (not (engine.matches "\\/packages\\/cli\\/bin\\/" filename)
          && (not (
                engine.matches "\\/packages\\/web\\/src\\/(?:routes|server|mvc\\/jsx-runtime)\\.ts$"
                  filename)
              && not (engine.matches "\\/packages\\/web\\/bin\\/" filename)))

  unfoldable pub violates_runtime_boundary : String → String → Bool
  unfolding should_run_runtime_boundary some_of
  violates_runtime_boundary filename text =
      should_run_runtime_boundary filename
      && some_of (λ pattern. engine.matches pattern text) runtime_boundary_patterns

  unfoldable pub violates_runtime_test_support_boundary : String → String → Bool
  unfolding path_allowed_by_policy
  violates_runtime_test_support_boundary filename text =
      engine.matches "\\/packages\\/(?!test-support\\/)[^/]+\\/(?:src|bin)\\/.*\\.tsx?$" filename
      && (not (path_allowed_by_policy filename runtime_test_support_ratchet [])
          && engine.matches
              "from\\s+[\"'](?:@es-ts-example\\/test-support|[^\"']*packages\\/test-support|[^\"']*\\/test-support\\/src)"
              text)

  unfoldable pub violates_seed_boundary : String → String → Bool
  violates_seed_boundary filename text =
      engine.matches "\\/packages\\/[^/]+\\/src\\/.*(?:controller|server|rpc)[^/]*\\.(?:ts|tsx)$"
        filename
      && engine.matches "from\\s+[\"'][^\"']*(?:Seed|seed|Fixture|fixture)[^\"']*[\"']" text

  unfoldable pub import_runtime_boundaries : String → String → Bool
  unfolding violates_runtime_boundary violates_runtime_test_support_boundary violates_seed_boundary
  import_runtime_boundaries filename text =
      violates_runtime_boundary filename text
      || (violates_runtime_test_support_boundary filename text
          || violates_seed_boundary filename text)

  -- `count_matches pattern text` counts the matches of a pattern.
  module _ (count_matches : String → String → ℕ) where
    unfoldable pub public_entrypoint_policy : String → String → List String
    unfolding path_allowed_by_policy
    public_entrypoint_policy filename text =
        if not (engine.matches "\\/packages\\/[^/]+\\/src\\/index\\.ts$" filename)
        then []
        else List.◌++◌
            (if engine.matches "export\\s+.*from\\s+[\"'][^\"']*(?:Seed|seed)[^\"']*[\"']" text
              then "seedExport" ∷ []
              else [])
            (if ltb 50 (count_matches "^export\\s" text)
                && not (path_allowed_by_policy filename ("packages/web/src/index.ts" ∷ []) [])
              then "tooManyExports" ∷ []
              else [])
