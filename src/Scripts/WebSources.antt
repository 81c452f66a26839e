-- ===== src/Scripts/WebSources.antt =====
-- scripts/lint-web-css-tokens.ts and scripts/lint-web-ui-components.ts, over the texts of the web package,
-- and the coverage that scripts/lint-custom-rule-tests.ts asks for.
pub mod Checked
use Prim.Native.String.{String, ◌++◌}
use mathlib.Core.List
use es_ts_example.Common.{
  ℕ, suc, Bool, true, false, not, Option, none, some, List, [], ◌∷◌, map, filter, contains,
  if◌then◌else◌,
}
use es_ts_example.Common.Decimal.{show}
use es_ts_example.Scripts.MutationReports.{flat_map}
use es_ts_example.Scripts.LiteralUnions.{dedupe_from}
use es_ts_example.Scripts.CoveragePolicy.{compact_options}

pub record TokenUse : Type 0 where
  pub file : String
  pub line : ℕ
  pub token : String

abbrev defined_name : Option String → List String
defined_name none = []
defined_name (some name) = ("es-ts-example-" ++ name) ∷ []

-- The tokens of lines from a number on.
unfoldable pub uses_from : (String → List String) → String → ℕ → List String → List TokenUse
uses_from match_tokens file line [] = []
uses_from match_tokens file line (text ∷ rest) =
    List.◌++◌
      (map (λ token. record { file = file; line = line; token = token }) (match_tokens text))
      (uses_from match_tokens file (suc line) rest)

-- `match_definitions` gives the first group of each definition in a style sheet, `match_tokens` the tokens of
-- a line, `source_lines` the lines of a file without the ids of designs.
module _ (match_definitions : String → List (Option String)) (match_tokens : String → List String)
    (source_lines : String → List String) where
  unfoldable pub defined_tokens : Option String → List String
  unfolding flat_map dedupe_from
  defined_tokens none = []
  defined_tokens (some styles) = dedupe_from [] (flat_map defined_name (match_definitions styles))

  unfoldable pub token_uses : String → List TokenUse
  unfolding uses_from
  token_uses file = uses_from match_tokens file 1 (source_lines file)

  unfoldable pub token_violations : Option String → List String → List String
  unfolding defined_tokens token_uses flat_map contains
  token_violations styles source_paths =
      let tokens = defined_tokens styles in
      map
        (λ token_use.
          token_use.file
          ++ (":"
              ++ (show token_use.line
                  ++ (": class token \""
                      ++ (token_use.token
                          ++ "\" has no --*-es-ts-example-* variable in packages/web/src/styles.css.")))))
        (filter (λ token_use. not (contains tokens token_use.token))
          (flat_map token_uses source_paths))

-- `includes text part` is `Str.includes`, `stem_from_view_path` the stem of the name of a view file,
-- `relative_path` the path of a file from the sources of the package.
module _ (includes : String → String → Bool)
    (stem_from_view_path relative_path : String → String) where
  abbrev pub model_export : String → String
  model_export stem = "export * from \"./models/pages/" ++ (stem ++ ".model.ts\";")

  abbrev pub view_export : String → String
  view_export stem =
      "export { " ++ (stem ++ ("View } from \"./views/pages/" ++ (stem ++ ".view.tsx\";")))

  unfoldable pub missing_exports_for_page : String → String → List (Option String)
  missing_exports_for_page index_text view_path =
      let stem = stem_from_view_path view_path in
      (if includes index_text (model_export stem)
        then none
        else some ("packages/web/src/index.ts: missing `" ++ (model_export stem ++ "`")))
      ∷ (if includes index_text (view_export stem)
          then none
          else some ("packages/web/src/index.ts: missing `" ++ (view_export stem ++ "`")))
      ∷ []

  unfoldable pub control_exported_from_index : List String → String → List (Option String)
  control_exported_from_index control_paths index_text =
      map
        (λ path.
          if includes index_text ("\"" ++ (relative_path path ++ "\""))
          then some (
              "packages/web/src/index.ts: controls are internal, so "
              ++ (path ++ " must not be exported"))
          else none)
        control_paths

  unfoldable pub component_violations : List String → List String → String → List String
  unfolding compact_options flat_map missing_exports_for_page control_exported_from_index
  component_violations page_view_paths control_paths index_text = compact_options (
      List.◌++◌ (flat_map (missing_exports_for_page index_text) page_view_paths)
        (control_exported_from_index control_paths index_text))

-- `includes text part` is `Str.includes`.
unfoldable pub missing_coverage : (String → String → Bool) → List String → String → List String
missing_coverage includes rules test_text =
    map
      (λ rule.
        "oxlint-plugins/es-ts-example/index.mjs: "
        ++ (rule ++ " has no RuleTester coverage in test/unit/oxlint-rules.test.mjs."))
      (filter (λ rule. not (includes test_text ("\"" ++ (rule ++ "\"")))) rules)
