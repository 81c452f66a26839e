-- ===== src/Scripts/Suppressions.antt =====
-- scripts/lint-suppression-policy.ts and scripts/lint-noop-scripts.ts, over the texts and the scripts that
-- they read. `contains_text pattern text` is the test of a pattern without special characters.
use Prim.Native.String.{String, ◌++◌}
use package.text.Mathlib.Text.{starts_with}
use es_ts_example.Common.{Bool, false, not, ◌||◌, ◌==◌, ◌≡◌, ◌↔◌, List, [], ◌∷◌, map, filter, All}
use es_ts_example.Scripts.CoveragePolicy.Clean.{none_reported}

pub record SuppressionPattern : Type 0 where
  pub name : String
  pub pattern : String

pub record SuppressionViolation : Type 0 where
  pub path : String
  pub pattern_name : String

-- `joined` keeps a pattern out of the text of the script itself.
abbrev joined : String → String → String
joined left right = left ++ right

abbrev pub suppression_patterns : List SuppressionPattern
suppression_patterns =
    record { name = "Oxlint disable directive"; pattern = joined "oxlint" "-disable" }
    ∷ record { name = "TypeScript ignore directive"; pattern = joined "@ts" "-ignore" }
    ∷ record { name = "TypeScript expect-error directive"; pattern = joined "@ts" "-expect-error" }
    ∷ record { name = "TypeScript nocheck directive"; pattern = joined "@ts" "-nocheck" }
    ∷ record { name = "Oxlint ignore directive"; pattern = joined "oxlint" "-ignore" }
    ∷ record { name = "Stryker disable directive"; pattern = "stryker" ++ (" " ++ "disable") }
    ∷ []

abbrev pub canary_text : String
canary_text =
    "\noxlint-disable\n@ts-ignore\n@ts-expect-error\n@ts-nocheck\noxlint-ignore\nstryker disable\n"

module _ (contains_text : String → String → Bool) where
  unfoldable pub canary_failures : List String
  canary_failures =
      map (λ entry. "Canary did not fire for " ++ (entry.name ++ "."))
        (filter (λ entry. not (contains_text entry.pattern canary_text)) suppression_patterns)

  unfoldable pub violations_for_text : String → String → List SuppressionViolation
  violations_for_text path text =
      map (λ entry. record { path = path; pattern_name = entry.name })
        (filter (λ entry. contains_text entry.pattern text) suppression_patterns)

  -- A text passes exactly if it holds none of the directives.
  pub violations_for_text_lem :
      (path text : String)
      → (violations_for_text path text ≡ [])
        ↔ All (λ entry. contains_text entry.pattern text ≡ false) suppression_patterns
  unfolding violations_for_text
  violations_for_text_lem path text =
      none_reported _ (λ entry. contains_text entry.pattern text) suppression_patterns

pub record ScriptViolation : Type 0 where
  pub path : String
  pub script : String
  pub value : String

-- `normalized` is lower case of the trimmed text.
module _ (normalized_script : String → String) where
  unfoldable pub noop_script : String → Bool
  noop_script value =
      let normalized = normalized_script value in
      normalized == "true"
      || normalized == ":"
      || normalized == "exit 0"
      || starts_with normalized "echo "

  -- The scripts of a manifest, by name.
  unfoldable pub violations_for_package : String → List (String × String) → List ScriptViolation
  unfolding noop_script
  violations_for_package path scripts =
      map (λ entry. record { path = path; script = entry.0; value = entry.1 })
        (filter (λ entry. noop_script entry.1) scripts)

  -- A package passes exactly if none of its scripts does nothing.
  pub violations_for_package_lem :
      (path : String) (scripts : List (String × String))
      → (violations_for_package path scripts ≡ [])
        ↔ All (λ entry. noop_script entry.1 ≡ false) scripts
  unfolding violations_for_package
  violations_for_package_lem path scripts = none_reported _ (λ entry. noop_script entry.1) scripts
