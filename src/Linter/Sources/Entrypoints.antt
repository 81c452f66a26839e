-- ===== src/Linter/Sources/Entrypoints.antt =====
-- The entry points that oxlint-plugins/es-ts-example/rules/public-entrypoint-policy/rule.mjs lets through.
use Prim.Native.String.{String}
use mathlib.Core.List
use es_ts_example.Common.{
  ℕ, ltb, ◌≡◌, ◌↔◌, refl, Bool, true, false, not, ◌||◌, ◌&&◌, Option, [], ◌∷◌, if◌then◌else◌,
}
use es_ts_example.Linter.{Engine}
use es_ts_example.Linter.Sources.{path_allowed_by_policy, public_entrypoint_policy}

two_reports :
    {A : Type 0} (skipped seed many : Bool) (a b : A)
    → ((if skipped
          then []
          else List.◌++◌ (if seed then a ∷ [] else []) (if many then b ∷ [] else []))
        ≡ [])
      ↔ (skipped || not seed && not many ≡ true)
two_reports true seed many a b = (λ _. refl, λ _. refl)
two_reports false true many a b = (λ h. cc, λ h. cc)
two_reports false false true a b = (λ h. cc, λ h. cc)
two_reports false false false a b = (λ _. refl, λ _. refl)

module _ (engine : Engine) (after_marker : String → String → Option String)
    (count_matches : String → String → ℕ) where
  -- An entry point passes exactly if it exports no seeds, and has at most 50 export statements or is
  -- excepted; every other file passes.
  pub public_entrypoint_policy_lem :
      (filename text : String)
      → (public_entrypoint_policy engine after_marker count_matches filename text ≡ []) ↔ (
          not (engine.matches "\\/packages\\/[^/]+\\/src\\/index\\.ts$" filename)
            || not (engine.matches "export\\s+.*from\\s+[\"'][^\"']*(?:Seed|seed)[^\"']*[\"']" text)
              && not (
                  ltb 50 (count_matches "^export\\s" text)
                  && not (
                      path_allowed_by_policy engine after_marker filename
                        ("packages/web/src/index.ts" ∷ [])
                        []))
          ≡ true)
  unfolding public_entrypoint_policy
  public_entrypoint_policy_lem filename text =
      two_reports (not (engine.matches "\\/packages\\/[^/]+\\/src\\/index\\.ts$" filename)) _ _ _ _
