-- ===== src/Scripts/WebSources/Checked.antt =====
-- The sources of the web package that its checks let through.
use Prim.Native.String.{String, ◌++◌}
use mathlib.Core.List
use es_ts_example.Common.{
  ◌≡◌, ◌↔◌, refl, Bool, true, false, not, Option, none, some, List, [], ◌∷◌, contains, All,
  if◌then◌else◌,
}
use es_ts_example.Scripts.MutationReports.{flat_map}
use es_ts_example.Scripts.CoveragePolicy.{compact_options}
use es_ts_example.Scripts.CoveragePolicy.Clean.{none_reported}
use es_ts_example.Scripts.WebSources.{
  TokenUse, defined_tokens, token_uses, token_violations, model_export, view_export,
  missing_exports_for_page, control_exported_from_index, component_violations, missing_coverage,
}

-- The sources pass exactly if every token that they use is defined in the style sheet.
pub token_violations_lem :
    (match_definitions : String → List (Option String))
    (match_tokens source_lines : String → List String) (styles : Option String)
    (source_paths : List String)
    → (token_violations match_definitions match_tokens source_lines styles source_paths ≡ [])
      ↔ All {A = TokenUse}
          (λ token_use.
            not (
              contains
                (defined_tokens match_definitions match_tokens source_lines styles)
                token_use.token)
            ≡ false)
          (flat_map (token_uses match_definitions match_tokens source_lines) source_paths)
unfolding token_violations
token_violations_lem match_definitions match_tokens source_lines styles source_paths =
    none_reported _
      (λ token_use. not (
        contains (defined_tokens match_definitions match_tokens source_lines styles)
          token_use.token))
      _

-- The rules pass exactly if the tests name each of them.
pub missing_coverage_lem :
    (includes : String → String → Bool) (rules : List String) (test_text : String)
    → (missing_coverage includes rules test_text ≡ [])
      ↔ All (λ rule. not (includes test_text ("\"" ++ (rule ++ "\""))) ≡ false) rules
unfolding missing_coverage
missing_coverage_lem includes rules test_text =
    none_reported _ (λ rule. not (includes test_text ("\"" ++ (rule ++ "\"")))) rules

-- A message where a text is missing.
found_line :
    {A : Type 0} (found : Bool) (message : A) (rest : List (Option A))
    → (compact_options ((if found then none else some message) ∷ rest) ≡ [])
      ↔ ((found ≡ true) × (compact_options rest ≡ []))
unfolding compact_options
found_line true message rest = (λ h. (refl, h), λ (_, h). h)
found_line false message rest = (λ h. cc, λ h. let (h, _) = h in cc)

-- A message where a text is there.
absent_line :
    {A : Type 0} (found : Bool) (message : A) (rest : List (Option A))
    → (compact_options ((if found then some message else none) ∷ rest) ≡ [])
      ↔ ((found ≡ false) × (compact_options rest ≡ []))
unfolding compact_options
absent_line false message rest = (λ h. (refl, h), λ (_, h). h)
absent_line true message rest = (λ h. cc, λ h. let (h, _) = h in cc)

and_then : {X A B C : Type 0} → X ↔ (A × B) → B ↔ C → X ↔ (A × C)
and_then (out, back) (forth, home) =
    (λ x. let (a, b) = out x in (a, forth b), λ (a, c). back (a, home c))

regroup : {X A B C D : Type 0} → X ↔ (A × (B × (C × D))) → X ↔ (((A × B) × C) × D)
regroup (out, back) = (
  λ x. let (a, (b, (c, d))) = out x in (((a, b), c), d),
  λ (((a, b), c), d). back (a, (b, (c, d))),
)

module _ (includes : String → String → Bool)
    (stem_from_view_path relative_path : String → String) where
  -- The index exports the model and the view of a page.
  abbrev pub IsExported : String → String → Type 0
  IsExported index_text view_path =
      (includes index_text
          (model_export includes stem_from_view_path relative_path (stem_from_view_path view_path))
        ≡ true)
      × (includes index_text
            (view_export includes stem_from_view_path relative_path (stem_from_view_path view_path))
          ≡ true)

  pages-IsExported :
      {P : Type 0} (index_text : String) (view_paths : List String) (rest : List (Option String))
      → (compact_options rest ≡ []) ↔ P
      → (compact_options (
            List.◌++◌
              (flat_map
                (missing_exports_for_page includes stem_from_view_path relative_path index_text)
                view_paths)
              rest)
          ≡ [])
        ↔ (All (IsExported index_text) view_paths × P)
  unfolding flat_map missing_exports_for_page
  pages-IsExported index_text [] rest (clean, passes) = (λ h. (tt, clean h), λ (_, h). passes h)
  pages-IsExported index_text (path ∷ paths) rest passed = regroup (
      and_then (found_line _ _ _)
        (and_then (found_line _ _ _) (pages-IsExported index_text paths rest passed)))

  controls_hidden :
      (index_text : String) (paths : List String)
      → (compact_options (
            control_exported_from_index includes stem_from_view_path relative_path paths index_text)
          ≡ [])
        ↔ All (λ path. includes index_text ("\"" ++ (relative_path path ++ "\"")) ≡ false) paths
  unfolding control_exported_from_index compact_options
  controls_hidden index_text [] = (λ _. tt, λ _. refl)
  controls_hidden index_text (path ∷ paths) =
      and_then
        (absent_line _ _
          (control_exported_from_index includes stem_from_view_path relative_path paths index_text))
        (controls_hidden index_text paths)

  -- The index passes exactly if it exports the model and the view of every page, and names no control.
  pub component_violations_lem :
      (page_view_paths control_paths : List String) (index_text : String)
      → (component_violations includes stem_from_view_path relative_path page_view_paths
            control_paths index_text
          ≡ [])
        ↔ (All (IsExported index_text) page_view_paths
            × All
                (λ path. includes index_text ("\"" ++ (relative_path path ++ "\"")) ≡ false)
                control_paths)
  unfolding component_violations
  component_violations_lem page_view_paths control_paths index_text =
      pages-IsExported index_text page_view_paths _ (controls_hidden index_text control_paths)
