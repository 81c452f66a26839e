-- ===== src/Linter/Models/Rendered.antt =====
-- The model files that have a factory and a view
-- (oxlint-plugins/es-ts-example/rules/mvc-model-requires-view/rule.mjs and
-- mvc-model-requires-factory/rule.mjs).
use Prim.Native.String.{String, ◌++◌}
use es_ts_example.Common.{
  ◌≡◌, ◌↔◌, refl, Bool, true, false, not, ◌||◌, ◌&&◌, none, some, List, if◌then◌else◌,
}
use es_ts_example.Linter.{Engine}
use es_ts_example.Linter.Paths.{
  is_real_filename, web_source_path, web_mvc_layer, web_src_root_from_filename,
  factory_path_for_stem, model_import_source_for_stem,
}
use es_ts_example.Linter.Placement.Placed.{none_if}
use es_ts_example.Linter.Models.{
  is_model_file, stem_from_model_filename, some_view_imports_model, mvc_model_requires_view,
  mvc_model_requires_factory, view_required, factory_required,
}

two_guards :
    {A : Type 0} (there imports : Bool) (a b : A)
    → ((if not there then some a else if imports then none else some b) ≡ none)
      ↔ (there && imports ≡ true)
two_guards true imports a b = none_if imports b
two_guards false imports a b = (λ h. cc, λ h. cc)

both_hold :
    (a b : Bool) {P Q : Type 0} → P ↔ (a ≡ true) → Q ↔ (b ≡ true) → (P × Q) ↔ (a && b ≡ true)
both_hold true b (p, p') (q, q') = (λ (_, y). q y, λ h. (p' refl, q' h))
both_hold false b (p, p') (q, q') = (λ (x, _). absurd (cc (p x)), λ h. cc)

module _ (engine : Engine) (exists : String → Bool) (read_directory : String → List String)
    (read_file : String → String) where
  -- The factory of a model of a layer, and its view.
  abbrev pub has_factory : String → String → Bool
  has_factory filename layer = exists (
      factory_path_for_stem (web_src_root_from_filename engine filename) layer
        (stem_from_model_filename engine exists read_directory read_file filename))

  abbrev pub has_view : String → String → Bool
  has_view filename layer =
      exists (web_src_root_from_filename engine filename ++ ("/views/" ++ layer))
      && some_view_imports_model engine exists read_directory read_file
          (web_src_root_from_filename engine filename ++ ("/views/" ++ layer))
          (model_import_source_for_stem layer
            (stem_from_model_filename engine exists read_directory read_file filename))

  -- Both rules let a model of a layer pass exactly if its factory is there and a view of the layer imports it.
  pub model_rules_lem :
      (filename layer : String)
      → (not (is_real_filename filename) || not (web_source_path engine filename))
          || not (is_model_file engine exists read_directory read_file filename)
        ≡ false
      → web_mvc_layer engine filename ≡ some layer
      → ((mvc_model_requires_view engine exists read_directory read_file filename ≡ none)
          × (mvc_model_requires_factory engine exists read_directory read_file filename ≡ none))
        ↔ (has_view filename layer && has_factory filename layer ≡ true)
  unfolding mvc_model_requires_view mvc_model_requires_factory view_required factory_required
  model_rules_lem filename layer model in_layer = rw model (
      rw in_layer (
        both_hold (has_view filename layer) (has_factory filename layer) (two_guards _ _ _ _)
          (none_if _ _)))
