-- ===== src/Linter/Ownership.antt =====
-- oxlint-plugins/es-ts-example/rules/shared/mvc-ownership.mjs: the names that a file has to declare.
pub mod Named
use Prim.Native.String.{String, ◌++◌}
use package.text.Mathlib.Text.{starts_with}
use es_ts_example.Common.{
  Bool, true, false, not, ◌||◌, ◌&&◌, ◌==◌, Option, none, some, List, map, filter, if◌then◌else◌,
}
use es_ts_example.Cli.Render.{join}
use es_ts_example.Linter.{Engine}
use es_ts_example.Linter.Paths.{get_basename}

pub record StemOwnership : Type 0 where
  pub expected_view_name : String
  pub factory_name : String
  pub model_name : String
  pub stem : String
  pub view_name : String

pub record ViewOwnership : Type 0 where
  pub expected_model_name : String
  pub expected_view_name : String
  pub model_stem : String
  pub variant_stem : Option String

unfoldable pub stem_ownership : String → StemOwnership
stem_ownership stem = record {
  expected_view_name = stem ++ "View";
  factory_name = "make" ++ (stem ++ "Model");
  model_name = stem ++ "Model";
  stem = stem;
  view_name = stem ++ "View";
}

-- `capital` is the upper case of a text's first character, `tail` the text after it.
unfoldable pub pascal_case : Engine → (String → String) → (String → String) → String → String
pascal_case engine capital tail value = join "" (
    map (λ part. capital part ++ tail part)
      (filter (λ part. not (part == "")) (engine.split "-" value)))

module _ (engine : Engine) where
  unfoldable pub is_factory_filename : String → Bool
  unfolding get_basename
  is_factory_filename filename = engine.ends_with (get_basename engine filename) ".factory.ts"

  unfoldable pub is_view_filename : String → Bool
  unfolding get_basename
  is_view_filename filename = engine.ends_with (get_basename engine filename) ".view.tsx"

  unfoldable pub stem_from_factory_filename : String → String
  unfolding get_basename
  stem_from_factory_filename filename =
      engine.replace "\\.factory\\.ts$" "" (get_basename engine filename)

  unfoldable pub stem_from_view_filename : String → String
  unfolding get_basename
  stem_from_view_filename filename =
      engine.replace "\\.view\\.tsx$" "" (get_basename engine filename)

  unfoldable pub factory_ownership_from_filename : String → StemOwnership
  unfolding stem_ownership stem_from_factory_filename
  factory_ownership_from_filename filename = stem_ownership (stem_from_factory_filename filename)

  unfoldable pub view_ownership_from_filename : String → StemOwnership
  unfolding stem_ownership stem_from_view_filename
  view_ownership_from_filename filename = stem_ownership (stem_from_view_filename filename)

  unfoldable pub model_stem_from_import_source : String → Option String
  model_stem_from_import_source source =
      engine.match_group "^\\.\\.\\/\\.\\.\\/models\\/[^/]+\\/(.+)\\.model\\.ts$" source

  unfoldable pub view_ownership_from_model_stem : String → String → Option ViewOwnership
  unfolding stem_from_view_filename
  view_ownership_from_model_stem filename model_stem =
      let view_stem = stem_from_view_filename filename in
      if view_stem == model_stem
      then some (record {
        expected_model_name = model_stem ++ "Model";
        expected_view_name = model_stem ++ "View";
        model_stem = model_stem;
        variant_stem = none;
      })
      else if not (starts_with view_stem (model_stem ++ "-"))
          && not (not (view_stem == model_stem) && starts_with view_stem model_stem)
      then none
      else some (record {
        expected_model_name = model_stem ++ "Model";
        expected_view_name = view_stem ++ "View";
        model_stem = model_stem;
        variant_stem = some (engine.replace ("^" ++ (model_stem ++ "-?")) "" view_stem);
      })
