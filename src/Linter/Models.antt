-- ===== src/Linter/Models.antt =====
-- oxlint-plugins/es-ts-example/rules: mvc-model-requires-view/rule.mjs and mvc-model-requires-factory/rule.mjs.
pub mod Rendered
use Prim.Native.String.{String, ◌++◌}
use es_ts_example.Common.{
  Bool, true, false, not, ◌||◌, ◌&&◌, Option, none, some, List, if◌then◌else◌,
}
use es_ts_example.Scripts.Policy.{some_of}
use es_ts_example.Linter.{Engine}
use es_ts_example.Linter.Paths.{
  is_real_filename, web_source_path, get_basename, web_mvc_layer, web_src_root_from_filename,
  factory_path_for_stem, model_import_source_for_stem,
}

pub data ModelReport : Type 0 where
  missing_view_directory : String → String → ModelReport
  missing_view : String → String → ModelReport
  missing_factory : String → ModelReport

-- `exists`, `read_directory` and `read_file` are the files that there are.
module _ (engine : Engine) (exists : String → Bool) (read_directory : String → List String)
    (read_file : String → String) where
  unfoldable pub is_model_file : String → Bool
  unfolding get_basename
  is_model_file filename = engine.ends_with (get_basename engine filename) ".model.ts"

  unfoldable pub stem_from_model_filename : String → String
  unfolding get_basename
  stem_from_model_filename filename =
      engine.replace "\\.model\\.ts$" "" (get_basename engine filename)

  unfoldable pub view_imports : String → String → String → Bool
  view_imports view_dir import_source entry =
      if not (engine.ends_with entry ".view.tsx")
      then false
      else (let source = read_file (view_dir ++ ("/" ++ entry)) in
          engine.includes source ("from \"" ++ (import_source ++ "\""))
          || engine.includes source ("from '" ++ (import_source ++ "'")))

  unfoldable pub some_view_imports_model : String → String → Bool
  unfolding some_of view_imports
  some_view_imports_model view_dir import_source =
      some_of (view_imports view_dir import_source) (read_directory view_dir)

  unfoldable pub view_required : String → Option String → Option ModelReport
  unfolding stem_from_model_filename web_src_root_from_filename model_import_source_for_stem
      some_view_imports_model
  view_required filename none = none
  view_required filename (some layer) =
      let view_dir = web_src_root_from_filename engine filename ++ ("/views/" ++ layer) in
      let import_source = model_import_source_for_stem layer (stem_from_model_filename filename) in
      if not (exists view_dir)
      then some (missing_view_directory import_source layer)
      else if some_view_imports_model view_dir import_source
      then none
      else some (missing_view import_source layer)

  unfoldable pub mvc_model_requires_view : String → Option ModelReport
  unfolding view_required is_real_filename web_source_path is_model_file web_mvc_layer
  mvc_model_requires_view filename =
      if (not (is_real_filename filename) || not (web_source_path engine filename))
        || not (is_model_file filename)
      then none
      else view_required filename (web_mvc_layer engine filename)

  unfoldable pub factory_required : String → Option String → Option ModelReport
  unfolding stem_from_model_filename web_src_root_from_filename factory_path_for_stem
  factory_required filename none = none
  factory_required filename (some layer) =
      let stem = stem_from_model_filename filename in
      if exists (factory_path_for_stem (web_src_root_from_filename engine filename) layer stem)
      then none
      else some (missing_factory (layer ++ ("/" ++ (stem ++ ".factory.ts"))))

  unfoldable pub mvc_model_requires_factory : String → Option ModelReport
  unfolding factory_required is_real_filename web_source_path is_model_file web_mvc_layer
  mvc_model_requires_factory filename =
      if (not (is_real_filename filename) || not (web_source_path engine filename))
        || not (is_model_file filename)
      then none
      else factory_required filename (web_mvc_layer engine filename)
