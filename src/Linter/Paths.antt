-- ===== src/Linter/Paths.antt =====
-- oxlint-plugins/es-ts-example/rules/shared: filename.mjs and paths.mjs.
use Prim.Native.String.{String, ◌++◌}
use package.text.Mathlib.Text.{starts_with}
use es_ts_example.Common.{
  Bool, true, false, not, ◌||◌, ◌&&◌, ◌==◌, Option, none, some, List, [], ◌∷◌, if◌then◌else◌,
}
use es_ts_example.Linter.{Engine}

-- `"models"`, `"factories"`, `"views"` and `"controllers"`.
pub data Role : Type 0 where
  models : Role
  factories : Role
  views : Role
  controllers : Role

abbrev pub role_name : Role → String
role_name models = "models"
role_name factories = "factories"
role_name views = "views"
role_name controllers = "controllers"

abbrev pub web_src_root : String
web_src_root = "/packages/web/src"

abbrev pub web_mvc_layer_pattern : String
web_mvc_layer_pattern = "(?:pages|controls)"

unfoldable pub is_real_filename : String → Bool
is_real_filename filename = not (starts_with filename "<")

unfoldable pub last_or : String → List String → String
last_or default [] = default
last_or default (part ∷ rest) = last_or part rest

abbrev pub is_some : {A : Type 0} → Option A → Bool
is_some none = false
is_some (some _) = true

unfoldable pub web_mvc_slice_lane : Role → String
web_mvc_slice_lane models = web_src_root ++ "/models/<layer>"
web_mvc_slice_lane factories = web_src_root ++ "/factories/<layer>"
web_mvc_slice_lane views = web_src_root ++ "/views/<layer>"
web_mvc_slice_lane controllers = web_src_root ++ "/controllers"

unfoldable pub factory_path_for_stem : String → String → String → String
factory_path_for_stem web_root layer stem =
    web_root ++ ("/factories/" ++ (layer ++ ("/" ++ (stem ++ ".factory.ts"))))

unfoldable pub model_import_source_for_stem : String → String → String
model_import_source_for_stem layer stem =
    "../../models/" ++ (layer ++ ("/" ++ (stem ++ ".model.ts")))

module _ (engine : Engine) where
  unfoldable pub normalize_filename : String → String
  normalize_filename filename = engine.replace "\\\\" "/" filename

  unfoldable pub get_basename : String → String
  unfolding normalize_filename last_or
  get_basename filename =
      let normalized = normalize_filename filename in
      last_or normalized (engine.split "/" normalized)

  unfoldable pub web_source_path : String → Bool
  unfolding normalize_filename
  web_source_path filename =
      engine.matches "\\/packages\\/web\\/src\\/" (normalize_filename filename)

  unfoldable pub web_mvc_slice_role_from_basename : String → Option Role
  web_mvc_slice_role_from_basename basename =
      if basename == "model.ts" || engine.matches "^.+\\.model\\.ts$" basename
      then some models
      else if basename == "factory.ts" || engine.matches "^.+\\.factory\\.ts$" basename
      then some factories
      else if engine.matches "^.+\\.view\\.tsx$" basename
      then some views
      else if engine.matches "^.+\\.controller\\.ts$" basename
      then some controllers
      else none

  unfoldable pub web_mvc_slice_role : String → Option Role
  unfolding web_mvc_slice_role_from_basename get_basename normalize_filename
  web_mvc_slice_role filename =
      web_mvc_slice_role_from_basename (get_basename (normalize_filename filename))

  unfoldable pub web_mvc_internal_barrel_path : String → Bool
  unfolding normalize_filename
  web_mvc_internal_barrel_path filename =
      engine.matches
        ("\\/packages\\/web\\/src\\/(?:models|factories|controllers|views)(?:\\/"
          ++ (web_mvc_layer_pattern ++ ")?\\/index\\.ts$"))
        (normalize_filename filename)

  unfoldable pub web_mvc_layer : String → Option String
  unfolding normalize_filename
  web_mvc_layer filename =
      engine.match_group
        "\\/packages\\/web\\/src\\/(?:models|factories|views)\\/(pages|controls)\\/"
        (normalize_filename filename)

  unfoldable pub role_in_lane : String → Option Role → Bool
  role_in_lane normalized none = false
  role_in_lane normalized (some controllers) =
      engine.matches "\\/packages\\/web\\/src\\/controllers\\/[^/]+$" normalized
  role_in_lane normalized (some role) =
      engine.matches
        ("\\/packages\\/web\\/src\\/"
          ++ (role_name role ++ ("\\/" ++ (web_mvc_layer_pattern ++ "\\/[^/]+$"))))
        normalized

  unfoldable pub web_mvc_slice_in_lane : String → Bool
  unfolding role_in_lane web_mvc_slice_role normalize_filename
  web_mvc_slice_in_lane filename =
      role_in_lane (normalize_filename filename) (web_mvc_slice_role filename)

  unfoldable pub web_mvc_source_path : String → Bool
  unfolding web_source_path web_mvc_slice_role
  web_mvc_source_path filename = web_source_path filename && is_some (web_mvc_slice_role filename)

  unfoldable pub web_view_path : String → Bool
  unfolding normalize_filename
  web_view_path filename =
      engine.matches
        ("\\/packages\\/web\\/src\\/views\\/"
          ++ (web_mvc_layer_pattern ++ "\\/[^/]+\\.view\\.tsx$"))
        (normalize_filename filename)

  unfoldable pub web_unlayered_view_path : String → Bool
  unfolding normalize_filename
  web_unlayered_view_path filename =
      engine.matches "\\/packages\\/web\\/src\\/views\\/[^/]+\\.view\\.tsx$"
        (normalize_filename filename)

  unfoldable pub web_nested_view_path : String → Bool
  unfolding normalize_filename
  web_nested_view_path filename =
      engine.matches "\\/packages\\/web\\/src\\/views\\/[^/]+\\/.+\\/[^/]+\\.view\\.tsx$"
        (normalize_filename filename)

  unfoldable pub web_src_root_from_filename : String → String
  unfolding normalize_filename
  web_src_root_from_filename filename =
      engine.replace "\\/packages\\/web\\/src\\/.*$" web_src_root (normalize_filename filename)
