-- ===== src/Linter/Placement.antt =====
-- oxlint-plugins/es-ts-example/rules: mvc-file-placement/rule.mjs and view-filenaming-convention/rule.mjs.
pub mod Placed
use Prim.Native.String.{String}
use es_ts_example.Common.{Bool, true, false, not, ◌||◌, Option, none, some, if◌then◌else◌}
use es_ts_example.Linter.{Engine}
use es_ts_example.Linter.Paths.{
  Role, models, factories, views, controllers, is_real_filename, web_source_path,
  web_mvc_internal_barrel_path, web_mvc_slice_role, web_mvc_slice_in_lane, web_mvc_slice_lane,
  web_nested_view_path, web_unlayered_view_path, web_view_path, normalize_filename,
}

-- The reports, by their message.
pub data PlacementReport : Type 0 where
  internal_barrel : PlacementReport
  nested_view_placement : PlacementReport
  unlayered_view_placement : PlacementReport
  unknown_view_layer : PlacementReport
  wrong_placement : String → String → PlacementReport

abbrev pub role_label : Role → String
role_label models = "model"
role_label factories = "factory"
role_label views = "view"
role_label controllers = "controller"

module _ (engine : Engine) where
  unfoldable pub misplaced : String → Role → PlacementReport
  unfolding web_nested_view_path web_unlayered_view_path web_mvc_slice_lane
  misplaced filename views =
      if web_nested_view_path engine filename
      then nested_view_placement
      else if web_unlayered_view_path engine filename
      then unlayered_view_placement
      else unknown_view_layer
  misplaced filename role = wrong_placement (role_label role) (web_mvc_slice_lane role)

  unfoldable pub placement_of_role : String → Option Role → Option PlacementReport
  unfolding misplaced web_mvc_slice_in_lane
  placement_of_role filename none = none
  placement_of_role filename (some role) =
      if web_mvc_slice_in_lane engine filename then none else some (misplaced filename role)

  unfoldable pub mvc_file_placement : String → Option PlacementReport
  unfolding placement_of_role is_real_filename web_source_path web_mvc_internal_barrel_path
      web_mvc_slice_role
  mvc_file_placement filename =
      if not (is_real_filename filename) || not (web_source_path engine filename)
      then none
      else if web_mvc_internal_barrel_path engine filename
      then some internal_barrel
      else placement_of_role filename (web_mvc_slice_role engine filename)

  -- Whether the rule reports a file, whose name is taken normalized.
  unfoldable pub view_filenaming_convention : String → Bool
  unfolding web_view_path
  view_filenaming_convention filename =
      if not (web_view_path engine filename)
      then false
      else (let stem = engine.replace "\\.view\\.tsx$" "" (engine.replace "^.*\\/" "" filename) in
          not (
            engine.matches "^[a-z0-9]+(?:-[a-z0-9]+)*$" stem
            || engine.matches "^[A-Z][A-Za-z0-9]*$" stem))
