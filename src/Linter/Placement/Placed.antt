-- ===== src/Linter/Placement/Placed.antt =====
-- The files that oxlint-plugins/es-ts-example/rules/mvc-file-placement/rule.mjs lets through.
use Prim.Native.String.{String}
use es_ts_example.Common.{
  ◌≡◌, ◌↔◌, refl, Bool, true, false, not, ◌||◌, ◌&&◌, Option, none, some, if◌then◌else◌,
}
use es_ts_example.Linter.{Engine}
use es_ts_example.Linter.Paths.{
  Role, is_real_filename, web_source_path, web_mvc_internal_barrel_path, web_mvc_slice_role,
  web_mvc_slice_in_lane,
}
use es_ts_example.Linter.Placement.{
  placement_of_role, misplaced, mvc_file_placement, internal_barrel,
}

pub none_if : {A : Type 0} (b : Bool) (a : A) → ((if b then none else some a) ≡ none) ↔ (b ≡ true)
none_if true a = (λ _. refl, λ _. refl)
none_if false a = (λ h. cc, λ h. cc)

-- Two guards, then what a third decides.
guarded :
    {A : Type 0} (skipped barrel placed : Bool) (report : A) (rest : Option A)
    → (rest ≡ none) ↔ (placed ≡ true)
    → ((if skipped then none else if barrel then some report else rest) ≡ none)
      ↔ (skipped || not barrel && placed ≡ true)
guarded true barrel placed report rest decided = (λ _. refl, λ _. refl)
guarded false true placed report rest decided = (λ h. cc, λ h. cc)
guarded false false placed report rest decided = decided

module _ (engine : Engine) where
  -- A file without a role is placed anywhere.
  abbrev pub is_placed : String → Option Role → Bool
  is_placed filename none = true
  is_placed filename (some role) = web_mvc_slice_in_lane engine filename

  placement_of_role-none :
      (filename : String) (role : Option Role)
      → (placement_of_role engine filename role ≡ none) ↔ (is_placed filename role ≡ true)
  unfolding placement_of_role
  placement_of_role-none filename none = (λ _. refl, λ _. refl)
  placement_of_role-none filename (some role) =
      none_if (web_mvc_slice_in_lane engine filename) (misplaced engine filename role)

  -- The rule lets a file pass exactly if it is not a source of the web package, or it is no barrel and, where
  -- it has a role, it lies in the lane of the role.
  pub mvc_file_placement_lem :
      (filename : String)
      → (mvc_file_placement engine filename ≡ none) ↔ (
          (not (is_real_filename filename) || not (web_source_path engine filename))
            || not (web_mvc_internal_barrel_path engine filename)
              && is_placed filename (web_mvc_slice_role engine filename)
          ≡ true)
  unfolding mvc_file_placement
  mvc_file_placement_lem filename =
      guarded (not (is_real_filename filename) || not (web_source_path engine filename))
        (web_mvc_internal_barrel_path engine filename)
        (is_placed filename (web_mvc_slice_role engine filename)) internal_barrel _
        (placement_of_role-none filename (web_mvc_slice_role engine filename))
