-- ===== src/Linter/Ownership/Named.antt =====
-- What oxlint-plugins/es-ts-example/rules/shared/mvc-ownership.mjs expects of a view that takes a model.
use Prim.Native.String.{String, ◌++◌}
use es_ts_example.Common.{
  ◌≡◌, refl, sym, ap, Bool, true, false, ◌==◌, Option, none, some, if◌then◌else◌,
}
use package.text.Mathlib.TextEquality.{eq_iff}
use es_ts_example.Linter.{Engine}
use es_ts_example.Linter.Ownership.{
  ViewOwnership, stem_from_view_filename, view_ownership_from_model_stem,
}

module _ (engine : Engine) where
  -- The names that fit a view file and a model.
  abbrev pub AreNamed : String → String → Option ViewOwnership → Type 0
  AreNamed filename model_stem none = Unit
  AreNamed filename model_stem (some ownership) =
      (ownership.expected_view_name ≡ stem_from_view_filename engine filename ++ "View")
      × (ownership.expected_model_name ≡ model_stem ++ "Model")

  one_of_three :
      (filename model_stem : String) (own unrelated : Bool) (a b : ViewOwnership)
      → (own ≡ true → AreNamed filename model_stem (some a))
      → AreNamed filename model_stem (some b)
      → AreNamed filename model_stem (if own then some a else if unrelated then none else some b)
  one_of_three filename model_stem true unrelated a b fits _ = fits refl
  one_of_three filename model_stem false true a b _ _ = tt
  one_of_three filename model_stem false false a b _ fits = fits

  -- Wherever a view file goes with a model, its own name and no other is expected of the view, and the name of
  -- the model of the model.
  pub view_ownership_from_model_stem_lem :
      (filename model_stem : String)
      → AreNamed filename model_stem (view_ownership_from_model_stem engine filename model_stem)
  unfolding view_ownership_from_model_stem
  view_ownership_from_model_stem_lem filename model_stem =
      one_of_three filename model_stem (stem_from_view_filename engine filename == model_stem) _ _ _
        (λ h. (ap (λ stem. stem ++ "View") (sym ((eq_iff _ _).0 h)), refl)) (refl, refl)
