-- ===== src/Scripts/StrykerConfig/Tests.antt =====
-- A configuration that passes scripts/lint-stryker-config.ts lists the unit tests that there are.
use Prim.Native.String.{String}
use package.text.Mathlib.Text.{starts_with}
use es_ts_example.Common.{
  ◌≡◌, ◌↔◌, Bool, Bool-cases, Bool-ext, not, inl, inr, true, false, ◌==◌, eq_iff, List, [], ◌∷◌,
  filter, contains, rec_get, All, arith,
}
use es_ts_example.Scripts.CoveragePolicy.{strings_only, is_100, threshold_names}
use es_ts_example.Scripts.CoveragePolicy.Clean.{none_reported, both_clean, unless}
use es_ts_example.Scripts.StrykerConfig.{
  is_per_test, source_matches_exclude, discovered_unit_test_files, Config, set_difference,
  discovered_unit_test_files, config_violations,
}

contains-All :
    (left right : List String) (a : String)
    → All (λ item. not (contains right item) ≡ false) left
    → contains left a ≡ true
    → contains right a ≡ true
unfolding contains
contains-All [] right a h k = cc
contains-All (x ∷ left) right a (here, there) k = elim (Bool-cases (x == a)) [
  | inl e ↦ rw (← (eq_iff x a).0 e) (ground (arith, here))
  | inr e ↦ contains-All left right a there (rw e at k)
]

module _ (matches : String → String → Bool) (normalized_test_file : String → String)
    (includes : String → String → Bool) (sort : List String → List String)
    (glob_matches : String → String → Bool) (tracked_files : List String) where
  -- The configuration of a package as the policy wants it.
  abbrev pub IsSound : String → Config → Type 0
  IsSound directory config =
      let configured = sort (strings_only config.test_files) in
      let discovered =
        discovered_unit_test_files matches normalized_test_file includes sort glob_matches
          tracked_files directory in
      (is_per_test config.coverage_analysis ≡ true)
      × (All (λ name. not (is_100 (rec_get config.thresholds name)) ≡ false) threshold_names
          × ((contains (strings_only config.reporters) "json" ≡ true)
              × (All (λ item. not (contains configured item) ≡ false) discovered
                  × (All (λ item. not (contains discovered item) ≡ false) configured
                      × All
                          (λ entry.
                            not (
                              source_matches_exclude matches normalized_test_file includes sort
                                glob_matches tracked_files directory entry)
                            ≡ false)
                          (filter (λ entry. starts_with entry "!") (strings_only config.mutate))))))

  -- A configuration passes exactly if it analyses coverage per test, its thresholds are 100, it reports
  -- JSON, its test files are the discovered ones, and each of its excludes matches a source file.
  pub config_violations_lem :
      (directory : String) (config : Config)
      → (config_violations matches normalized_test_file includes sort glob_matches tracked_files
            directory config
          ≡ [])
        ↔ IsSound directory config
  unfolding config_violations set_difference
  config_violations_lem directory config =
      let configured = sort (strings_only config.test_files) in
      let discovered =
        discovered_unit_test_files matches normalized_test_file includes sort glob_matches
          tracked_files directory in
      both_clean _ _ (unless (is_per_test config.coverage_analysis) _) (
        both_clean _ _
          (none_reported _ (λ name. not (is_100 (rec_get config.thresholds name))) threshold_names)
          (both_clean _ _ (unless (contains (strings_only config.reporters) "json") _) (
            both_clean _ _ (none_reported _ (λ item. not (contains configured item)) discovered) (
              both_clean _ _ (none_reported _ (λ item. not (contains discovered item)) configured) (
                none_reported _
                  (λ entry. not (
                    source_matches_exclude matches normalized_test_file includes sort glob_matches
                      tracked_files directory entry))
                  (filter (λ entry. starts_with entry "!") (strings_only config.mutate)))))))

  -- The test files of a configuration that passes are the discovered ones.
  pub test_files_lem :
      (directory : String) (config : Config) (a : String)
      → config_violations matches normalized_test_file includes sort glob_matches tracked_files
          directory config
        ≡ []
      → contains (sort (strings_only config.test_files)) a
        ≡ contains
            (discovered_unit_test_files matches normalized_test_file includes sort glob_matches
              tracked_files directory)
            a
  test_files_lem directory config a h =
      let sound = (config_violations_lem directory config).0 h in
      let listed = sound.1.1.1 in
      Bool-ext _ _ (contains-All _ _ a listed.1.0) (contains-All _ _ a listed.0)
