-- ===== src/Scripts/UnitTests/Slices.antt =====
-- When scripts/lint-unit-test-architecture.ts misses no slice.
use Prim.Native.String.{String}
use mathlib.Core.Option.{get_or}
use es_ts_example.Common.{
  ◌≡◌, ◌↔◌, refl, ap, sym, ◌∙◌, Bool, Bool-cases, not, inl, inr, true, ◌==◌, List, [], ◌∷◌, ◌++◌,
  map, filter, foldl, rec_get, rec_set, rec_get-rec_set, All, eq_iff, append_assoc, append-nil,
}
use es_ts_example.Scripts.{Violation}
use es_ts_example.Scripts.Policy.{some_of}
use es_ts_example.Scripts.MutationReports.{flat_map}
use es_ts_example.Scripts.MutationReports.Health.{both_empty}
use es_ts_example.Scripts.UnitTests.{
  package_files, missing_slice_violations, PackagePolicy, package_policies, in_slice,
  slice_violations,
}

module _ (package_directory : String → String) where
  -- The files of a package, in order.
  abbrev pub files_of : String → List String → List String
  files_of directory = filter (λ path. package_directory path == directory)

  abbrev grown : List (String × List String) → String → List (String × List String)
  grown by_package path =
      rec_set by_package (package_directory path)
        (get_or (rec_get by_package (package_directory path)) [] ++ path ∷ [])

  grown_files :
      (by_package : List (String × List String)) (files : List String) (directory : String)
      → get_or (rec_get (foldl grown by_package files) directory) []
        ≡ get_or (rec_get by_package directory) [] ++ files_of directory files
  grown_files by_package [] directory = sym (append-nil _)
  grown_files by_package (path ∷ files) directory =
      grown_files (grown by_package path) files directory
      ∙ rw
          (rec_get-rec_set by_package (package_directory path) directory
            (get_or (rec_get by_package (package_directory path)) [] ++ path ∷ []))
          (elim (Bool-cases (package_directory path == directory)) [
            | inl e ↦ rw e (
                append_assoc _ (path ∷ []) (files_of directory files)
                ∙ ap (λ d. get_or (rec_get by_package d) [] ++ path ∷ files_of directory files)
                    ((eq_iff (package_directory path) directory).0 e))
            | inr e ↦ rw e refl
          ])

  -- A policy finds a file for each of its slices.
  abbrev pub HasSlices : List String → PackagePolicy → Type 0
  HasSlices files policy =
      All
        (λ slice.
          some_of (in_slice policy.directory slice) (files_of policy.directory files) ≡ true)
        policy.slices

  none_missing :
      (violation : String → Violation) (p : String → Bool) (slices : List String)
      → (map violation (filter (λ slice. not (p slice)) slices) ≡ [])
        ↔ All (λ slice. p slice ≡ true) slices
  none_missing violation p [] = (λ _. tt, λ _. refl)
  none_missing violation p (slice ∷ slices) = elim (Bool-cases (p slice)) [
    | inl e ↦ (
      λ h. (e, (none_missing violation p slices).0 (rw e at h)),
      λ (_, h). rw e ((none_missing violation p slices).1 h),
    )
    | inr e ↦ (
      λ h.
          let listed : violation slice ∷ map violation (filter (λ slice. not (p slice)) slices)
              ≡ [] =
            rw e at h in
          cc,
      λ (h, _). cc,
    )
  ]

  -- The files that the check looks through for a policy.
  looked_through :
      (files : List String) (directory : String)
      → get_or (rec_get (package_files package_directory files) directory) []
        ≡ files_of directory files
  unfolding package_files
  looked_through files directory = grown_files [] files directory

  policy_lem :
      (files : List String) (policy : PackagePolicy)
      → policy.enforce_slices ≡ true
      → (missing_slice_violations policy
            (get_or (rec_get (package_files package_directory files) policy.directory) [])
          ≡ [])
        ↔ HasSlices files policy
  unfolding missing_slice_violations
  policy_lem files policy enforced =
      rw (enforced, looked_through files policy.directory)
        (none_missing _
          (λ slice. some_of (in_slice policy.directory slice) (files_of policy.directory files))
          policy.slices)

  every_policy :
      (files : List String) (policies : List PackagePolicy)
      → All (λ policy. policy.enforce_slices ≡ true) policies
      → (flat_map
            (λ policy.
              missing_slice_violations policy
                (get_or (rec_get (package_files package_directory files) policy.directory) []))
            policies
          ≡ [])
        ↔ All (HasSlices files) policies
  unfolding flat_map
  every_policy files [] enforced = (λ _. tt, λ _. refl)
  every_policy files (policy ∷ policies) (here, there) =
      let first = policy_lem files policy here in
      let rest = every_policy files policies there in
      (
        λ h. let (h₁, h₂) = (both_empty _ _).0 h in (first.0 h₁, rest.0 h₂),
        λ (h₁, h₂). (both_empty _ _).1 (first.1 h₁, rest.1 h₂),
      )

  -- Every policy is enforced: no slice is missed exactly if each package has a test file in each of its
  -- slices.
  pub slice_violations_lem :
      (unit_test_files : List String)
      → (slice_violations package_directory unit_test_files ≡ [])
        ↔ All (HasSlices unit_test_files) package_policies
  unfolding slice_violations
  slice_violations_lem files =
      every_policy files package_policies (refl, (refl, (refl, (refl, tt))))
