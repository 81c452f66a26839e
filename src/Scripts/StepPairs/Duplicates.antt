-- ===== src/Scripts/StepPairs/Duplicates.antt =====
-- The steps that scripts/lint-bdd-step-duplication.ts lets through.
use Prim.Native.String.{String}
use es_ts_example.Common.{
  ◌≡◌, ◌↔◌, refl, Bool, Bool-cases, inl, inr, true, false, not, ◌||◌, Option, none, some, List, [],
  ◌∷◌, map, filter, All, if◌then◌else◌,
}
use es_ts_example.Scripts.{Violation}
use es_ts_example.Scripts.Policy.{named_exception_allows_path}
use es_ts_example.Scripts.CoveragePolicy.{compact_options}
use es_ts_example.Scripts.StepPairs.{StepPair, pairs, violation_for_pair, step_violations}

-- What one more pair adds: nothing where it is shared or excepted.
one_more :
    {P : Type 0} (excepted : Violation → Bool) (shared : Bool) (v : Violation)
    (rest : List (Option Violation))
    → (filter (λ violation. not (excepted violation)) (compact_options rest) ≡ []) ↔ P
    → (filter
          (λ violation. not (excepted violation))
          (compact_options ((if shared then none else some v) ∷ rest))
        ≡ [])
      ↔ ((shared || excepted v ≡ true) × P)
unfolding compact_options
one_more excepted true v rest (clean, passes) = (λ h. (refl, clean h), λ (_, h). passes h)
one_more excepted false v rest (clean, passes) = elim (Bool-cases (excepted v)) [
  | inl e ↦ (λ h. (e, clean (rw e at h)), λ (_, h). rw e (passes h))
  | inr e ↦ (
    λ h.
        let listed : v ∷ filter (λ violation. not (excepted violation)) (compact_options rest)
            ≡ [] =
          rw e at h in
        cc,
    λ (h, _). cc,
  )
]

module _ (remove_first : String → String → String) (is_pure_re_export : String → Bool)
    (step_files : String → List String) where
  -- One side of a pair re-exports the other, or the pair is a named exception.
  abbrev pub is_shared : StepPair → Bool
  is_shared pair =
      (is_pure_re_export pair.domain_path || is_pure_re_export pair.application_path)
      || named_exception_allows_path "bdd-step-duplication-ratchet" pair.application_path

  none_duplicated :
      (ps : List StepPair)
      → (filter
            (λ violation.
              not (named_exception_allows_path "bdd-step-duplication-ratchet" violation.path))
            (compact_options
              (map (violation_for_pair remove_first is_pure_re_export step_files) ps))
          ≡ [])
        ↔ All (λ pair. is_shared pair ≡ true) ps
  unfolding violation_for_pair compact_options
  none_duplicated [] = (λ _. tt, λ _. refl)
  none_duplicated (pair ∷ ps) =
      one_more
        (λ violation. named_exception_allows_path "bdd-step-duplication-ratchet" violation.path)
        (is_pure_re_export pair.domain_path || is_pure_re_export pair.application_path) _
        (map (violation_for_pair remove_first is_pure_re_export step_files) ps) (none_duplicated ps)

  -- The steps pass exactly if, of every pair of step files, one is only a re-export, or the pair is a named
  -- exception.
  pub step_violations_lem :
      (step_violations remove_first is_pure_re_export step_files ≡ [])
      ↔ All (λ pair. is_shared pair ≡ true) (pairs remove_first is_pure_re_export step_files)
  unfolding step_violations
  step_violations_lem = none_duplicated (pairs remove_first is_pure_re_export step_files)
