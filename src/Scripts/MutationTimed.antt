-- ===== src/Scripts/MutationTimed.antt =====
-- scripts/mutation-timed.ts: the runs of the packages in batches. Running a process is a parameter, by its
-- result; a number is taken exactly, also above 2^53. Fuel bounds the recursion of runBatches; the number
-- of packages is enough of it.
pub mod Batches
use Prim.Native.Char.{Char, code}
use Prim.Native.String.{String, [], ◌∷◌, ◌++◌}
use mathlib.Core.List
use es_ts_example.Common.{
  ℕ, zero, suc, ◌+◌, ◌-◌, ◌*◌, Bool, true, false, not, ◌&&◌, leb, nat_beq, Option, none, some, List,
  [], ◌∷◌, map, filter, take, drop, foldl, rec_set, if◌then◌else◌,
}
use es_ts_example.Common.Decimal.{show}

abbrev pub is_digit : Char → Bool
is_digit c = leb 48 (code c) && leb (code c) 57

-- The number that a text goes on with, all digits.
unfoldable pub digits_from : ℕ → String → Option ℕ
digits_from n [] = some n
digits_from n (c ∷ s) =
    let rest = digits_from (n * 10 + (code c - 48)) s in if is_digit c then rest else none

-- `Number(value)`, where `/^[1-9]\d*$/` matches.
unfoldable pub matched_integer : String → Option ℕ
unfolding digits_from
matched_integer [] = none
matched_integer (c ∷ s) =
    if leb 49 (code c) && leb (code c) 57 then digits_from (code c - 48) s else none

unfoldable pub optional_positive_integer : Option String → Option ℕ
unfolding matched_integer
optional_positive_integer none = none
optional_positive_integer (some value) = matched_integer value

abbrev pub value_or : Option ℕ → ℕ → ℕ
value_or none fallback = fallback
value_or (some n) fallback = n

unfoldable pub positive_integer : Option String → ℕ → ℕ
unfolding matched_integer
positive_integer none fallback = fallback
positive_integer (some value) fallback = value_or (matched_integer value) fallback

unfoldable pub stryker_args : Option ℕ → List String
stryker_args none = []
stryker_args (some concurrency) = "--" ∷ "--concurrency" ∷ show concurrency ∷ []

-- An elapsed time is a `Number`.
pub record PackageMutationResult (Number : Type 0) : Type 0 where
  pub name : String
  pub elapsed_ms : Number
  pub exit_code : ℕ

unfoldable pub result_label : {Number : Type 0} → PackageMutationResult Number → String
result_label result =
    if nat_beq result.exit_code 0 then "passed" else "failed (" ++ (show result.exit_code ++ ")")

module _ {Number : Type 0} (run_package_mutation : String → PackageMutationResult Number)
    (package_concurrency : ℕ) where
  abbrev then_rest :
      List (PackageMutationResult Number)
      → Option (List (PackageMutationResult Number))
      → Option (List (PackageMutationResult Number))
  then_rest batch none = none
  then_rest batch (some rest) = some (List.◌++◌ batch rest)

  -- `none` where the fuel ends before the recursion.
  unfoldable pub run_batches : ℕ → List String → Option (List (PackageMutationResult Number))
  run_batches fuel [] = some []
  run_batches zero (path ∷ paths) = none
  run_batches (suc fuel) (path ∷ paths) =
      let batch = take package_concurrency (path ∷ paths) in
      let rest = drop package_concurrency (path ∷ paths) in
      then_rest (map run_package_mutation batch) (run_batches fuel rest)

module _ {Number : Type 0} (format_duration : Number → String) where
  unfoldable pub timing_line : PackageMutationResult Number → String
  unfolding result_label
  timing_line result =
      result.name
      ++ (": " ++ (result_label result ++ (" in " ++ format_duration result.elapsed_ms)))

  unfoldable pub summary_lines :
      String → ℕ → List (PackageMutationResult Number) → Number → List String
  unfolding timing_line
  summary_lines mutation_script package_concurrency results wall_elapsed_ms =
      List.◌++◌
        (""
          ∷ ("Mutation timing ("
              ++ (mutation_script
                  ++ (", package concurrency " ++ (show package_concurrency ++ "):"))))
          ∷ [])
        (List.◌++◌ (map timing_line results) (("wall: " ++ format_duration wall_elapsed_ms) ∷ []))

abbrev pub is_empty : {A : Type 0} → List A → Bool
is_empty [] = true
is_empty (_ ∷ _) = false

module _ {Number : Type 0} where
  -- The elapsed times, by the name of the package.
  unfoldable pub timing_summary : List (PackageMutationResult Number) → List (String × Number)
  unfolding rec_set
  timing_summary results =
      foldl (λ summary result. rec_set summary result.name result.elapsed_ms) [] results

  unfoldable pub has_package_failure : List (PackageMutationResult Number) → Bool
  has_package_failure results =
      not (is_empty (filter (λ result. not (nat_beq result.exit_code 0)) results))

  -- The exit code of the process; the second argument is what the policy scripts end with, which run
  -- where no package failed.
  unfoldable pub exit_status : List (PackageMutationResult Number) → List ℕ → ℕ
  unfolding has_package_failure
  exit_status results policy_codes =
      if has_package_failure results
      then 1
      else if not (is_empty (filter (λ code. not (nat_beq code 0)) policy_codes))
      then 1
      else 0
