-- ===== src/Scripts/CoveragePolicy/Clean.antt =====
-- The packages that scripts/lint-coverage-policy.ts lets through.
use Prim.Native.String.{String, ◌++◌}
use mathlib.Core.List
use es_ts_example.Common.{
  ℕ, ◌≡◌, ◌≢◌, ◌↔◌, refl, sym, ◌∙◌, ap, ◌||◌, ◌==◌, nat_beq, arith, eq_iff, str_ne, filter_map,
  Bool, Bool-cases, not, inl, inr, true, false, Option, none, some, List, [], ◌∷◌, map, filter, All,
  rec_get, if◌then◌else◌,
}
use es_ts_example.Scripts.Policy.{some_of}
use es_ts_example.Scripts.MutationReports.Health.{both_empty}
use es_ts_example.Scripts.CoveragePolicy.{
  is_e2e_steps_script, package_violations, missing_directory, required_directory_for_script,
  missing_record_key, common_script_names, strings_only, missing_record_key, compact_options,
  common_script_names, required_directory_for_script, StrykerConfig, is_100, is_broad,
  threshold_names, stryker_violations, missing_directory,
}

pub none_reported :
    {A B : Type 0} (report : A → B) (p : A → Bool) (xs : List A)
    → (map report (filter p xs) ≡ []) ↔ All (λ x. p x ≡ false) xs
none_reported report p [] = (λ _. tt, λ _. refl)
none_reported report p (x ∷ xs) = elim (Bool-cases (p x)) [
  | inl e ↦
      (λ h. let listed : report x ∷ map report (filter p xs) ≡ [] = rw e at h in cc, λ (h, _). cc)
  | inr e ↦ (
    λ h. (e, (none_reported report p xs).0 (rw e at h)),
    λ (_, h). rw e ((none_reported report p xs).1 h),
  )
]

found_or_not :
    {A B : Type 0} (look : A → Option B) (xs : List A) (found : Option B)
    → (compact_options (map look xs) ≡ []) ↔ All (λ x. look x ≡ none) xs
    → (compact_options (found ∷ map look xs) ≡ []) ↔ ((found ≡ none) × All (λ x. look x ≡ none) xs)
unfolding compact_options
found_or_not look xs none rest = (λ h. (refl, rest.0 h), λ (_, h). rest.1 h)
found_or_not look xs (some b) rest = (λ h. cc, λ (h, _). cc)

none_found :
    {A B : Type 0} (look : A → Option B) (xs : List A)
    → (compact_options (map look xs) ≡ []) ↔ All (λ x. look x ≡ none) xs
unfolding compact_options
none_found look [] = (λ _. tt, λ _. refl)
none_found look (x ∷ xs) = found_or_not look xs (look x) (none_found look xs)

-- Two lists of violations together.
pub both_clean :
    {A P Q : Type 0} (xs ys : List A)
    → (xs ≡ []) ↔ P
    → (ys ≡ []) ↔ Q
    → (List.◌++◌ xs ys ≡ []) ↔ (P × Q)
both_clean xs ys p q = (
  λ h. let (h₁, h₂) = (both_empty xs ys).0 h in (p.0 h₁, q.0 h₂),
  λ (h₁, h₂). (both_empty xs ys).1 (p.1 h₁, q.1 h₂),
)

-- A threshold of a configuration is the number 100.
abbrev pub IsFull : StrykerConfig → String → Type 0
IsFull config name = rec_get config.thresholds name ≡ some (some 100)

-- A test file is no pattern for all tests, nor for all property tests.
abbrev pub IsExplicit : Option String → Type 0
IsExplicit value = (value ≢ some "test/**/*.test.ts") × (value ≢ some "test/**/*.property.test.ts")

-- Test files that are no array count for none.
abbrev pub AreExplicit : Option (List (Option String)) → Type 0
AreExplicit none = Unit
AreExplicit (some values) = All IsExplicit values

-- The three thresholds of a configuration are 100, and its test files are explicit.
abbrev pub IsStrict : StrykerConfig → Type 0
IsStrict config =
    (IsFull config "high" × (IsFull config "low" × IsFull config "break"))
    × AreExplicit config.test_files

-- There is a configuration, and it is strict.
abbrev pub HasStrict : Option StrykerConfig → Type 0
HasStrict none = ⊥
HasStrict (some config) = IsStrict config

is_100_lem : (found : Option (Option ℕ)) → (not (is_100 found) ≡ false) ↔ (found ≡ some (some 100))
is_100_lem none = (λ h. cc, λ h. cc)
is_100_lem (some none) = (λ h. cc, λ h. cc)
is_100_lem (some (some n)) = elim (Bool-cases (nat_beq n 100)) [
  | inl e ↦ (λ _. ap (λ m. some (some m)) (ground arith), λ _. rw e refl)
  | inr e ↦
      (λ h. let h' = rw e at h in cc h', λ h. let same : n ≡ 100 = cc in absurd (ground arith))
]

thresholds_lem :
    (config : StrykerConfig)
    → All (λ name. not (is_100 (rec_get config.thresholds name)) ≡ false) threshold_names
      ↔ (IsFull config "high" × (IsFull config "low" × IsFull config "break"))
thresholds_lem config =
    let at = λ (name : String). is_100_lem (rec_get config.thresholds name) in
    (
      λ (high, (low, (broken, _))). ((at "high").0 high, ((at "low").0 low, (at "break").0 broken)),
      λ (high, (low, broken)).
          ((at "high").1 high, ((at "low").1 low, ((at "break").1 broken, tt))),
    )

some_inj : {a b : String} → some a ≡ some b → a ≡ b
some_inj e = cc

is_broad_lem : (value : String) → (is_broad value ≡ false) ↔ IsExplicit (some value)
unfolding is_broad
is_broad_lem value = (
  λ h. (
    λ e. ground (arith, eq_iff value "test/**/*.test.ts", some_inj e),
    λ e. ground (arith, eq_iff value "test/**/*.property.test.ts", some_inj e),
  ),
  λ (a, b).
      rw
        (
          str_ne value "test/**/*.test.ts" (λ e. a (ap some e)),
          str_ne value "test/**/*.property.test.ts" (λ e. b (ap some e)),
        )
        refl,
)

texts-IsExplicit :
    (values : List (Option String))
    → All (λ value. is_broad value ≡ false) (strings_only (some values)) ↔ All IsExplicit values
unfolding strings_only filter_map
texts-IsExplicit [] = (λ _. tt, λ _. tt)
texts-IsExplicit (none ∷ rest) =
    (λ h. ((λ e. cc, λ e. cc), (texts-IsExplicit rest).0 h), λ (_, h). (texts-IsExplicit rest).1 h)
texts-IsExplicit (some value ∷ rest) = (
  λ (h, hs). ((is_broad_lem value).0 h, (texts-IsExplicit rest).0 hs),
  λ (h, hs). ((is_broad_lem value).1 h, (texts-IsExplicit rest).1 hs),
)

test_files_explicit :
    (test_files : Option (List (Option String)))
    → All (λ value. is_broad value ≡ false) (strings_only test_files) ↔ AreExplicit test_files
unfolding strings_only
test_files_explicit none = (λ _. tt, λ _. tt)
test_files_explicit (some values) = texts-IsExplicit values

-- One condition for another.
instead : {X P Q : Type 0} → X ↔ P → P ↔ Q → X ↔ Q
instead (out, back) (forth, home) = (λ x. forth (out x), λ q. back (home q))

stryker_violations_lem :
    (directory : String) (config : Option StrykerConfig)
    → (stryker_violations directory config ≡ []) ↔ HasStrict config
unfolding stryker_violations
stryker_violations_lem directory none = (λ h. cc, λ h. absurd h)
stryker_violations_lem directory (some config) =
    both_clean _ _
      (instead
        (none_reported _ (λ name. not (is_100 (rec_get config.thresholds name))) threshold_names)
        (thresholds_lem config))
      (instead (none_reported _ is_broad (strings_only config.test_files))
        (test_files_explicit config.test_files))

-- The scripts that every package has.
abbrev pub required_scripts : List String
required_scripts =
    "build" ∷ "build:types" ∷ "check" ∷ "typecheck" ∷ "format" ∷ "format:check" ∷ "format:write"
    ∷ "lint" ∷ "lint:oxlint" ∷ "lint:types" ∷ "test" ∷ "test:coverage" ∷ "test:property"
    ∷ "test:unit" ∷ "e2e" ∷ "acceptance" ∷ "mutation" ∷ "precommit" ∷ []

-- A manifest has a script of a name.
abbrev pub has_script : List (String × String) → String → Bool
has_script scripts name = some_of (λ script. script.0 == name) scripts

missing_record_key_lem :
    (scripts : List (String × String)) (name : String)
    → missing_record_key scripts name ≡ not (has_script scripts name)
unfolding missing_record_key rec_get some_of
missing_record_key_lem [] name = refl
missing_record_key_lem (script ∷ scripts) name = elim (Bool-cases (script.0 == name)) [
  | inl e ↦ rw e refl
  | inr e ↦ rw e (missing_record_key_lem scripts name)
]

pub unless :
    {A : Type 0} (condition : Bool) (message : A)
    → ((if condition then [] else message ∷ []) ≡ []) ↔ (condition ≡ true)
unless true message = (λ _. refl, λ _. refl)
unless false message = (λ h. cc, λ h. cc)

scripts_there :
    (scripts : List (String × String)) (names : List String)
    → All (λ name. missing_record_key scripts name ≡ false) names
      ↔ All (λ name. has_script scripts name ≡ true) names
scripts_there scripts [] = (λ _. tt, λ _. tt)
scripts_there scripts (name ∷ names) =
    let key = missing_record_key_lem scripts name in
    (
      λ (h, hs). (ground (arith, key), (scripts_there scripts names).0 hs),
      λ (h, hs). (ground (arith, key), (scripts_there scripts names).1 hs),
    )

module _ (matches : String → String → Bool) (file_exists : String → Bool) where
  -- A command that runs the steps of the acceptance tests.
  abbrev pub runs_steps : String → Bool
  runs_steps command =
      command == "bun test ./test/e2e/**/*.steps.ts"
      || command == "bun test --no-coverage ./test/e2e/**/*.steps.ts"
      || matches
          "^bunx --bun effect-bdd --features \"test\\/e2e\\/\\*\\*\\/\\*\\.feature\" --steps \"test\\/e2e\\/\\*\\*\\/\\*\\.steps\\.ts\" --reporter text$"
          command

  -- The directory is there that a command runs tests in.
  abbrev pub finds_tests : String → String → Bool
  finds_tests directory command =
      if "bun test ./test/property" == command
      then file_exists (directory ++ ("/" ++ "test/property"))
      else if "bun test --coverage ./test/unit" == command
      then file_exists (directory ++ ("/" ++ "test/unit"))
      else if "bun test --no-coverage ./test/e2e" == command
      then file_exists (directory ++ ("/" ++ "test/e2e"))
      else if runs_steps command
      then file_exists (directory ++ ("/" ++ "test/e2e"))
      else true

  -- Whether the message of a directory that is missing is left out.
  there :
      (directory path name : String) (required : Option String)
      → (missing_directory matches file_exists directory path name required ≡ none)
        ↔ ((elim required [ none ↦ true | some d ↦ file_exists (directory ++ ("/" ++ d)) ]) ≡ true)
  there directory path name none = (λ _. refl, λ _. refl)
  there directory path name (some d) = elim (Bool-cases (file_exists (directory ++ ("/" ++ d)))) [
    | inl e ↦ (λ _. e, λ _. rw e refl)
    | inr e ↦ (λ h. let h' = rw e at h in cc h', λ h. cc)
  ]

  needs_lem :
      (directory command : String)
      → (elim (required_directory_for_script matches command) [
        | none ↦ true
        | some d ↦ file_exists (directory ++ ("/" ++ d))
      ])
        ≡ finds_tests directory command
  unfolding required_directory_for_script is_e2e_steps_script rec_get
  needs_lem directory command = elim (Bool-cases ("bun test ./test/property" == command)) [
    | inl e ↦ rw e refl
    | inr e₁ ↦ elim (Bool-cases ("bun test --coverage ./test/unit" == command)) [
      | inl e ↦ rw (e₁, e) refl
      | inr e₂ ↦ elim (Bool-cases ("bun test --no-coverage ./test/e2e" == command)) [
        | inl e ↦ rw (e₁, e₂, e) refl
        | inr e₃ ↦ elim (Bool-cases (runs_steps command)) [
          | inl e ↦ rw (e₁, e₂, e₃, e) refl
          | inr e ↦ rw (e₁, e₂, e₃, e) refl
        ]
      ]
    ]
  ]

  directories_there :
      (directory path : String) (scripts : List (String × String))
      → All
          (λ entry.
            missing_directory matches file_exists directory path entry.0
              (required_directory_for_script matches entry.1)
            ≡ none)
          scripts
        ↔ All (λ entry. finds_tests directory entry.1 ≡ true) scripts
  directories_there directory path [] = (λ _. tt, λ _. tt)
  directories_there directory path ((name, command) ∷ scripts) =
      let own = there directory path name (required_directory_for_script matches command) in
      let needs = needs_lem directory command in
      (
        λ (h, hs). (sym needs ∙ own.0 h, (directories_there directory path scripts).0 hs),
        λ (h, hs). (own.1 (needs ∙ h), (directories_there directory path scripts).1 hs),
      )

  -- A package passes exactly if it has a bunfig.toml, the eighteen scripts that are common to the packages,
  -- for each script that is one of the commands that run tests the directory of these tests, and a
  -- configuration of mutation whose three thresholds are 100 and whose test files are no pattern for all.
  pub package_violations_lem :
      (directory : String) (scripts : List (String × String)) (config : Option StrykerConfig)
      → (package_violations matches file_exists directory scripts config ≡ []) ↔ (
          (file_exists (directory ++ "/bunfig.toml") ≡ true)
          × (All (λ name. has_script scripts name ≡ true) required_scripts
              × (All (λ entry. finds_tests directory entry.1 ≡ true) scripts × HasStrict config)))
  unfolding package_violations common_script_names
  package_violations_lem directory scripts config =
      both_clean _ _ (unless (file_exists (directory ++ "/bunfig.toml")) _) (
        both_clean _ _
          (instead (none_reported _ (missing_record_key scripts) common_script_names)
            (scripts_there scripts required_scripts))
          (both_clean _ _
            (instead
              (none_found
                (λ entry.
                  missing_directory matches file_exists directory (directory ++ "/package.json")
                    entry.0 (required_directory_for_script matches entry.1))
                scripts)
              (directories_there directory (directory ++ "/package.json") scripts))
            (stryker_violations_lem directory config)))
