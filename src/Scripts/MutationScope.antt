-- ===== src/Scripts/MutationScope.antt =====
-- scripts/lint-mutation-scope.ts: which files a package may keep out of mutation. The regular expressions
-- of paths are parameters: the test for a source file, and the directory of its package.
pub mod Allowed
use Prim.Native.Char.{code}
use Prim.Native.String.{String, [], ◌∷◌, ◌++◌}
use package.text.Mathlib.Text.{starts_with}
use mathlib.Core.List
use mathlib.Core.Option.{get_or}
use es_ts_example.Common.{
  Bool, true, false, not, ◌||◌, ◌&&◌, ◌==◌, nat_beq, Option, none, some, List, [], ◌∷◌, contains,
  rec_get, filter, map, if◌then◌else◌,
}
use es_ts_example.Scripts.{Violation}
use es_ts_example.Scripts.Policy.{named_exception_allows_path, some_of}

abbrev pub web_i18n_mutation_excludes : List String
web_i18n_mutation_excludes = "!src/i18n/**/*.ts" ∷ []

unfoldable pub web_i18n_mutation_entry_allowed : String → String → Bool
web_i18n_mutation_entry_allowed directory entry =
    if contains web_i18n_mutation_excludes entry
    then named_exception_allows_path "mutation-web-i18n-adapter-surface"
        (directory ++ ("/" ++ entry))
    else false

abbrev pub fixed_mutation_exception_scopes : List (String × String)
fixed_mutation_exception_scopes =
    ("!src/mvc/jsx-runtime.ts", "mutation-runtime-boundaries")
    ∷ ("!src/server.ts", "mutation-runtime-boundaries")
    ∷ ("!src/index.ts", "mutation-public-barrel-boundaries")
    ∷ []

-- `Str.replace(/^!/, "")`
unfoldable pub without_bang : String → String
without_bang [] = []
without_bang (c ∷ s) = if nat_beq (code c) 33 then s else c ∷ s

unfoldable pub fixed_mutation_entry_allowed : String → String → Bool
fixed_mutation_entry_allowed directory entry =
    elim (rec_get fixed_mutation_exception_scopes entry) [
      | none ↦ false
      | some name ↦ named_exception_allows_path name (directory ++ ("/" ++ without_bang entry))
    ]

unfoldable pub mutation_entry_allowed : String → String → Bool
mutation_entry_allowed directory entry =
    if not (starts_with entry "!")
    then true
    else fixed_mutation_entry_allowed directory entry
      || web_i18n_mutation_entry_allowed directory entry

unfoldable pub missing_broad_mutation_violation : Bool → String → String → List Violation
missing_broad_mutation_violation condition path message =
    if condition then [] else record { path = path; message = message } ∷ []

module _ (is_source_path : String → Bool) (package_directory_of : String → Option String)
    (tracked_files : List String) (ends_with_tsx : String → Bool) where
  abbrev is_directory : String → Option String → Bool
  is_directory directory none = false
  is_directory directory (some found) = found == directory

  unfoldable pub package_has_tsx : String → Bool
  package_has_tsx directory =
      some_of
        (λ path.
          is_source_path path
          && is_directory directory (package_directory_of path)
          && ends_with_tsx path)
        tracked_files

  -- The second argument is `config.mutate` of the package's configuration.
  unfoldable pub mutation_violations : String → Option (List String) → List Violation
  mutation_violations directory config_mutate =
      let path = directory ++ "/stryker.config.json" in
      let mutate = get_or config_mutate [] in
      List.◌++◌
        (List.◌++◌
          (missing_broad_mutation_violation (some_of (λ entry. entry == "src/**/*.ts") mutate) path
            "mutate must include src/**/*.ts instead of a hand-picked file list.")
          (missing_broad_mutation_violation
            (not (package_has_tsx directory) || some_of (λ entry. entry == "src/**/*.tsx") mutate)
            path "mutate must include src/**/*.tsx because this package has TSX source."))
        (map
          (λ entry. record {
            path = path;
            message = "mutation exclude " ++ (entry ++ " is not a named policy exception.");
          })
          (filter (λ entry. not (mutation_entry_allowed directory entry)) mutate))
