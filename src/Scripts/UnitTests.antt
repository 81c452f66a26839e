-- ===== src/Scripts/UnitTests.antt =====
-- scripts/lint-unit-test-architecture.ts. The regular expressions are written out and tested by the
-- engine, a parameter; so is the parse of a file by the TypeScript compiler.
pub mod Slices
pub mod Calls
use Prim.Native.String.{String, ◌++◌}
use package.text.Mathlib.Text.{starts_with}
use mathlib.Core.Option.{get_or}
use mathlib.Core.List
use es_ts_example.Common.{
  ℕ, ◌+◌, Bool, true, false, not, ◌||◌, ◌&&◌, ◌==◌, ltb, Option, none, some, List, [], ◌∷◌, map,
  filter, filter_map, foldl, length, contains, rec_get, rec_set, if◌then◌else◌,
}
use es_ts_example.Common.Decimal.{show}
use es_ts_example.Scripts.{Violation}
use es_ts_example.Scripts.Policy.{some_of}
use es_ts_example.Scripts.MutationReports.{flat_map}

pub record PackagePolicy : Type 0 where
  pub directory : String
  pub enforce_slices : Bool
  pub slices : List String

pub record FileLimits : Type 0 where
  pub index_max_lines : ℕ
  pub index_max_tests : ℕ
  pub index_max_source_imports : ℕ
  pub file_max_lines : ℕ

abbrev pub package_policies : List PackagePolicy
package_policies =
    record {
      directory = "packages/application";
      enforce_slices = true;
      slices = "counter" ∷ "index" ∷ [];
    }
    ∷ record {
      directory = "packages/domain";
      enforce_slices = true;
      slices = "counter" ∷ "index" ∷ [];
    }
    ∷ record { directory = "packages/cli"; enforce_slices = true; slices = "cli" ∷ [] }
    ∷ record {
      directory = "packages/web";
      enforce_slices = true;
      slices = "articles" ∷ "counter" ∷ "html" ∷ "i18n" ∷ "index" ∷ "web-infrastructure" ∷ [];
    }
    ∷ []

abbrev usual_limits : FileLimits
usual_limits = record {
  index_max_lines = 150;
  index_max_tests = 5;
  index_max_source_imports = 1;
  file_max_lines = 600;
}

abbrev pub file_limits : List (String × FileLimits)
file_limits =
    ("packages/application", usual_limits)
    ∷ ("packages/domain", usual_limits)
    ∷ ("packages/web", usual_limits)
    ∷ []

-- A file of the slice: the test of its name, or one in its folder.
unfoldable pub in_slice : String → String → String → Bool
in_slice directory slice path =
    path == (directory ++ ("/test/unit/" ++ (slice ++ ".test.ts")))
    || path == (directory ++ ("/test/unit/" ++ (slice ++ ".test.tsx")))
    || starts_with path (directory ++ ("/test/unit/" ++ (slice ++ "/")))

unfoldable pub missing_slice_violations : PackagePolicy → List String → List Violation
unfolding in_slice some_of
missing_slice_violations policy files =
    if policy.enforce_slices
    then map
        (λ slice. record {
          path = policy.directory ++ "/test/unit";
          message = "missing required unit test slice " ++ (slice ++ ".");
        })
        (filter (λ slice. not (some_of (in_slice policy.directory slice) files)) policy.slices)
    else []

-- A node of the syntax tree: the name that a call calls, "" for another node; and its children.
mutual
  pub data Node : Type 0 where
    node : String → Nodes → Node

  pub data Nodes : Type 0 where
    no_nodes : Nodes
    nodes : Node → Nodes → Nodes

-- A parsed file: the specifiers of its imports, for a statement that is one, and its tree.
pub record SourceFile : Type 0 where
  pub statements : List (Option String)
  pub tree : Node

unfoldable pub import_specifiers : SourceFile → List String
unfolding filter_map
import_specifiers source_file = filter_map (λ statement. statement) source_file.statements

abbrev pub test_call_names : List String
test_call_names = "test" ∷ "testEffect" ∷ []

unfoldable pub is_test_call : String → Bool
unfolding contains
is_test_call callee_name = contains test_call_names callee_name

unfoldable mutual
  unfolding is_test_call

  pub test_call_count : Node → ℕ
  test_call_count (node callee_name children) =
      (if is_test_call callee_name then 1 else 0) + test_calls_in children

  pub test_calls_in : Nodes → ℕ
  test_calls_in no_nodes = 0
  test_calls_in (nodes n rest) = test_call_count n + test_calls_in rest

unfoldable pub over_limit : String → ℕ → ℕ → String → List Violation
over_limit path actual max subject =
    if ltb max actual
    then record {
      path = path;
      message =
          "has " ++ (show actual ++ (" " ++ (subject ++ ("; maximum is " ++ (show max ++ ".")))));
    }
      ∷ []
    else []

-- `matches pattern text` is `pattern.test(text)`; `lines` counts what `Str.split("\n")` gives.
module _ (matches : String → String → Bool) (parse : String → String → SourceFile)
    (line_count : String → ℕ) (package_directory : String → String) where
  abbrev package_source_import_pattern : String
  package_source_import_pattern = "^\\.\\.\\/\\.\\.\\/src\\/"

  abbrev forbidden_index_import_pattern : String
  forbidden_index_import_pattern =
      "^\\.\\.\\/\\.\\.\\/src\\/(?!index\\.ts$)|\\.(?:model|factory|view|controller|service|repository)\\.tsx?$"

  abbrev support_pattern : String
  support_pattern = "^packages\\/[^/]+\\/test\\/unit\\/support\\/"

  unfoldable pub index_test_violations : String → SourceFile → FileLimits → ℕ → List Violation
  unfolding over_limit test_call_count import_specifiers
  index_test_violations path source_file limits lines =
      let imports = import_specifiers source_file in
      let source_imports = filter (matches package_source_import_pattern) imports in
      List.◌++◌ (over_limit path lines limits.index_max_lines "lines") (
        List.◌++◌
          (over_limit path (test_call_count source_file.tree) limits.index_max_tests "test calls")
          (List.◌++◌
            (over_limit path (length source_imports) limits.index_max_source_imports
              "package source imports")
            (map
              (λ specifier. record {
                path = path;
                message = "index tests must not import " ++ (specifier ++ "; use a slice test.");
              })
              (filter (matches forbidden_index_import_pattern) imports))))

  unfoldable pub support_violations : String → String → List Violation
  support_violations path text =
      List.◌++◌
        (if matches "^packages\\/[^/]+\\/test\\/unit\\/support\\/index\\.tsx?$" path
          then record {
            path = path;
            message = "unit support barrels are banned; import concrete support files.";
          }
            ∷ []
          else [])
        (if matches "\\b(?:expect|assert)\\s*(?:\\.|\\()" text
          then record { path = path; message = "unit support files must not hide assertions." } ∷ []
          else [])

  unfoldable pub test_file_violations : String → String → FileLimits → List Violation
  unfolding index_test_violations over_limit
  test_file_violations path text limits =
      let lines = line_count text in
      if matches "^packages\\/[^/]+\\/test\\/unit\\/index\\.test\\.tsx?$" path
      then index_test_violations path (parse path text) limits lines
      else over_limit path lines limits.file_max_lines "lines"

  abbrev limited_violations : String → String → Option FileLimits → List Violation
  limited_violations path text none = []
  limited_violations path text (some limits) = test_file_violations path text limits

  unfoldable pub file_violations : String → String → List Violation
  unfolding support_violations test_file_violations
  file_violations path text =
      if matches support_pattern path
      then support_violations path text
      else limited_violations path text (rec_get file_limits (package_directory path))

module _ (package_directory : String → String) where
  unfoldable pub package_files : List String → List (String × List String)
  unfolding rec_get rec_set
  package_files unit_test_files =
      foldl
        (λ by_package path.
          rec_set by_package (package_directory path)
            (List.◌++◌ (get_or (rec_get by_package (package_directory path)) []) (path ∷ [])))
        [] unit_test_files

  -- The violations of the policies of packages; the files are those with a unit test.
  unfoldable pub slice_violations : List String → List Violation
  unfolding flat_map package_files missing_slice_violations
  slice_violations unit_test_files =
      flat_map
        (λ policy.
          missing_slice_violations policy
            (get_or (rec_get (package_files unit_test_files) policy.directory) []))
        package_policies
