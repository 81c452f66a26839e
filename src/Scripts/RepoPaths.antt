-- ===== src/Scripts/RepoPaths.antt =====
-- scripts/lint-repo-path-policy.ts, on the scripts and the syntax trees of the tracked files.
pub mod Escapes
use Prim.Native.String.{String, ◌++◌}
use package.text.Mathlib.Text.{starts_with}
use mathlib.Core.List
use es_ts_example.Common.{
  Bool, true, false, not, ◌||◌, ◌&&◌, ◌==◌, Option, none, some, List, [], ◌∷◌, map, filter,
  if◌then◌else◌,
}
use es_ts_example.Scripts.MutationReports.{flat_map}

pub record PathViolation : Type 0 where
  pub path : String
  pub value : String
  pub message : String

-- The nodes of a syntax tree, by what the check asks of them.
pub data NodeKind : Type 0 where
  string_literal : String → NodeKind
  template_literal : String → NodeKind
  other_kind : NodeKind

mutual
  pub data Node : Type 0 where
    node : NodeKind → Nodes → Node

  pub data Nodes : Type 0 where
    no_nodes : Nodes
    nodes : Node → Nodes → Nodes

abbrev pub path_literal : NodeKind → Option String
path_literal (string_literal text) = some text
path_literal (template_literal text) = some text
path_literal other_kind = none

abbrev pub literal_violation : String → String → PathViolation
literal_violation path value = record {
  path = path;
  value = value;
  message =
      "Relative paths must not escape the repository unless they are named policy exceptions.";
}

-- `matches pattern text` is `pattern.test(text)`; `normalize` and `dirname` are those of `Path.posix`.
module _ (matches : String → String → Bool) (normalize dirname : String → String) where
  unfoldable pub script_violations : String → List (String × String) → List PathViolation
  unfolding flat_map
  script_violations path scripts =
      flat_map
        (λ entry.
          if matches "\\.\\.\\/\\.\\.(?!\\/features\\/)" entry.1
          then record {
            path = path;
            value = entry.0 ++ (": " ++ entry.1);
            message =
                "Package scripts must not escape the repository unless they are named policy exceptions.";
          }
            ∷ []
          else [])
        scripts

  unfoldable pub escapes_repo : String → String → Bool
  escapes_repo path value =
      if not (starts_with value "..")
      then false
      else (let resolved = normalize (dirname path ++ ("/" ++ value)) in
          resolved == ".." || starts_with resolved "../")

  unfoldable pub own_violations : String → Option String → List PathViolation
  unfolding escapes_repo
  own_violations path none = []
  own_violations path (some value) =
      if escapes_repo path value then literal_violation path value ∷ [] else []

  unfoldable mutual
    pub violations_for_node : String → Node → List PathViolation
    violations_for_node path (node kind children) =
        List.◌++◌ (own_violations path (path_literal kind)) (violations_in path children)

    pub violations_in : String → Nodes → List PathViolation
    violations_in path no_nodes = []
    violations_in path (nodes n rest) =
        List.◌++◌ (violations_for_node path n) (violations_in path rest)

  unfoldable pub dump_violations : String → List PathViolation
  dump_violations path =
      if matches "(?:^|\\/)(?:\\.new\\d*\\.json|[^/]*\\.events\\.json|\\.counter-events\\.json)$"
        path
      then record {
        path = path;
        value = path;
        message =
            "Event-store session dumps must not be tracked; delete the file and write runtime state outside the repository.";
      }
        ∷ []
      else []

  -- `package_scripts` and `tree` are what the files hold: the scripts of a manifest and a syntax tree.
  unfoldable pub path_violations :
      (String → List (String × String)) → (String → Node) → List String → List PathViolation
  unfolding flat_map script_violations violations_for_node dump_violations
  path_violations package_scripts tree files =
      List.◌++◌
        (flat_map (λ path. script_violations path (package_scripts path))
          (filter (matches "(?:^|\\/)package\\.json$") files))
        (List.◌++◌
          (flat_map (λ path. violations_for_node path (tree path))
            (filter (matches "\\.tsx?$") files))
          (flat_map dump_violations files))
