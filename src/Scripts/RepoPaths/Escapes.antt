-- ===== src/Scripts/RepoPaths/Escapes.antt =====
-- What scripts/lint-repo-path-policy.ts reports of a syntax tree.
use Prim.Native.String.{String}
use mathlib.Core.List
use mathlib.Core.Path.{ap₂}
use es_ts_example.Common.{
  ◌≡◌, refl, sym, Bool, Bool-cases, inl, inr, Option, none, some, List, [], ◌∷◌, map, filter,
  filter-append,
}
use es_ts_example.Scripts.MutationTimed.Batches.{map_append}
use es_ts_example.Scripts.RepoPaths.{
  Node, node, Nodes, no_nodes, nodes, path_literal, literal_violation, escapes_repo, own_violations,
  violations_for_node, violations_in, PathViolation,
}

abbrev pub own_literal : Option String → List String
own_literal none = []
own_literal (some value) = value ∷ []

-- The literals of a tree, in the order of the text.
unfoldable mutual
  pub literals_of : Node → List String
  literals_of (node kind children) =
      List.◌++◌ (own_literal (path_literal kind)) (literals_in children)

  pub literals_in : Nodes → List String
  literals_in no_nodes = []
  literals_in (nodes n rest) = List.◌++◌ (literals_of n) (literals_in rest)

module _ (matches : String → String → Bool) (normalize dirname : String → String) where
  unfoldable escaping : String → List String → List PathViolation
  escaping path values =
      map (literal_violation path) (filter (escapes_repo matches normalize dirname path) values)

  escaping_nothing : (path : String) → escaping path [] ≡ []
  unfolding escaping
  escaping_nothing path = refl

  escaping-append :
      (path : String) (xs ys : List String)
      → escaping path (List.◌++◌ xs ys) ≡ List.◌++◌ (escaping path xs) (escaping path ys)
  unfolding escaping
  escaping-append path xs ys =
      rw (filter-append (escapes_repo matches normalize dirname path) xs ys)
        (map_append (literal_violation path) _ _)

  own_violations-escaping :
      (path : String) (literal : Option String)
      → own_violations matches normalize dirname path literal ≡ escaping path (own_literal literal)
  unfolding own_violations escaping
  own_violations-escaping path none = refl
  own_violations-escaping path (some value) =
      elim (Bool-cases (escapes_repo matches normalize dirname path value)) [
        | inl e ↦ rw e refl
        | inr e ↦ rw e refl
      ]

  mutual
    unfolding violations_for_node literals_of

    violations_for_node-escaping :
        (path : String) (n : Node)
        → violations_for_node matches normalize dirname path n ≡ escaping path (literals_of n)
    violations_for_node-escaping path (node kind children) =
        rw (escaping-append path (own_literal (path_literal kind)) (literals_in children)) (
          ap₂ List.◌++◌ (own_violations-escaping path (path_literal kind))
            (violations_in-escaping path children))

    violations_in-escaping :
        (path : String) (ns : Nodes)
        → violations_in matches normalize dirname path ns ≡ escaping path (literals_in ns)
    violations_in-escaping path no_nodes = sym (escaping_nothing path)
    violations_in-escaping path (nodes n rest) =
        rw (escaping-append path (literals_of n) (literals_in rest))
          (ap₂ List.◌++◌ (violations_for_node-escaping path n) (violations_in-escaping path rest))

  -- Of a file's tree, exactly the literals are reported that escape the repository from where the file is,
  -- in the order of the text.
  pub violations_for_node_lem :
      (path : String) (n : Node)
      → violations_for_node matches normalize dirname path n
        ≡ map
            (literal_violation path)
            (filter (escapes_repo matches normalize dirname path) (literals_of n))
  unfolding escaping
  violations_for_node_lem path n = violations_for_node-escaping path n
