-- ===== src/Scripts/LiteralUnions.antt =====
-- scripts/lint-literal-unions.ts, on the syntax trees that the TypeScript compiler parses.
pub mod Sites
pub mod Owners
use Prim.Native.String.{String, ◌++◌}
use mathlib.Core.List
use es_ts_example.Common.{
  ℕ, ◌+◌, Bool, true, false, not, ◌&&◌, ◌||◌, ◌==◌, leb, Option, none, some, List, [], ◌∷◌, map,
  filter, filter_map, length, contains, rec_get, if◌then◌else◌,
}
use es_ts_example.Common.Decimal.{show}
use es_ts_example.Cli.Render.{join}
use es_ts_example.Application.Counter.{group_by}
use es_ts_example.Scripts.MutationReports.{flat_map}

-- What the check asks of a node: a call `Schema.Literal(…)`, by the arguments that are string literals, a
-- call `Schema.Union(…)`, a string literal, the declarations and types that hold literals, or another.
pub data NodeKind : Type 0 where
  schema_literal_call : List String → NodeKind
  schema_union_call : NodeKind
  string_literal : String → NodeKind
  literal_type import_declaration export_declaration source_file other : NodeKind

-- A node has a kind, its line and its children, `getChildren()`.
mutual
  pub data Node : Type 0 where
    node : NodeKind → ℕ → Nodes → Node

  pub data Nodes : Type 0 where
    no_nodes : Nodes
    nodes : Node → Nodes → Nodes

pub record LiteralSite : Type 0 where
  pub file : String
  pub line : ℕ
  pub members : List String

pub record MemberUse : Type 0 where
  pub file : String
  pub line : ℕ
  pub member : String

unfoldable pub is_schema_literal_call : NodeKind → Bool
is_schema_literal_call (schema_literal_call _) = true
is_schema_literal_call _ = false

abbrev pub own_members : NodeKind → List String
own_members (schema_literal_call texts) = texts
own_members _ = []

unfoldable mutual
  pub literal_members : Node → List String
  literal_members (node kind line children) = List.◌++◌ (own_members kind) (members_in children)

  pub members_in : Nodes → List String
  members_in no_nodes = []
  members_in (nodes n rest) = List.◌++◌ (literal_members n) (members_in rest)

unfoldable pub site_for_members : String → ℕ → List String → List LiteralSite
site_for_members file line members =
    if leb 2 (length members)
    then record { file = file; line = line; members = members } ∷ []
    else []

unfoldable pub own_literal_site : String → Node → Bool → List LiteralSite
unfolding is_schema_literal_call site_for_members literal_members
own_literal_site file (node kind line children) inside_union =
    if inside_union || not (is_schema_literal_call kind)
    then []
    else site_for_members file line (literal_members (node kind line children))

abbrev pub is_schema_union_call : NodeKind → Bool
is_schema_union_call schema_union_call = true
is_schema_union_call _ = false

unfoldable mutual
  unfolding site_for_members literal_members own_literal_site

  pub sites_for_node : String → Node → Bool → List LiteralSite
  sites_for_node file (node kind line children) inside_union =
      let below =
        child_sites file children (if is_schema_union_call kind then true else inside_union) in
      if is_schema_union_call kind
      then List.◌++◌ (site_for_members file line (literal_members (node kind line children))) below
      else List.◌++◌ (own_literal_site file (node kind line children) inside_union) below

  pub child_sites : String → Nodes → Bool → List LiteralSite
  child_sites file no_nodes inside_union = []
  child_sites file (nodes n rest) inside_union =
      List.◌++◌ (sites_for_node file n inside_union) (child_sites file rest inside_union)

unfoldable pub union_sites : Node → String → List LiteralSite
unfolding sites_for_node
union_sites tree file = sites_for_node file tree false

abbrev is_source_file : NodeKind → Bool
is_source_file source_file = true
is_source_file _ = false

-- The parents of a node, the nearest first, are the nodes above it.
unfoldable pub is_literal_definition_position : List NodeKind → Bool
unfolding is_schema_literal_call
is_literal_definition_position [] = false
is_literal_definition_position (parent ∷ parents) =
    let above = is_literal_definition_position parents in
    not (is_source_file parent) && (is_schema_literal_call parent || above)

-- The kinds of parent that rule a use out.
abbrev is_type_or_module : List NodeKind → Bool
is_type_or_module (literal_type ∷ _) = true
is_type_or_module (import_declaration ∷ _) = true
is_type_or_module (export_declaration ∷ _) = true
is_type_or_module _ = false

unfoldable pub is_value_level_use : List NodeKind → Bool
unfolding is_literal_definition_position
is_value_level_use parents =
    not (is_type_or_module parents) && not (is_literal_definition_position parents)

abbrev own_uses : String → List NodeKind → NodeKind → ℕ → List MemberUse
own_uses file parents (string_literal member) line =
    if is_value_level_use parents
    then record { file = file; line = line; member = member } ∷ []
    else []
own_uses file parents _ line = []

unfoldable mutual
  unfolding is_value_level_use

  pub uses_for_node : String → List NodeKind → Node → List MemberUse
  uses_for_node file parents (node kind line children) =
      List.◌++◌ (own_uses file parents kind line) (uses_in file (kind ∷ parents) children)

  pub uses_in : String → List NodeKind → Nodes → List MemberUse
  uses_in file parents no_nodes = []
  uses_in file parents (nodes n rest) =
      List.◌++◌ (uses_for_node file parents n) (uses_in file parents rest)

unfoldable pub member_uses : Node → String → List MemberUse
unfolding uses_for_node
member_uses tree file = uses_for_node file [] tree

-- `Arr.dedupe`
unfoldable pub dedupe_from : List String → List String → List String
dedupe_from seen [] = []
dedupe_from seen (x ∷ rest) =
    let kept = dedupe_from (if contains seen x then seen else x ∷ seen) rest in
    if contains seen x then kept else x ∷ kept

-- `Arr.sort(Order.String)` is a parameter.
module _ (sort : List String → List String) where
  unfoldable pub normalized_members : LiteralSite → String
  unfolding dedupe_from
  normalized_members site = join "|" (sort (dedupe_from [] site.members))

  abbrev site_text : LiteralSite → String
  site_text site = site.file ++ (":" ++ show site.line)

  abbrev first_members : List LiteralSite → List String
  first_members [] = []
  first_members (site ∷ _) = site.members

  -- `Rec.values` of the groups, in the order in which they first occur.
  unfoldable pub duplicate_union_violations : List LiteralSite → List String
  unfolding normalized_members
  duplicate_union_violations sites =
      map
        (λ group.
          "Duplicate literal union {"
          ++ (join ", " (first_members group.1)
              ++ ("} defined at "
                  ++ (join " and " (map site_text group.1)
                      ++ "; define it once and import the schema."))))
        (filter (λ group. leb 2 (length group.1)) (group_by normalized_members sites))

-- A member and the file of a site that has it.
abbrev pub definitions : List LiteralSite → List (String × String)
definitions sites = flat_map (λ site. map (λ member. (member, site.file)) site.members) sites

unfoldable pub defining_files_by_member : List LiteralSite → List (String × List (String × String))
unfolding flat_map
defining_files_by_member sites = group_by (λ definition. definition.0) (definitions sites)

unfoldable pub every : {A : Type 0} → (A → Bool) → List A → Bool
every p [] = true
every p (a ∷ rest) = p a && every p rest

abbrev pub all_elsewhere : MemberUse → Option (List (String × String)) → Bool
all_elsewhere found none = false
all_elsewhere found (some group) = every (λ definition. not (definition.1 == found.file)) group

unfoldable pub leaked_use : List LiteralSite → MemberUse → Bool
unfolding defining_files_by_member every rec_get
leaked_use sites found = all_elsewhere found (rec_get (defining_files_by_member sites) found.member)

unfoldable pub member_leak_violations : List LiteralSite → List MemberUse → List String
unfolding leaked_use
member_leak_violations sites uses =
    map
      (λ found.
        found.file
        ++ (":"
            ++ (show found.line
                ++ (": raw literal \""
                    ++ (found.member
                        ++ "\" belongs to the union defined elsewhere; import an exported constant or schema instead.")))))
      (filter (leaked_use sites) uses)
