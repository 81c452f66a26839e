-- ===== src/Scripts/LiteralUnions/Sites.antt =====
-- The sites of unions in scripts/lint-literal-unions.ts have two members at least.
use es_ts_example.Common.{
  ◌≤◌, ◌||◌, not, Bool, Bool-cases, inl, inr, true, false, String, ℕ, List, length, leb, All,
  All-append, arith,
}
use es_ts_example.Scripts.LiteralUnions.{
  Node, node, Nodes, no_nodes, nodes, LiteralSite, is_schema_literal_call, site_for_members,
  own_literal_site, is_schema_union_call, sites_for_node, child_sites, union_sites,
}

abbrev pub IsUnion : LiteralSite → Type 0
IsUnion site = 2 ≤ length site.members

site_for_members-IsUnion :
    (file : String) (line : ℕ) (members : List String)
    → All IsUnion (site_for_members file line members)
unfolding site_for_members
site_for_members-IsUnion file line members = elim (Bool-cases (leb 2 (length members))) [
  | inl e ↦ rw e (ground (arith, e), tt)
  | inr e ↦ rw e tt
]

own_literal_site-IsUnion :
    (file : String) (n : Node) (inside_union : Bool)
    → All IsUnion (own_literal_site file n inside_union)
unfolding own_literal_site
own_literal_site-IsUnion file (node kind line children) inside_union =
    elim (Bool-cases (inside_union || not (is_schema_literal_call kind))) [
      | inl e ↦ rw e tt
      | inr e ↦ rw e (site_for_members-IsUnion file line _)
    ]

mutual
  unfolding sites_for_node

  sites_for_node-IsUnion :
      (file : String) (n : Node) (inside_union : Bool)
      → All IsUnion (sites_for_node file n inside_union)
  sites_for_node-IsUnion file (node kind line children) inside_union =
      elim (Bool-cases (is_schema_union_call kind)) [
        | inl e ↦ rw e (
            All-append _ _ _ (site_for_members-IsUnion file line _)
              (child_sites-IsUnion file children true))
        | inr e ↦ rw e (
            All-append _ _ _ (own_literal_site-IsUnion file (node kind line children) inside_union)
              (child_sites-IsUnion file children inside_union))
      ]

  child_sites-IsUnion :
      (file : String) (list : Nodes) (inside_union : Bool)
      → All IsUnion (child_sites file list inside_union)
  child_sites-IsUnion file no_nodes inside_union = tt
  child_sites-IsUnion file (nodes n rest) inside_union =
      All-append _ _ _ (sites_for_node-IsUnion file n inside_union)
        (child_sites-IsUnion file rest inside_union)

-- Whatever the syntax tree, a site of a union has at least two members.
pub union_sites-IsUnion : (tree : Node) (file : String) → All IsUnion (union_sites tree file)
unfolding union_sites
union_sites-IsUnion tree file = sites_for_node-IsUnion file tree false
