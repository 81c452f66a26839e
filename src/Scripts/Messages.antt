-- ===== src/Scripts/Messages.antt =====
-- scripts/lint-i18n-messages.ts, on the syntax trees of the catalogs and the texts that refer to them.
pub mod Used
use Prim.Native.String.{String, ◌++◌}
use mathlib.Core.List
use es_ts_example.Common.{
  ℕ, Bool, true, false, not, leb, Option, none, some, List, [], ◌∷◌, map, filter, length,
  if◌then◌else◌,
}
use es_ts_example.Common.Decimal.{show}
use es_ts_example.Cli.Render.{join}
use es_ts_example.Application.Counter.{group_by}
use es_ts_example.Scripts.Policy.{some_of}
use es_ts_example.Scripts.MutationReports.{flat_map}

-- A node of a catalog's tree: the name of a property assignment, where it is a string literal; the line;
-- the children.
mutual
  pub data Node : Type 0 where
    node : Option String → ℕ → Nodes → Node

  pub data Nodes : Type 0 where
    no_nodes : Nodes
    nodes : Node → Nodes → Nodes

pub record CatalogEntry : Type 0 where
  pub file : String
  pub line : ℕ
  pub id : String

abbrev pub own_entry : String → Option String → ℕ → List CatalogEntry
own_entry file none line = []
own_entry file (some id) line = record { file = file; line = line; id = id } ∷ []

unfoldable mutual
  pub entries_for_node : String → Node → List CatalogEntry
  entries_for_node file (node name line children) =
      List.◌++◌ (own_entry file name line) (entries_in file children)

  pub entries_in : String → Nodes → List CatalogEntry
  entries_in file no_nodes = []
  entries_in file (nodes n rest) = List.◌++◌ (entries_for_node file n) (entries_in file rest)

-- The catalogs are pairs of a path and a tree.
unfoldable pub catalog_entries : List (String × Node) → List CatalogEntry
unfolding flat_map entries_for_node
catalog_entries catalogs = flat_map (λ catalog. entries_for_node catalog.0 catalog.1) catalogs

abbrev place : CatalogEntry → String
place entry = entry.file ++ (":" ++ show entry.line)

abbrev first_id : List CatalogEntry → String
first_id [] = ""
first_id (entry ∷ _) = entry.id

unfoldable pub duplicate_violations : List CatalogEntry → List String
duplicate_violations entries =
    map
      (λ group.
        "Message id \""
        ++ (first_id group.1
            ++ ("\" is defined "
                ++ (show (length group.1)
                    ++ (" times: "
                        ++ (join ", " (map place group.1)
                            ++ ". Catalog spreads silently override duplicates."))))))
      (filter (λ group. leb 2 (length group.1)) (group_by (λ entry. entry.id) entries))

-- `includes text part` is `Str.includes`.
module _ (includes : String → String → Bool) (reference_texts : List String) where
  unfoldable pub referenced_somewhere : String → Bool
  unfolding some_of
  referenced_somewhere id = some_of (λ text. includes text ("\"" ++ (id ++ "\""))) reference_texts

  unfoldable pub orphan_violations : List CatalogEntry → List String
  unfolding referenced_somewhere
  orphan_violations entries =
      map
        (λ entry.
          place entry
          ++ (": message id \""
              ++ (entry.id ++ "\" is never referenced; delete the entry or wire it up.")))
        (filter (λ entry. not (referenced_somewhere entry.id)) entries)

  unfoldable pub message_violations : List CatalogEntry → List String
  unfolding duplicate_violations orphan_violations
  message_violations entries = List.◌++◌ (duplicate_violations entries) (orphan_violations entries)
