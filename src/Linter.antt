-- ===== src/Linter.antt =====
-- The rules of the linter in oxlint-plugins/es-ts-example/rules that decide by the path of a file. A rule is
-- a function of the name of the file to what it reports of the program, if anything.
pub mod Paths
pub mod Placement
pub mod Models
pub mod Ownership
pub mod Sources
use es_ts_example.Common.{Bool, Option, List}
use Prim.Native.String.{String}

-- What the rules take from JavaScript: `matches pattern text` is `pattern.test(text)`, `match_group` the first
-- group of a match, `replace pattern replacement text` and `split separator text` the methods of texts.
pub record Engine : Type 0 where
  pub matches : String → String → Bool
  pub match_group : String → String → Option String
  pub replace : String → String → String → String
  pub split : String → String → List String
  pub ends_with : String → String → Bool
  pub includes : String → String → Bool
