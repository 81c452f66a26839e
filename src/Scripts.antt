-- ===== src/Scripts.antt =====
-- The checks of the repository in scripts/: what each makes of the files that it reads. Reading files and
-- listing them is I/O; a check is a function of what was read, to the violations that it reports.
pub mod Policy
pub mod MutationScope
pub mod MutationReports
pub mod MutationTimed
pub mod LiteralUnions
pub mod UnitTests
pub mod CoveragePolicy
pub mod StrykerConfig
pub mod Messages
pub mod ExceptionHealth
pub mod Suppressions
pub mod RepoPaths
pub mod StepPairs
pub mod WebSources
use Prim.Native.String.{String, ◌++◌}
use es_ts_example.Common.{List}

pub record Violation : Type 0 where
  pub path : String
  pub message : String
