-- ===== src/Core/Utils.antt =====
-- netfiles/src/core/utils.hpp: splitting, the split of a command line, and case conversion.
mod Join
mod Lines
pub use Join.{
  split-first, split-only, SplitOnce, join, join-split, split-Lacks, parse_cmd-SplitOnce,
  to_upper-to_lower,
}
unfoldable pub use Join.{split, parse_cmd, to_lower, to_upper, tolower, toupper}
unfoldable pub use Lines.{getlines, ends_in_cr, drop_cr}
pub use Lines.{getlines-part, getlines-last}
