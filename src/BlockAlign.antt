-- ===== src/BlockAlign.antt =====
-- align/blockalign.c: every read and write is cut into accesses of the layer below that start at
-- a block boundary.
mod Defs
mod Resize
pub mod Contract
mod Rounds
mod Edit
mod ReadBlock
pub mod Reads
mod WriteBlock
pub mod Writes
mod Grow
mod Cuts
pub mod Truncates
pub mod Errors
unfoldable pub use Defs.*
unfoldable pub use Resize.*
