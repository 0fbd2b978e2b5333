-- ===== src/Erasure.antt =====
-- map/map.c and multi_loop_drivers/erasure.c: the driver of multi_loopback that spreads a block over
-- the devices with an erasure code, and remembers where the fragments of each block stand.
mod Map
mod Defs
pub mod Keys
pub mod Ids
pub mod Steps
pub mod Code
pub mod Sequence
pub mod Rename
unfoldable pub use Map.*
unfoldable pub use Defs.*
