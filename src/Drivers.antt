-- ===== src/Drivers.antt =====
-- multi_loop_drivers/xor.c and multi_loop_drivers/rep.c: how a block of a file is spread over the
-- devices of multi_loopback, and put together again.
mod Defs
pub mod Bytes
pub mod Xor
pub mod Rep
unfoldable pub use Defs.*
