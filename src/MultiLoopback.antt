-- ===== src/MultiLoopback.antt =====
-- multi_loopback.c: every operation is carried out on all devices by a pool of threads.
pub mod Posix
mod Requests
mod State
pub mod Wait
pub mod Interleave
pub mod Devices
pub mod Dispatch
pub mod Threads
pub mod Contents
pub mod Spread
pub mod SpreadResize
pub mod SpreadRead
pub mod Refine
pub mod Listing
pub mod Init
pub mod Mounted
pub mod Xored
pub mod Splitters
pub mod Contract
unfoldable pub use Posix.*
unfoldable pub use Requests.*
unfoldable pub use State.*
pub mod Paths
pub mod Files
pub mod Directory
