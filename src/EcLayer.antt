-- ===== src/EcLayer.antt =====
-- ec_layer: a stand-alone file system that keeps each file as fragments of an erasure code.
mod Blocks
unfoldable pub use Blocks.*
pub mod Fragments
pub mod Kept
pub mod Contents
mod Defs
pub mod ReadWrite
unfoldable pub use Defs.*
