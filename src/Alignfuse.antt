-- ===== src/Alignfuse.antt =====
-- alignfuse.c and align/nopalign.c: the layer that cuts requests into blocks, or passes them on.
mod Defs
pub mod ByteFile
pub mod Refine
pub mod Errors
unfoldable pub use Defs.*
