-- ===== src/Compose.antt =====
-- nopfuse.c, and SFSFuse.c: the stack of layers that a configuration asks for.
mod Nopfuse
mod Defs
pub mod Stacked
pub mod Passing
pub mod Main
unfoldable pub use Nopfuse.*
unfoldable pub use Defs.*
