-- ===== src/Sfuse.antt =====
-- sfuse.c and the codecs of crypto/: the layer that encodes every block it passes on.
mod Codec
mod Padded
mod Openssl
mod Symmetric
pub mod Layout
pub mod Prefixes
pub mod Contract
pub mod Below
pub mod DecodedSize
pub mod Encrypted
pub mod EncryptedResize
pub mod Cbc
pub mod Det
pub mod RandomString
pub mod Rand
pub mod Stack
pub mod Sizes
pub mod Refine
pub mod Resize
pub mod Errors
unfoldable pub use Codec.*
unfoldable pub use Padded.*
unfoldable pub use Openssl.*
unfoldable pub use Symmetric.*
