-- ===== src/Tests.antt =====
-- Concrete runs of the operations that the other modules' theorems are about.
mod Blocks
mod Layers
mod Devices
mod Encoding
mod Encrypted
mod Erasure
mod Compose
mod World
mod Spread
mod Below
mod Config
mod EcLayer
