-- ===== src/Sfuse/Resize.antt =====
-- sfuse without encryption truncates as the layer below does, and under alignfuse it is a file of
-- bytes.
use safefs.Prelude.{ℕ, ◌^◌, ◌<◌, ◌≤◌, Bool, length, ◌++◌}
use safefs.Layers.{FilePath, Buffer, FileInfo, FuseOperations}
use safefs.Sfuse.Codec.{sfuse_oper}
use safefs.Sfuse.Padded.{nop_driver}
use safefs.Sfuse.Contract.{IsRawFile}

-- `Ragged Holds s c n`: behind `c` stand at most `n` more bytes.
abbrev pub Ragged : {S : Type 0} → (S → Buffer → Type 0) → S → Buffer → ℕ → Type 0
Ragged Holds s c n = (r : Buffer) × Holds s (c ++ r) × (length r ≤ n)

module _ {S : Type 0} (errno : S → ℕ) (is_reg : ℕ → Bool) (junk : ℕ → ℕ) {block_size : ℕ}
    {path : FilePath} {fi : FileInfo} {next : FuseOperations S} {Holds : S → Buffer → Type 0}
    (lower : IsRawFile is_reg path fi next Holds) (small : block_size < 2 ^ 31)
    (positive : 0 < block_size) where
  abbrev layer : FuseOperations S
  layer = sfuse_oper errno is_reg junk nop_driver next
