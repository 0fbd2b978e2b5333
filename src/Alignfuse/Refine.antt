-- ===== src/Alignfuse/Refine.antt =====
-- alignfuse in mode BLOCK turns a file of blocks into a file of bytes.
use safefs.Prelude.{
  ℕ, ◌+◌, ◌-◌, ◌^◌, ◌≤◌, ◌<◌, min, ◌≡◌, refl, sym, ap, ◌∙◌, some, arith, pos, length, take, drop,
  splice, ◌>>=◌, length-splice, length-take, take-splice,
}
use safefs.Layers.{FilePath, Buffer, FileInfo, Stat, FuseOperations}
use safefs.BlockAlign.Contract.{IsBlockFile, IsResizable}
use safefs.BlockAlign.Reads.{block_align_read_lem}
use safefs.BlockAlign.Writes.{block_align_write_lem}
use safefs.BlockAlign.Truncates.{block_align_truncate_lem}
use safefs.Alignfuse.Defs.{
  block, errno_or_zero, alignfuse_read, alignfuse_write, alignfuse_ftruncate, alignfuse_oper,
  init_align_driver,
}
use safefs.Alignfuse.ByteFile.{IsByteFile}

module _ {S : Type 0} {block_size : ℕ} {path : FilePath} {fi : FileInfo} {next : FuseOperations S}
    {Holds : S → Buffer → Type 0} {Cut : S → Buffer → ℕ → Type 0} (errno : S → ℕ)
    (lower : IsBlockFile block_size path fi next Holds)
    (resizable : IsResizable block_size path fi next Holds Cut) (junk : ℕ → ℕ) (junk_stat : Stat)
    (small : block_size < 2 ^ 31) (junk_fh : ℕ) (some_bytes : 0 < block_size) where
  abbrev layer : FuseOperations S
  layer = init_align_driver errno block block_size junk junk_stat junk_fh next

  -- The layer that `init_align_driver` installs in mode BLOCK over a layer that serves whole blocks
  -- of a file is a file of bytes: any range that starts in the file or at its end is read and
  -- written, and the size can be set. The bounds are those of reading, writing and truncating: the
  -- blocks are shorter than 2 ^ 31 bytes and have at least a byte.
  pub init_align_driver-IsByteFile : IsByteFile path fi layer Holds
  unfolding init_align_driver alignfuse_oper alignfuse_read alignfuse_write alignfuse_ftruncate
      errno_or_zero
  init_align_driver-IsByteFile = record {
    read_range = λ s c buf size offset h inside l sl room.
        block_align_read_lem lower junk junk_stat small s c buf size offset h some_bytes inside l sl
          room;
    write_range = λ s c buf size offset h inside l end sl room.
        block_align_write_lem lower junk junk_stat small s c buf size offset h some_bytes inside l
          end sl room;
    set_size = λ s c size h l end.
        let (s', e, h') =
          block_align_truncate_lem lower resizable junk junk_stat small junk_fh some_bytes s c size
            h l end in
        (s', rw (◌>>=◌, e) refl, h');
  }

  -- What is written through the layer is read back: after a write of `size` bytes a read of the
  -- same range returns them and puts them at the start of the buffer, whatever the range's
  -- alignment. The range starts in the file or at its end, the file and the end of the range are
  -- below 2 ^ 31, the blocks are shorter than 2 ^ 31 bytes and have at least a byte, and both
  -- buffers have `size` bytes.
  pub init_align_driver-read_back :
      (s : S) (c bytes buf : Buffer) (size offset : ℕ)
      → Holds s c
      → offset ≤ length c
      → length c < 2 ^ 31
      → offset + size < 2 ^ 31
      → size ≤ length bytes
      → size ≤ length buf
      → (t : S) × (s' : S) × (layer.write path bytes size offset fi s ≡ some (pos size, t))
        × (layer.read path buf size offset fi t
            ≡ some ((pos size, splice 0 (take size bytes) buf), s'))
  init_align_driver-read_back s c bytes buf size offset h inside l end given room =
      let file = init_align_driver-IsByteFile in
      let d = take size bytes in
      let c' = splice offset d c in
      let count : length d ≡ size = omega (arith, length-take size bytes) in
      let (t, wrote, held) =
        file.write_range s c bytes size offset h inside (omega arith) (omega arith) (omega arith)
          given in
      let grown = length-splice offset d c inside in
      let (s', got, _) =
        file.read_range t c' buf size offset held (omega (arith, grown))
          (omega (arith, grown, count)) (omega arith) room in
      let all : min size (length c' - offset) ≡ size = omega (arith, grown, count) in
      let same : take size (drop offset c') ≡ d =
        ap (λ k. take k (drop offset c')) (sym count) ∙ take-splice offset d c inside in
      (t, s', wrote, rw (all, same) at got)
