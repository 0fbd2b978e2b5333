-- ===== src/Alignfuse/ByteFile.antt =====
-- What alignfuse promises of one open file to the layer above, the kernel's side: a sequence of
-- bytes of which any range can be read and written, and whose size can be set.
use safefs.Prelude.{
  ℕ, ◌+◌, ◌-◌, ◌^◌, ◌≤◌, ◌<◌, min, ◌≡◌, some, pos, length, take, drop, ◌++◌, replicate, splice,
}
use safefs.Layers.{FilePath, Buffer, FileInfo, FuseOperations}

-- `Holds s c`: in the state `s` the file has the contents `c`.
pub record IsByteFile {S : Type 0} (path : FilePath) (fi : FileInfo) (layer : FuseOperations S)
    (Holds : S → Buffer → Type 0) : Type 0 where
  pub read_range :
      (s : S) (c buf : Buffer) (size offset : ℕ)
      → Holds s c
      → offset ≤ length c
      → length c < 2 ^ 31
      → size < 2 ^ 31
      → size ≤ length buf
      → (s' : S) × (layer.read path buf size offset fi s
          ≡ some (
            (
              pos (min size (length c - offset)),
              splice 0 (take (min size (length c - offset)) (drop offset c)) buf,
            ),
            s',
          ))
        × Holds s' c
  pub write_range :
      (s : S) (c buf : Buffer) (size offset : ℕ)
      → Holds s c
      → offset ≤ length c
      → length c < 2 ^ 63
      → offset + size < 2 ^ 63
      → size < 2 ^ 31
      → size ≤ length buf
      → (s' : S) × (layer.write path buf size offset fi s ≡ some (pos size, s'))
        × Holds s' (splice offset (take size buf) c)
  pub set_size :
      (s : S) (c : Buffer) (size : ℕ)
      → Holds s c
      → length c < 2 ^ 31
      → size < 2 ^ 63
      → (s' : S) × (layer.ftruncate path size fi s ≡ some (pos 0, s'))
        × Holds s' (take size c ++ replicate (size - length c) 0)
