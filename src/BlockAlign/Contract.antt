-- ===== src/BlockAlign/Contract.antt =====
-- What the layer below promises of one open file to block_align: it stands for a sequence of
-- bytes, and serves the accesses that start at a block boundary and cover a whole block or all
-- that the file has left there. An encrypting layer promises no more than this.
use safefs.Prelude.{
  ℕ, ◌+◌, ◌-◌, ◌*◌, ◌/◌, ◌%◌, ◌≤◌, ◌<◌, min, ◌≡◌, some, pos, length, take, drop, ◌++◌, splice,
  arith, false, ◌==◌,
}
use safefs.Layers.{FilePath, Buffer, FileInfo, Stat, FuseOperations}

abbrev pub IsAligned : ℕ → ℕ → Type 0
IsAligned block_size offset = (k : ℕ) × (offset ≡ k * block_size)

pub nonzero : (n : ℕ) → 0 < n → (n == 0) ≡ false
nonzero n h = ground arith

pub IsAligned-next :
    (block_size offset : ℕ)
    → IsAligned block_size offset
    → IsAligned block_size (offset + block_size)
IsAligned-next block_size offset (k, e) = (k + 1, grind arith)

-- Where the block of an offset starts.
pub IsAligned-start :
    (block_size offset : ℕ) → 0 < block_size → IsAligned block_size (offset - offset % block_size)
IsAligned-start block_size offset p = (offset / block_size, grind arith)

-- `Holds s c`: in the state `s` the file has the contents `c`.
pub record IsBlockFile {S : Type 0} (block_size : ℕ) (path : FilePath) (fi : FileInfo)
    (next : FuseOperations S) (Holds : S → Buffer → Type 0) : Type 0 where
  pub size_law :
      (s : S) (c : Buffer) (st : Stat)
      → Holds s c
      → (st' : Stat) × (s' : S) × (next.fgetattr path st fi s ≡ some ((pos 0, st'), s'))
        × (st'.st_size ≡ pos (length c))
        × Holds s' c
  pub read_law :
      (s : S) (c buf : Buffer) (n offset : ℕ)
      → Holds s c
      → IsAligned block_size offset
      → offset ≤ length c
      → n ≤ block_size
      → min block_size (length c - offset) ≤ n
      → n ≤ length buf
      → (s' : S) × (next.read path buf n offset fi s
          ≡ some ((pos (min n (length c - offset)), splice 0 (take n (drop offset c)) buf), s'))
        × Holds s' c
  pub write_law :
      (s : S) (c buf : Buffer) (n offset : ℕ)
      → Holds s c
      → IsAligned block_size offset
      → offset ≤ length c
      → 0 < n
      → n ≤ block_size
      → min block_size (length c - offset) ≤ n
      → n ≤ length buf
      → (s' : S) × (next.write path buf n offset fi s ≡ some (pos n, s'))
        × Holds s' (splice offset (take n buf) c)

-- What truncating needs of the layer below, beside whole blocks. `Cut s c n`: the file was cut
-- inside a block; `c` are its whole blocks before, and nothing is known of the last one, of `n`
-- bytes, until as many are written again.
pub record IsResizable {S : Type 0} (block_size : ℕ) (path : FilePath) (fi : FileInfo)
    (next : FuseOperations S) (Holds : S → Buffer → Type 0) (Cut : S → Buffer → ℕ → Type 0)
    : Type 0 where
  pub same_law :
      (s : S) (c : Buffer)
      → Holds s c
      → (s' : S) × (next.ftruncate path (length c) fi s ≡ some (pos 0, s')) × Holds s' c
  pub aligned_law :
      (s : S) (c : Buffer) (size : ℕ)
      → Holds s c
      → size ≤ length c
      → IsAligned block_size size
      → (s' : S) × (next.ftruncate path size fi s ≡ some (pos 0, s')) × Holds s' (take size c)
  pub cut_law :
      (s : S) (c : Buffer) (size : ℕ)
      → Holds s c
      → size < length c
      → (s' : S) × (next.ftruncate path size fi s ≡ some (pos 0, s'))
        × Cut s' (take (size / block_size * block_size) c) (size % block_size)
  pub rewrite_law :
      (s : S) (c buf : Buffer) (m n : ℕ)
      → Cut s c m
      → IsAligned block_size (length c)
      → 0 < n
      → m ≤ n
      → n ≤ block_size
      → n ≤ length buf
      → (s' : S) × (next.write path buf n (length c) fi s ≡ some (pos n, s'))
        × Holds s' (c ++ take n buf)
