-- ===== src/MultiLoopback/Contract.antt =====
-- What the handlers of multi_loopback.c need of the kernel and of a driver, and what they then
-- promise of an open file.
use safefs.Prelude.{
  ℕ, ◌-◌, ◌≤◌, ◌<◌, ◌^◌, min, ◌≡◌, ◌≢◌, Option, some, pos, List, [], ◌∷◌, ◌++◌, map, length, take,
  drop, splice,
}
use safefs.Layers.{FilePath, Buffer, FileInfo, Stat, FuseOperations, MultiDriver}
use safefs.Drivers.Xor.{HaveSize}
use safefs.MultiLoopback.Posix.{Posix}

-- `file w fd`: what stands in the file behind an open descriptor. No two descriptors in use stand for
-- one file, and the calls on regular files with space left move all the bytes they are asked for.
pub record IsDisk {W : Type 0} (os : Posix W) (file : W → ℕ → Option Buffer) : Type 0 where
  pub pread_law :
      (w : W) (fd : ℕ) (c buf : Buffer) (n offset : ℕ)
      → file w fd ≡ some c
      → offset ≤ length c
      → n < 2 ^ 31
      → n ≤ length buf
      → (w' : W) × (os.pread fd buf n (pos offset) w
          ≡ ((pos (min n (length c - offset)), splice 0 (take n (drop offset c)) buf), w'))
        × ((h : ℕ) → file w' h ≡ file w h)
  pub pwrite_law :
      (w : W) (fd : ℕ) (c buf : Buffer) (n offset : ℕ)
      → file w fd ≡ some c
      → offset ≤ length c
      → n < 2 ^ 31
      → n ≤ length buf
      → (w' : W) × (os.pwrite fd buf n (pos offset) w ≡ (pos n, w'))
        × (file w' fd ≡ some (splice offset (take n buf) c))
        × ((h : ℕ) → h ≢ fd → file w' h ≡ file w h)
  pub ftruncate_law :
      (w : W) (fd : ℕ) (c : Buffer) (size : ℕ)
      → file w fd ≡ some c
      → size ≤ length c
      → (w' : W) × (os.ftruncate fd size w ≡ (pos 0, w'))
        × (file w' fd ≡ some (take size c))
        × ((h : ℕ) → h ≢ fd → file w' h ≡ file w h)
  pub fstat_law :
      (w : W) (fd : ℕ) (c : Buffer) (st : Stat)
      → file w fd ≡ some c
      → (st' : Stat) × (w' : W) × (os.fstat fd st w ≡ ((pos 0, st'), w'))
        × (st'.st_size ≡ pos (length c))
        × ((h : ℕ) → file w' h ≡ file w h)

-- A run of bytes written over the contents of each device.
abbrev pub splices : ℕ → List Buffer → List Buffer → List Buffer
splices offset (b ∷ bs) (c ∷ cs) = splice offset b c ∷ splices offset bs cs
splices offset _ _ = []

-- `combine cs` is the file that the contents of the devices stand for.
pub record IsSplitter {W : Type 0} (driver : MultiDriver W) (file : W → ℕ → Option Buffer)
    (combine : List Buffer → Buffer) : Type 0 where
  pub encode_law :
      (path : FilePath) (w : W) (magicblocks : List Buffer) (block : Buffer) (offset size ndevs : ℕ)
      → length magicblocks ≡ ndevs
      → 1 ≤ ndevs
      → HaveSize size magicblocks
      → length block ≡ size
      → (ms : List Buffer) × (w' : W) × (driver.encode path magicblocks block offset size ndevs w
          ≡ some (ms, w'))
        × HaveSize size ms
        × (length ms ≡ ndevs)
        × (combine ms ≡ block)
        × ((h : ℕ) → file w' h ≡ file w h)
  pub decode_law :
      (w : W) (buf : Buffer) (ms : List Buffer) (size ndevs : ℕ)
      → length ms ≡ ndevs
      → 1 ≤ ndevs
      → HaveSize size ms
      → size ≤ length buf
      → driver.decode buf ms size ndevs w ≡ some (combine ms ++ drop size buf, w)
  pub length_law :
      (cs : List Buffer) (size : ℕ) → 1 ≤ length cs → HaveSize size cs → length (combine cs) ≡ size
  pub window_law :
      (cs : List Buffer) (size n offset : ℕ)
      → 1 ≤ length cs
      → HaveSize size cs
      → combine (map (λ c. take n (drop offset c)) cs) ≡ take n (drop offset (combine cs))
  pub splice_law :
      (bs cs : List Buffer) (size n offset : ℕ)
      → 1 ≤ length cs
      → length bs ≡ length cs
      → HaveSize size cs
      → HaveSize n bs
      → offset ≤ size
      → combine (splices offset bs cs) ≡ splice offset (combine bs) (combine cs)

-- `Holds s c`: in the state `s` the open file has the contents `c`. A read past its end gives what
-- is there, and leaves anything in the rest of what it was asked for.
pub record IsSpreadFile {S : Type 0} (path : FilePath) (fi : FileInfo) (next : FuseOperations S)
    (Holds : S → Buffer → Type 0) : Type 0 where
  pub size_law :
      (s : S) (c : Buffer) (st : Stat)
      → Holds s c
      → (st' : Stat) × (s' : S) × (next.fgetattr path st fi s ≡ some ((pos 0, st'), s'))
        × (st'.st_size ≡ pos (length c))
        × Holds s' c
  pub read_law :
      (s : S) (c buf : Buffer) (n offset : ℕ)
      → Holds s c
      → offset ≤ length c
      → n < 2 ^ 31
      → n ≤ length buf
      → (buf' : Buffer) × (s' : S) × (next.read path buf n offset fi s
          ≡ some ((pos (min n (length c - offset)), buf'), s'))
        × (take (min n (length c - offset)) buf' ≡ take n (drop offset c))
        × (drop n buf' ≡ drop n buf)
        × Holds s' c
  pub write_law :
      (s : S) (c buf : Buffer) (n offset : ℕ)
      → Holds s c
      → offset ≤ length c
      → n < 2 ^ 31
      → n ≤ length buf
      → (s' : S) × (next.write path buf n offset fi s ≡ some (pos n, s'))
        × Holds s' (splice offset (take n buf) c)
  pub truncate_law :
      (s : S) (c : Buffer) (size : ℕ)
      → Holds s c
      → size ≤ length c
      → (s' : S) × (next.ftruncate path size fi s ≡ some (pos 0, s')) × Holds s' (take size c)
