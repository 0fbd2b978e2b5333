-- ===== src/Sfuse/Contract.antt =====
-- What an encrypting sfuse needs: of the layer below, a file that serves any range of bytes, and of
-- a codec, that what it encodes can be decoded.
use safefs.Prelude.{
  ℕ, ◌-◌, ◌≤◌, ◌<◌, ◌^◌, min, ◌≡◌, Bool, true, some, ℤ, pos, length, take, drop, splice, Action,
}
use safefs.Layers.{FilePath, Buffer, FileInfo, Stat, FuseOperations}
use safefs.Sfuse.Layout.{Layout, encoded_length}

-- `Holds s p`: in the state `s` the file has the bytes `p`. Behind the bytes that it has, a read may
-- leave anything in the buffer, as multi_loopback does.
pub record IsRawFile {S : Type 0} (is_reg : ℕ → Bool) (path : FilePath) (fi : FileInfo)
    (next : FuseOperations S) (Holds : S → Buffer → Type 0) : Type 0 where
  pub size_law :
      (s : S) (p : Buffer) (st : Stat)
      → Holds s p
      → (st' : Stat) × (s' : S) × (next.fgetattr path st fi s ≡ some ((pos 0, st'), s'))
        × (st'.st_size ≡ pos (length p))
        × (is_reg st'.st_mode ≡ true)
        × Holds s' p
  pub read_law :
      (s : S) (p buf : Buffer) (n offset : ℕ)
      → Holds s p
      → offset ≤ length p
      → n < 2 ^ 31
      → n ≤ length buf
      → (buf' : Buffer) × (s' : S) × (next.read path buf n offset fi s
          ≡ some ((pos (min n (length p - offset)), buf'), s'))
        × (take (min n (length p - offset)) buf' ≡ take n (drop offset p))
        × Holds s' p
  pub write_law :
      (s : S) (p buf : Buffer) (n offset : ℕ)
      → Holds s p
      → offset ≤ length p
      → 0 < n
      → n < 2 ^ 31
      → n ≤ length buf
      → (s' : S) × (next.write path buf n offset fi s ≡ some (pos n, s'))
        × Holds s' (splice offset (take n buf) p)
  pub truncate_law :
      (s : S) (p : Buffer) (size : ℕ)
      → Holds s p
      → size ≤ length p
      → (s' : S) × (next.ftruncate path size fi s ≡ some (pos 0, s')) × Holds s' (take size p)

-- `Encodes d e`: the bytes `e` are an encoding of the block `d`.
pub record IsCodec {S : Type 0} (pad : ℕ) (Holds : S → Buffer → Type 0)
    (Encodes : Buffer → Buffer → Type 0) (enc dec : Buffer → Buffer → ℤ → Action S (ℤ × Buffer))
    : Type 0 where
  pub length_law : (d e : Buffer) → Encodes d e → length e ≡ encoded_length pad (length d)
  pub encode_law :
      (s : S) (p dest src : Buffer) (n : ℕ)
      → Holds s p
      → n ≤ length src
      → length dest ≡ encoded_length pad n
      → (e : Buffer) × (s' : S) × (enc dest src (pos n) s
          ≡ some ((pos (encoded_length pad n), e), s'))
        × Encodes (take n src) e
        × Holds s' p
  pub decode_law :
      (s : S) (d e dest src : Buffer)
      → Encodes d e
      → take (length e) src ≡ e
      → length d ≤ length dest
      → dec dest src (pos (length e)) s ≡ some ((pos (length d), splice 0 d dest), s)

-- `Stored Encodes block_size Holds s c`: in the state `s` the file below stores `c`.
abbrev pub Stored :
    {S : Type 0} → (Buffer → Buffer → Type 0) → ℕ → (S → Buffer → Type 0) → S → Buffer → Type 0
Stored Encodes block_size Holds s c = (p : Buffer) × Holds s p × Layout Encodes block_size c p
