-- ===== src/Tests/Blocks.antt =====
-- A file of ten bytes, under block_align with blocks of four.
use safefs.Prelude.{
  ◌*◌, ◌/◌, ◌≤◌, ◌<◌, ◌==◌, ==_iff, if◌then◌else◌, Bool-cases, inl, inr, false, take_eq, take-all,
  splice-end, ℕ, ◌-◌, min, ◌≡◌, refl, some, pos, neg_one, length, take, drop, splice, [], ◌∷◌,
  arith, pure,
}
use safefs.Layers.{FilePath, Buffer, FileInfo, Stat, FuseOperations}
use safefs.BlockAlign.{block_align_read, block_align_write, block_align_truncate}
use safefs.BlockAlign.Contract.{IsAligned, IsBlockFile, IsResizable}
use safefs.BlockAlign.Truncates.{block_align_truncate_lem}
use safefs.BlockAlign.Reads.{block_align_read_lem}
use safefs.BlockAlign.Writes.{block_align_write_lem}

-- Cutting a file inside a block loses the whole block.
abbrev torn : ℕ → Buffer → Buffer
torn size s = if size == length s then s else take (size / 4 * 4) s

-- A file system of one file, which reads and writes any range.
abbrev pub flat : FuseOperations Buffer
flat = record {
  getattr = λ path st s. some ((pos 0, record st { st_size = pos (length s) }), s);
  fgetattr = λ path st fi s. some ((pos 0, record st { st_size = pos (length s) }), s);
  readlink = λ path buf size. pure (neg_one, buf);
  opendir = λ path fi. pure (neg_one, fi);
  readdir = λ path names offset fi. pure (neg_one, names);
  releasedir = λ path fi. pure neg_one;
  mknod = λ path mode rdev. pure neg_one;
  mkdir = λ path mode. pure neg_one;
  symlink = λ from to. pure neg_one;
  unlink = λ path. pure neg_one;
  rmdir = λ path. pure neg_one;
  rename = λ from to. pure neg_one;
  link = λ from to. pure neg_one;
  create = λ path mode fi. pure (pos 0, fi);
  open_file = λ path fi. pure (pos 0, fi);
  read = λ path buf size offset fi s.
      some ((pos (min size (length s - offset)), splice 0 (take size (drop offset s)) buf), s);
  write = λ path buf size offset fi s. some (pos size, splice offset (take size buf) s);
  statfs = λ path buf. pure (neg_one, buf);
  flush = λ path fi. pure (pos 0);
  release = λ path fi. pure (pos 0);
  fsync = λ path mode fi. pure (pos 0);
  truncate = λ path size s. some (pos 0, take size s);
  ftruncate = λ path size fi s. some (pos 0, torn size s);
  chown = λ path uid gid. pure neg_one;
  chmod = λ path mode. pure neg_one;
}

abbrev pub path0 : FilePath
path0 = 47 ∷ 97 ∷ []

abbrev pub fi0 : FileInfo
fi0 = record { flags = 0; fh = 3 }

abbrev pub st0 : Stat
st0 = record { st_mode = 0; st_size = pos 77 }

abbrev pub Is : Buffer → Buffer → Type 0
Is s c = s ≡ c

pub flat-IsBlockFile : IsBlockFile 4 path0 fi0 flat Is
flat-IsBlockFile = record {
  size_law = λ s c st h. (record st { st_size = pos (length s) }, s, refl, rw h refl, h);
  read_law = λ s c buf n offset h al inside le covers room. (s, rw h refl, h);
  write_law = λ s c buf n offset h al inside p le covers room.
      (splice offset (take n buf) s, refl, rw h refl);
}

torn_same : (c : Buffer) → torn (length c) c ≡ c
torn_same c = rw ((==_iff (length c) (length c)).1 refl) refl

torn_aligned : (size : ℕ) (c : Buffer) → IsAligned 4 size → torn size c ≡ take size c
torn_aligned size c (k, e) = elim (Bool-cases (size == length c)) [
  | inl same ↦ (let all : length c ≤ size = ground arith in rw (same, take-all size c all) refl)
  | inr less ↦ rw less (take_eq (size / 4 * 4) size c (omega arith))
]

torn_inside : (size : ℕ) (c : Buffer) → size < length c → torn size c ≡ take (size / 4 * 4) c
torn_inside size c lt = let less : (size == length c) ≡ false = ground arith in rw less refl

pub flat-IsResizable : IsResizable 4 path0 fi0 flat Is (λ s c n. Is s c)
flat-IsResizable = record {
  same_law = λ s c h. (s, rw (h, torn_same c) refl, h);
  aligned_law = λ s c size h le al. (torn size s, refl, rw (h, torn_aligned size c al) refl);
  cut_law = λ s c size h lt. (torn size s, refl, rw (h, torn_inside size c lt) refl);
  rewrite_law = λ s c buf m n h al p more le room.
      (splice (length c) (take n buf) s, refl, rw (h, splice-end (take n buf) c) refl);
}

abbrev pub ten_bytes : Buffer
ten_bytes = 10 ∷ 11 ∷ 12 ∷ 13 ∷ 14 ∷ 15 ∷ 16 ∷ 17 ∷ 18 ∷ 19 ∷ []

abbrev pub junk0 : ℕ → ℕ
junk0 n = 255

abbrev pub seven_bytes : Buffer
seven_bytes = 1 ∷ 2 ∷ 3 ∷ 4 ∷ 5 ∷ 6 ∷ 7 ∷ []

-- Seven bytes from offset 2: the end of one block, a whole block, and the start of the last.
block_align_read_lem_example :
    (s' : Buffer) × (block_align_read 4 junk0 st0 path0 seven_bytes 7 2 fi0 flat ten_bytes
      ≡ some ((pos 7, 12 ∷ 13 ∷ 14 ∷ 15 ∷ 16 ∷ 17 ∷ 18 ∷ []), s'))
    × Is s' ten_bytes
block_align_read_lem_example =
    block_align_read_lem flat-IsBlockFile junk0 st0 (omega arith) ten_bytes ten_bytes seven_bytes 7
      2 refl (omega arith) (omega arith) (omega arith) (omega arith) (omega arith)

-- Seven bytes from offset 6, past the end of the file.
block_align_write_lem_example :
    (s' : Buffer) × (block_align_write 4 junk0 st0 path0 seven_bytes 7 6 fi0 flat ten_bytes
      ≡ some (pos 7, s'))
    × Is s' (10 ∷ 11 ∷ 12 ∷ 13 ∷ 14 ∷ 15 ∷ 1 ∷ 2 ∷ 3 ∷ 4 ∷ 5 ∷ 6 ∷ 7 ∷ [])
block_align_write_lem_example =
    block_align_write_lem flat-IsBlockFile junk0 st0 (omega arith) ten_bytes ten_bytes seven_bytes 7
      6 refl (omega arith) (omega arith) (omega arith) (omega arith) (omega arith) (omega arith)

-- Cut inside the second block.
block_align_truncate_lem_example :
    (s' : Buffer) × (block_align_truncate 4 junk0 st0 9 path0 6 (some fi0) flat ten_bytes
      ≡ some (pos 0, s'))
    × Is s' (10 ∷ 11 ∷ 12 ∷ 13 ∷ 14 ∷ 15 ∷ [])
block_align_truncate_lem_example =
    block_align_truncate_lem flat-IsBlockFile flat-IsResizable junk0 st0 (omega arith) 9
      (omega arith) ten_bytes ten_bytes 6 refl (omega arith) (omega arith)
