-- ===== src/MultiLoopback/Posix.antt =====
-- The system calls that multi_loopback.c and utils.c make. The kernel is not in the repository: a call is a
-- function on the state of the world, and returns what the C function returns, -1 for an error.
use safefs.Prelude.{ℕ, ℤ, Bool, Option}
use safefs.Layers.{FilePath, Buffer, Stat}

pub record Posix (W : Type 0) : Type 0 where
  pub errno : W → ℕ
  -- An assignment to `errno`.
  pub set_errno : ℕ → W → W
  -- `S_ISFIFO`
  pub is_fifo : ℕ → Bool
  pub lstat : FilePath → Stat → W → (ℤ × Stat) × W
  pub stat : FilePath → Stat → W → (ℤ × Stat) × W
  pub fstat : ℕ → Stat → W → (ℤ × Stat) × W
  pub readlink : FilePath → Buffer → ℕ → W → (ℤ × Buffer) × W
  pub pread : ℕ → Buffer → ℕ → ℤ → W → (ℤ × Buffer) × W
  pub pwrite : ℕ → Buffer → ℕ → ℤ → W → ℤ × W
  pub dup : ℕ → W → ℤ × W
  pub close : ℤ → W → ℤ × W
  pub fsync : ℕ → W → ℤ × W
  pub truncate : FilePath → ℕ → W → ℤ × W
  pub ftruncate : ℕ → ℕ → W → ℤ × W
  pub mkfifo : FilePath → ℕ → W → ℤ × W
  pub mknod : FilePath → ℕ → ℕ → W → ℤ × W
  pub mkdir : FilePath → ℕ → W → ℤ × W
  pub unlink : FilePath → W → ℤ × W
  pub rmdir : FilePath → W → ℤ × W
  pub open_create : FilePath → ℕ → ℕ → W → ℤ × W
  pub open_file : FilePath → ℕ → W → ℤ × W
  -- `none` is a null pointer.
  pub opendir : FilePath → W → Option ℕ × W
  pub closedir : Option ℕ → W → ℤ × W
  -- The name of the next entry; `none` behind the last one.
  pub readdir : Option ℕ → W → Option FilePath × W
  pub seekdir : Option ℕ → ℕ → W → W
  pub telldir : Option ℕ → W → ℕ
  pub symlink : FilePath → FilePath → W → ℤ × W
  pub rename : FilePath → FilePath → W → ℤ × W
  pub link : FilePath → FilePath → W → ℤ × W
  pub chmod : FilePath → ℕ → W → ℤ × W
  pub lchown : FilePath → ℕ → ℕ → W → ℤ × W
  pub statvfs : FilePath → Buffer → W → (ℤ × Buffer) × W
