-- ===== src/Layers.antt =====
-- layers_def.h and the table of FUSE callbacks through which the layers call one another. FUSE is
-- not in the repository: the table has the callbacks that a layer installs, each as an action on a
-- state that the layers below share. An argument that C passes by pointer and writes through is
-- returned beside the result.
use safefs.Prelude.{ℕ, ℤ, List, Action}

-- A C string, without its terminator, and an array of bytes.
abbrev pub FilePath : Type 0
FilePath = List ℕ

abbrev pub Buffer : Type 0
Buffer = List ℕ

-- `struct fuse_file_info`, by the fields that the layers use.
pub record FileInfo : Type 0 where
  pub flags : ℕ
  pub fh : ℕ

-- `struct stat`, by the fields that the layers use.
pub record Stat : Type 0 where
  pub st_mode : ℕ
  pub st_size : ℤ

-- `struct fuse_operations`. A directory listing is the list of names that the filler took.
pub record FuseOperations (S : Type 0) : Type 0 where
  pub getattr : FilePath → Stat → Action S (ℤ × Stat)
  pub fgetattr : FilePath → Stat → FileInfo → Action S (ℤ × Stat)
  pub readlink : FilePath → Buffer → ℕ → Action S (ℤ × Buffer)
  pub opendir : FilePath → FileInfo → Action S (ℤ × FileInfo)
  pub readdir : FilePath → List FilePath → ℕ → FileInfo → Action S (ℤ × List FilePath)
  pub releasedir : FilePath → FileInfo → Action S ℤ
  pub mknod : FilePath → ℕ → ℕ → Action S ℤ
  pub mkdir : FilePath → ℕ → Action S ℤ
  pub symlink : FilePath → FilePath → Action S ℤ
  pub unlink : FilePath → Action S ℤ
  pub rmdir : FilePath → Action S ℤ
  pub rename : FilePath → FilePath → Action S ℤ
  pub link : FilePath → FilePath → Action S ℤ
  pub create : FilePath → ℕ → FileInfo → Action S (ℤ × FileInfo)
  pub open_file : FilePath → FileInfo → Action S (ℤ × FileInfo)
  pub read : FilePath → Buffer → ℕ → ℕ → FileInfo → Action S (ℤ × Buffer)
  pub write : FilePath → Buffer → ℕ → ℕ → FileInfo → Action S ℤ
  pub statfs : FilePath → Buffer → Action S (ℤ × Buffer)
  pub flush : FilePath → FileInfo → Action S ℤ
  pub release : FilePath → FileInfo → Action S ℤ
  pub fsync : FilePath → ℕ → FileInfo → Action S ℤ
  pub truncate : FilePath → ℕ → Action S ℤ
  pub ftruncate : FilePath → ℕ → FileInfo → Action S ℤ
  pub chown : FilePath → ℕ → ℕ → Action S ℤ
  pub chmod : FilePath → ℕ → Action S ℤ

-- `struct multi_driver`, without `clean`, which no driver sets. The last four callbacks belong to
-- the erasure driver alone.
pub record MultiDriver (W : Type 0) : Type 0 where
  pub encode : FilePath → List Buffer → Buffer → ℕ → ℕ → ℕ → Action W (List Buffer)
  pub decode : Buffer → List Buffer → ℕ → ℕ → Action W Buffer
  pub get_driver_offset : FilePath → ℕ → Action W ℤ
  pub get_driver_size : FilePath → ℕ → Action W ℕ
  pub get_file_size : FilePath → Action W ℕ
  pub rename_keys : FilePath → FilePath → Action W (Unit {0})
  pub create_keys : FilePath → Action W (Unit {0})
