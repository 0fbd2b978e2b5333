-- ===== src/MultiLoopback/Requests.antt =====
-- `struct op_info`, `threads_func` and `wait_for_all_requests` of multi_loopback.c.
use safefs.Prelude.{
  ℕ, Bool, true, false, ◌&&◌, not, Option, none, some, ℤ, pos, neg, neg_one, eq_ℤ, ltb_ℤ,
  if◌then◌else◌, List, [], ◌∷◌,
}
use safefs.Layers.{FilePath, Buffer}
use safefs.MultiLoopback.Posix.{Posix}

-- REP, XOR and ERASURE of multi_loopback.h
pub data DriverMode : Type 0 where
  rep xor erasure : DriverMode

-- `struct op_info` before it is run: the operation with the fields that its handler sets.
pub data OpInfo : Type 0 where
  read_op :
      (fd : ℕ) (buf : Buffer) (size offset : ℕ) (magicblocksize : ℕ) (magicblockoffset : ℤ) → OpInfo
  write_op :
      (fd : ℕ) (buf : Buffer) (size offset : ℕ) (magicblocksize : ℕ) (magicblockoffset : ℤ) → OpInfo
  flush_op : (fd : ℕ) → OpInfo
  release_op : (fd : ℕ) → OpInfo
  fsync_op : (fd : ℕ) → OpInfo
  truncate_op : (path : FilePath) (size : ℕ) → OpInfo
  ftruncate_op : (fd size : ℕ) → OpInfo
  mknod_op : (path : FilePath) (mode rdev : ℕ) → OpInfo
  mkdir_op : (path : FilePath) (mode : ℕ) → OpInfo
  unlink_op : (path : FilePath) → OpInfo
  rmdir_op : (path : FilePath) → OpInfo
  create_op : (path : FilePath) (flags mode : ℕ) → OpInfo
  open_op : (path : FilePath) (flags : ℕ) → OpInfo
  opendir_op : (path : FilePath) → OpInfo
  releasedir_op : (dp : Option ℕ) → OpInfo
  symlink_op : (frompath topath : FilePath) → OpInfo
  rename_op : (frompath topath : FilePath) → OpInfo
  link_op : (frompath topath : FilePath) → OpInfo
  chmod_op : (path : FilePath) (mode : ℕ) → OpInfo
  chown_op : (path : FilePath) (uid gid : ℕ) → OpInfo

-- `struct op_info` after it is run: `op_res`, `op_error`, the buffer read into and the directory
-- opened.
pub record Reply : Type 0 where
  pub op_res : ℤ
  pub op_error : ℤ
  pub buf : Buffer
  pub dp : Option ℕ

module _ {W : Type 0} (os : Posix W) (mode : DriverMode) (junk_error : ℤ) where
  -- The end of `threads_func`: `op_error` is set after a result of -1, and else left as it was.
  unfoldable pub reply : Buffer → Option ℕ → ℤ × W → Reply × W
  reply buf dp (res, w) = (
    record {
      op_res = res;
      op_error = (if eq_ℤ res neg_one then neg (pos (os.errno w)) else junk_error);
      buf = buf;
      dp = dp;
    },
    w,
  )

  unfoldable pub done : ℤ × W → Reply × W
  unfolding reply
  done r = reply [] none r

  unfoldable pub read_device : DriverMode → ℕ → Buffer → ℕ → ℕ → ℕ → ℤ → W → Reply × W
  unfolding reply
  read_device erasure fd buf size offset magicblocksize magicblockoffset w =
      let ((n, buf'), w') = os.pread fd buf magicblocksize magicblockoffset w in
      reply buf' none ((if ltb_ℤ (pos 0) n then pos size else n), w')
  read_device _ fd buf size offset magicblocksize magicblockoffset w =
      let ((n, buf'), w') = os.pread fd buf size (pos offset) w in reply buf' none (n, w')

  -- In mode ERASURE the result of `pwrite` is not looked at.
  unfoldable pub write_device : DriverMode → ℕ → Buffer → ℕ → ℕ → ℕ → ℤ → W → Reply × W
  unfolding reply
  write_device erasure fd buf size offset magicblocksize magicblockoffset w =
      let (n, w') = os.pwrite fd buf magicblocksize magicblockoffset w in
      reply buf none (pos size, w')
  write_device _ fd buf size offset magicblocksize magicblockoffset w =
      reply buf none (os.pwrite fd buf size (pos offset) w)

  unfoldable pub open_directory : Option ℕ × W → Reply × W
  unfolding reply
  open_directory (none, w) = reply [] none (neg (pos (os.errno w)), w)
  open_directory (some dp, w) = reply [] (some dp) (pos 0, w)

  unfoldable pub threads_func : OpInfo → W → Reply × W
  unfolding done read_device write_device open_directory
  threads_func (read_op fd buf size offset bs bo) w = read_device mode fd buf size offset bs bo w
  threads_func (write_op fd buf size offset bs bo) w = write_device mode fd buf size offset bs bo w
  threads_func (flush_op fd) w = let (fd', w') = os.dup fd w in done (os.close fd' w')
  threads_func (release_op fd) w = done (os.close (pos fd) w)
  threads_func (fsync_op fd) w = done (os.fsync fd w)
  threads_func (truncate_op path size) w = done (os.truncate path size w)
  threads_func (ftruncate_op fd size) w = done (os.ftruncate fd size w)
  threads_func (mknod_op path mode rdev) w =
      done (if os.is_fifo mode then os.mkfifo path mode w else os.mknod path mode rdev w)
  threads_func (mkdir_op path mode) w = done (os.mkdir path mode w)
  threads_func (unlink_op path) w = done (os.unlink path w)
  threads_func (rmdir_op path) w = done (os.rmdir path w)
  threads_func (create_op path flags mode) w = done (os.open_create path flags mode w)
  threads_func (open_op path flags) w = done (os.open_file path flags w)
  threads_func (opendir_op path) w = open_directory (os.opendir path w)
  threads_func (releasedir_op dp) w = done (os.closedir dp w)
  threads_func (symlink_op from to) w = done (os.symlink from to w)
  threads_func (rename_op from to) w = done (os.rename from to w)
  threads_func (link_op from to) w = done (os.link from to w)
  threads_func (chmod_op path mode) w = done (os.chmod path mode w)
  threads_func (chown_op path uid gid) w = done (os.lchown path uid gid w)

-- What `wait_for_all_requests` returns, and leaves in `inf[0].op_error`.
pub record Outcome : Type 0 where
  pub res : ℤ
  pub op_error : ℤ

-- `op_type == READ_OP || op_type == WRITE_OP`
abbrev pub moves_data : OpInfo → Bool
moves_data (read_op fd buf size offset bs bo) = true
moves_data (write_op fd buf size offset bs bo) = true
moves_data _ = false

-- The loop of `wait_for_all_requests` behind its first round: `first` is the reply of device 0,
-- and `same` says whether the results must agree.
unfoldable pub scan_replies : Bool → Reply → List Reply → Outcome
scan_replies same first [] = record { res = first.op_res; op_error = first.op_error }
scan_replies same first (r ∷ rs) =
    let failed : Outcome = record { res = neg_one; op_error = r.op_error } in
    let rest = scan_replies same first rs in
    if eq_ℤ r.op_res neg_one
    then failed
    else (if same && not (eq_ℤ first.op_res r.op_res) then failed else rest)

-- With no device the result is uninitialised: `none`.
unfoldable pub wait_for_all_requests : Bool → List Reply → Option Outcome
unfolding scan_replies
wait_for_all_requests same [] = none
wait_for_all_requests same (r ∷ rs) = some (
    if eq_ℤ r.op_res neg_one
    then record { res = neg_one; op_error = r.op_error }
    else scan_replies same r rs)
