-- ===== src/MultiLoopback/Paths.antt =====
-- The operations of multi_loopback.c on paths.
use safefs.Prelude.{
  ℕ, none, some, ℤ, pos, neg, neg_one, eq_ℤ, to_u64, if◌then◌else◌, List, map, [], Action, pure,
  lift, ◌>>=◌, ◌>>◌,
}
use safefs.Layers.{FilePath, Buffer, FileInfo, Stat}
use safefs.MultiLoopback.Requests.{
  erasure, OpInfo, mknod_op, mkdir_op, unlink_op, rmdir_op, symlink_op, rename_op, link_op,
  create_op, open_op, opendir_op, truncate_op, chmod_op, chown_op, Reply,
}
use safefs.MultiLoopback.State.{
  Setup, Loopback, LoopbackDirp, on_world, in_world, new_handle, dispatch, status, path_requests,
  link_requests, device_path,
}

module _ {W : Type 0} (g : Setup W) where
  abbrev run_paths : FilePath → (FilePath → OpInfo) → Action (Loopback W) ℤ
  run_paths path op = do (out, replies) ← dispatch g (path_requests g path op); pure (status out)

  abbrev run_links : FilePath → FilePath → (FilePath → FilePath → OpInfo) → Action (Loopback W) ℤ
  run_links from to op = do
    (out, replies) ← dispatch g (link_requests g from to op)
    pure (status out)

  unfoldable pub loopback_mknod : FilePath → ℕ → ℕ → Action (Loopback W) ℤ
  loopback_mknod path mode rdev = run_paths path (λ p. mknod_op p mode rdev)

  unfoldable pub loopback_mkdir : FilePath → ℕ → Action (Loopback W) ℤ
  loopback_mkdir path mode = run_paths path (λ p. mkdir_op p mode)

  unfoldable pub loopback_unlink : FilePath → Action (Loopback W) ℤ
  loopback_unlink path = run_paths path unlink_op

  unfoldable pub loopback_rmdir : FilePath → Action (Loopback W) ℤ
  loopback_rmdir path = run_paths path rmdir_op

  unfoldable pub loopback_symlink : FilePath → FilePath → Action (Loopback W) ℤ
  loopback_symlink from to = run_links from to symlink_op

  unfoldable pub loopback_rename : FilePath → FilePath → Action (Loopback W) ℤ
  loopback_rename from to = do
    (out, replies) ← dispatch g (link_requests g from to rename_op)
    if eq_ℤ out.res neg_one then pure out.op_error else elim g.mode [
      | erasure ↦ (do in_world (g.driver.rename_keys from to); pure (pos 0))
      | _ ↦ pure (pos 0)
    ]

  unfoldable pub loopback_link : FilePath → FilePath → Action (Loopback W) ℤ
  loopback_link from to = run_links from to link_op

  -- The descriptors that the devices returned, under a new handle.
  abbrev keep_descriptors : List Reply → FileInfo → Action (Loopback W) FileInfo
  keep_descriptors replies fi = do
    fh ← new_handle (record { ldp = []; devs_fd = map (λ r. to_u64 r.op_res) replies })
    pure (record fi { fh = fh })

  unfoldable pub loopback_create : FilePath → ℕ → FileInfo → Action (Loopback W) (ℤ × FileInfo)
  loopback_create path mode fi = do
    (out, replies) ← dispatch g (path_requests g path (λ p. create_op p fi.flags mode))
    if eq_ℤ out.res neg_one then pure (out.op_error, fi) else (do
      fi' ← keep_descriptors replies fi
      elim g.mode [
        | erasure ↦ (do in_world (g.driver.create_keys path); pure (pos 0, fi'))
        | _ ↦ pure (pos 0, fi')
      ])

  unfoldable pub loopback_open : FilePath → FileInfo → Action (Loopback W) (ℤ × FileInfo)
  loopback_open path fi = do
    (out, replies) ← dispatch g (path_requests g path (λ p. open_op p fi.flags))
    if eq_ℤ out.res neg_one
        then pure (out.op_error, fi)
        else (do fi' ← keep_descriptors replies fi; pure (pos 0, fi'))

  -- What the thread that opened a directory leaves. Where it could not, the last two fields are what
  -- `malloc` gave, taken for empty here: nothing can be read through the null pointer.
  abbrev opened_dirp : Reply → LoopbackDirp
  opened_dirp r = record { dp = r.dp; entry = none; offset = 0 }

  unfoldable pub loopback_opendir : FilePath → FileInfo → Action (Loopback W) (ℤ × FileInfo)
  loopback_opendir path fi = do
    (out, replies) ← dispatch g (path_requests g path opendir_op)
    if eq_ℤ out.res neg_one then pure (out.op_error, fi) else (do
      fh ← new_handle (record { ldp = map (λ (r : Reply). opened_dirp r) replies; devs_fd = [] })
      pure (pos 0, record fi { fh = fh }))

  unfoldable pub loopback_truncate : FilePath → ℕ → Action (Loopback W) ℤ
  loopback_truncate path size = run_paths path (λ p. truncate_op p size)

  unfoldable pub loopback_chmod : FilePath → ℕ → Action (Loopback W) ℤ
  loopback_chmod path mode = run_paths path (λ p. chmod_op p mode)

  unfoldable pub loopback_chown : FilePath → ℕ → ℕ → Action (Loopback W) ℤ
  loopback_chown path uid gid = run_paths path (λ p. chown_op p uid gid)

  -- `res == -1` of a call on the first device alone.
  abbrev pub errno_status : ℤ → Action (Loopback W) ℤ
  errno_status res s =
      some ((if eq_ℤ res neg_one then neg (pos (g.os.errno s.world)) else pos 0), s)

  -- In mode ERASURE the size is the driver's.
  abbrev pub driver_size_of : FilePath → Stat → Action (Loopback W) Stat
  driver_size_of path st = elim g.mode [
    | erasure ↦ (do
      size ← in_world (g.driver.get_file_size path)
      pure (record st { st_size = pos size }))
    | _ ↦ pure st
  ]

  unfoldable pub loopback_getattr : FilePath → Stat → Action (Loopback W) (ℤ × Stat)
  loopback_getattr path stbuf = do
    newpath ← lift (device_path g path 0)
    (res, st) ← on_world (g.os.lstat newpath stbuf)
    code ← errno_status res
    if eq_ℤ res neg_one
        then pure (code, st)
        else (do st' ← driver_size_of path st; pure (pos 0, st'))

  unfoldable pub loopback_statfs : FilePath → Buffer → Action (Loopback W) (ℤ × Buffer)
  loopback_statfs path stbuf = do
    newpath ← lift (device_path g path 0)
    (res, st) ← on_world (g.os.statvfs newpath stbuf)
    code ← errno_status res
    pure (code, st)
