-- ===== src/MultiLoopback/Files.antt =====
-- The operations of multi_loopback.c on open files and directories.
use safefs.Prelude.{
  ℕ, ◌-◌, ◌^◌, Option, none, some, ℤ, pos, neg_one, eq_ℤ, ltb_ℤ, if◌then◌else◌, List, map, [],
  get_elem?, replicate, Action, pure, lift, ◌>>=◌, ◌>>◌, memcpy, uninit,
}
use safefs.Layers.{FilePath, Buffer, FileInfo, Stat}
use safefs.MultiLoopback.Requests.{
  erasure, OpInfo, read_op, write_op, flush_op, release_op, fsync_op, ftruncate_op, releasedir_op,
}
use safefs.MultiLoopback.State.{
  Setup, Loopback, MpathAux, on_world, in_world, deref, free_handle, for_devices, dispatch, status,
  fd_requests, device_path,
}
use safefs.MultiLoopback.Paths.{errno_status, driver_size_of}

-- -1 as an `off_t` and as a `uint64_t`
abbrev pub unset : ℤ × ℕ
unset = (neg_one, 2 ^ 64 - 1)

module _ {W : Type 0} (g : Setup W) where
  unfoldable pub loopback_fgetattr : FilePath → Stat → FileInfo → Action (Loopback W) (ℤ × Stat)
  loopback_fgetattr path stbuf fi = do
    mp ← deref fi.fh
    fd ← lift (get_elem? mp.devs_fd 0)
    (res, st) ← on_world (g.os.fstat fd stbuf)
    code ← errno_status g res
    if eq_ℤ res neg_one
        then pure (code, st)
        else (do st' ← driver_size_of g path st; pure (pos 0, st'))

  unfoldable pub loopback_releasedir : FilePath → FileInfo → Action (Loopback W) ℤ
  loopback_releasedir path fi = do
    mp ← deref fi.fh
    (out, replies) ← dispatch g (
        for_devices
          (λ i. elim (get_elem? mp.ldp i) [ none ↦ none | some d ↦ some (releasedir_op d.dp) ]) 0
          g.ndevs)
    free_handle fi.fh
    pure (status out)

  -- Where a driver keeps a block: its offset and its size on a device.
  abbrev pub driver_span : FilePath → ℕ → ℤ × ℕ → Action (Loopback W) (ℤ × ℕ)
  driver_span path offset unused = elim g.mode [
    | erasure ↦ (do
      driver_offset ← in_world (g.driver.get_driver_offset path offset)
      driver_size ← in_world (g.driver.get_driver_size path offset)
      pure (driver_offset, driver_size))
    | _ ↦ pure unused
  ]

  -- The size of a `magicblock`, and of what is decoded.
  abbrev pub block_length : ℕ → ℕ → ℕ
  block_length size driver_size = elim g.mode [ erasure ↦ driver_size | _ ↦ size ]

  -- The paths are built for a message alone, in an array of PATHSIZE bytes all the same.
  unfoldable pub read_request : FilePath → MpathAux → ℕ → ℕ → ℤ × ℕ → ℕ → Option OpInfo
  read_request path mp size offset (driver_offset, driver_size) i = elim (device_path g path i) [
    | none ↦ none
    | some _ ↦ elim (get_elem? mp.devs_fd i) [
      | none ↦ none
      | some fd ↦ some (
          read_op fd (uninit g.junk (block_length size driver_size)) size offset driver_size
            driver_offset)
    ]
  ]

  unfoldable pub read_requests : FilePath → MpathAux → ℕ → ℕ → ℤ × ℕ → Option (List OpInfo)
  unfolding read_request
  read_requests path mp size offset span =
      for_devices (read_request path mp size offset span) 0 g.ndevs

  unfoldable pub loopback_read :
      FilePath → Buffer → ℕ → ℕ → FileInfo → Action (Loopback W) (ℤ × Buffer)
  unfolding read_requests
  loopback_read path buf size offset fi = do
    mp ← deref fi.fh
    span ← driver_span path offset unset
    (out, replies) ← dispatch g (read_requests path mp size offset span)
    if ltb_ℤ (pos 0) out.res
        then (do
          buf' ←
              in_world
                (g.driver.decode buf (map (λ r. r.buf) replies) (block_length size span.1) g.ndevs)
          pure (out.res, buf'))
        else pure (out.res, buf)

  unfoldable pub write_request :
      FilePath → MpathAux → List Buffer → ℕ → ℕ → ℤ × ℕ → ℕ → Option OpInfo
  write_request path mp magicblocks size offset (magicblockoffset, magicblocksize) i =
      elim (device_path g path i) [
        | none ↦ none
        | some _ ↦ elim (get_elem? mp.devs_fd i) [
          | none ↦ none
          | some fd ↦ elim (get_elem? magicblocks i) [
            | none ↦ none
            | some b ↦ some (write_op fd b size offset magicblocksize magicblockoffset)
          ]
        ]
      ]

  unfoldable pub write_requests :
      FilePath → MpathAux → List Buffer → ℕ → ℕ → ℤ × ℕ → Option (List OpInfo)
  unfolding write_request
  write_requests path mp magicblocks size offset span =
      for_devices (write_request path mp magicblocks size offset span) 0 g.ndevs

  -- In mode ERASURE the driver allocates the blocks.
  abbrev pub fresh_blocks : ℕ → List Buffer
  fresh_blocks size = elim g.mode [ erasure ↦ [] | _ ↦ replicate g.ndevs (uninit g.junk size) ]

  unfoldable pub loopback_write : FilePath → Buffer → ℕ → ℕ → FileInfo → Action (Loopback W) ℤ
  unfolding write_requests
  loopback_write path buf size offset fi = do
    mp ← deref fi.fh
    block ← lift (memcpy (uninit g.junk size) 0 buf size)
    magicblocks ← in_world (g.driver.encode path (fresh_blocks size) block offset size g.ndevs)
    span ← driver_span path offset unset
    (out, replies) ← dispatch g (write_requests path mp magicblocks size offset span)
    pure out.res

  abbrev pub run_descriptors : FileInfo → (ℕ → OpInfo) → Action (Loopback W) ℤ
  run_descriptors fi op = do
    mp ← deref fi.fh
    (out, replies) ← dispatch g (fd_requests g mp op)
    pure (status out)

  unfoldable pub loopback_flush : FilePath → FileInfo → Action (Loopback W) ℤ
  loopback_flush path fi = run_descriptors fi flush_op

  unfoldable pub loopback_release : FilePath → FileInfo → Action (Loopback W) ℤ
  loopback_release path fi = do
    mp ← deref fi.fh
    (out, replies) ← dispatch g (fd_requests g mp release_op)
    free_handle fi.fh
    pure (status out)

  unfoldable pub loopback_fsync : FilePath → ℕ → FileInfo → Action (Loopback W) ℤ
  loopback_fsync path isdatasync fi = run_descriptors fi fsync_op

  unfoldable pub loopback_ftruncate : FilePath → ℕ → FileInfo → Action (Loopback W) ℤ
  loopback_ftruncate path size fi = run_descriptors fi (λ fd. ftruncate_op fd size)
