-- ===== src/MultiLoopback/Directory.antt =====
-- The listing of a directory and the reading of a link of multi_loopback.c, which ask the first
-- device alone, and the table of callbacks.
use safefs.Prelude.{
  ℕ, zero, suc, ◌+◌, ◌^◌, ◌%◌, ◌-◌, ◌==◌, Bool, ◌&&◌, Option, none, some, ℤ, pos, negsuc, neg_one,
  eq_ℤ, leb, ltb, if◌then◌else◌, List, [], ◌∷◌, ◌++◌, length, drop, get_elem?, set, Action, pure,
  lift, ◌>>=◌, ◌>>◌, memcpy, uninit,
}
use safefs.Layers.{FilePath, Buffer, FileInfo, FuseOperations}
use safefs.MultiLoopback.Posix.{Posix}
use safefs.MultiLoopback.State.{
  Setup, Loopback, LoopbackDirp, MpathAux, path_size, on_world, in_world, deref, device_path,
}
use safefs.MultiLoopback.Paths.{
  errno_status, loopback_getattr, loopback_statfs, loopback_mknod, loopback_mkdir, loopback_unlink,
  loopback_rmdir, loopback_symlink, loopback_rename, loopback_link, loopback_create, loopback_open,
  loopback_opendir, loopback_truncate, loopback_chmod, loopback_chown,
}
use safefs.MultiLoopback.Files.{
  loopback_fgetattr, loopback_releasedir, loopback_read, loopback_write, loopback_flush,
  loopback_release, loopback_fsync, loopback_ftruncate,
}

-- The bytes before the first zero; `none` where there is none in the array.
unfoldable pub c_string : Buffer → Option Buffer
c_string [] = none
c_string (b ∷ bs) =
    let rest = c_string bs in
    if b == 0 then some [] else elim rest [ none ↦ none | some s ↦ some (b ∷ s) ]

-- The entry that was not passed on yet, or the next one of the directory.
abbrev pub next_entry : {W : Type 0} → Posix W → LoopbackDirp → W → Option FilePath × W
next_entry os d w = elim d.entry [ none ↦ os.readdir d.dp w | some name ↦ (some name, w) ]

-- The loop of `loopback_readdir`. `full` says whether FUSE takes no name beside those it has. The
-- loop ends with the directory, so it is run for a number of rounds, and faults if that is short.
unfoldable pub read_entries :
    {W : Type 0}
    → Posix W
    → (List FilePath → Bool)
    → ℕ
    → LoopbackDirp
    → List FilePath
    → Action W (LoopbackDirp × List FilePath)
read_entries os full zero d names w = none
read_entries os full (suc rounds) d names w =
    let (entry, w') = next_entry os d w in
    elim entry [
      | none ↦ some ((record d { entry = none }, names), w')
      | some name ↦
          let rest =
            read_entries os full rounds (record d { entry = none; offset = os.telldir d.dp w' })
              (names ++ (name ∷ [])) w' in
          if full names then some ((record d { entry = some name }, names), w') else rest
    ]

module _ {W : Type 0} (g : Setup W) where
  -- `auxbuf` has PATHSIZE bytes; `readlink` writes no terminator, so the copy goes on to the first
  -- zero that the array happens to hold.
  unfoldable pub loopback_readlink : FilePath → Buffer → ℕ → Action (Loopback W) (ℤ × Buffer)
  unfolding c_string
  loopback_readlink path buf size = do
    newpath ← lift (device_path g path 0)
    (res, auxbuf) ←
        on_world (g.os.readlink newpath (uninit g.junk path_size) ((size + (2 ^ 64 - 1)) % 2 ^ 64))
    code ← errno_status g res
    if eq_ℤ res neg_one then pure (code, buf) else (do
      dev ← lift (get_elem? g.devices_path 0)
      link ← lift (c_string (drop (length dev) auxbuf))
      buf' ← lift (memcpy buf 0 (link ++ (0 ∷ [])) (length link + 1))
      buf'' ← lift (terminate buf' res (length dev))
      pure (pos 0, buf''))
    where
      terminate : Buffer → ℤ → ℕ → Option Buffer
      terminate buf (pos n) psize =
          if leb psize n && ltb (n - psize) (length buf) then some (set buf (n - psize) 0) else none
      terminate buf (negsuc n) psize = none

  -- The directory of the first device, moved to the offset asked for.
  abbrev seek : LoopbackDirp → ℕ → Action W LoopbackDirp
  seek d offset w =
      if offset == d.offset
      then some (d, w)
      else some (record d { entry = none; offset = offset }, g.os.seekdir d.dp offset w)

  abbrev keep_handle : ℕ → MpathAux → Action (Loopback W) (Unit {0})
  keep_handle fh mp s =
      some (tt, record s { handles = (λ p. if p == fh then some mp else s.handles p) })

  module _ (full : List FilePath → Bool) (rounds : ℕ) where
    unfoldable pub loopback_readdir :
        FilePath → List FilePath → ℕ → FileInfo → Action (Loopback W) (ℤ × List FilePath)
    unfolding read_entries
    loopback_readdir path names offset fi = do
      mp ← deref fi.fh
      d ← lift (get_elem? mp.ldp 0)
      d' ← in_world (seek d offset)
      (d'', names') ← in_world (read_entries g.os full rounds d' names)
      keep_handle fi.fh (record mp { ldp = set mp.ldp 0 d'' })
      pure (pos 0, names')

    unfoldable pub loopback_oper : FuseOperations (Loopback W)
    unfolding loopback_readlink loopback_readdir
    loopback_oper = record {
      getattr = loopback_getattr g;
      fgetattr = loopback_fgetattr g;
      readlink = loopback_readlink;
      opendir = loopback_opendir g;
      readdir = loopback_readdir;
      releasedir = loopback_releasedir g;
      mknod = loopback_mknod g;
      mkdir = loopback_mkdir g;
      symlink = loopback_symlink g;
      unlink = loopback_unlink g;
      rmdir = loopback_rmdir g;
      rename = loopback_rename g;
      link = loopback_link g;
      create = loopback_create g;
      open_file = loopback_open g;
      read = loopback_read g;
      write = loopback_write g;
      statfs = loopback_statfs g;
      flush = loopback_flush g;
      release = loopback_release g;
      fsync = loopback_fsync g;
      truncate = loopback_truncate g;
      ftruncate = loopback_ftruncate g;
      chown = loopback_chown g;
      chmod = loopback_chmod g;
    }
