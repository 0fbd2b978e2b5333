-- ===== src/MultiLoopback/Listing.antt =====
-- `loopback_readdir` lists a directory and comes to an end.
use safefs.Prelude.{
  ℕ, zero, suc, ◌<◌, ◌≡◌, refl, ap, sym, ◌∙◌, Bool, true, false, Option, none, some, pos, List, [],
  ◌∷◌, ◌++◌, length, get_elem?, set, ==_iff, if◌then◌else◌, append-nil, append_assoc, arith, ◌==◌,
  ◌>>=◌,
}
use safefs.Layers.{FilePath, FileInfo}
use safefs.MultiLoopback.Posix.{Posix}
use safefs.MultiLoopback.State.{Setup, Loopback, LoopbackDirp, MpathAux, deref}
use safefs.MultiLoopback.Directory.{read_entries, next_entry, loopback_readdir}

-- `left w dp`: the names that an open directory still has.
pub record IsStream {W : Type 0} (os : Posix W) (left : W → Option ℕ → List FilePath) : Type 0 where
  pub next_law :
      (w : W) (dp : Option ℕ) (name : FilePath) (names : List FilePath)
      → left w dp ≡ name ∷ names
      → (w' : W) × (os.readdir dp w ≡ (some name, w')) × (left w' dp ≡ names)
  pub end_law :
      (w : W) (dp : Option ℕ)
      → left w dp ≡ []
      → (w' : W) × (os.readdir dp w ≡ (none, w')) × (left w' dp ≡ [])

module _ {W : Type 0} (os : Posix W) (left : W → Option ℕ → List FilePath)
    (stream : IsStream os left) (full : List FilePath → Bool)
    (never : (names : List FilePath) → full names ≡ false) where
  next_read :
      (d : LoopbackDirp) (w : W) (r : Option FilePath × W)
      → d.entry ≡ none
      → os.readdir d.dp w ≡ r
      → next_entry os d w ≡ r
  next_read d w r e got = rw e got

  read_entries_lem :
      (rest : List FilePath) (rounds : ℕ) (d : LoopbackDirp) (names : List FilePath) (w : W)
      → length rest < rounds
      → d.entry ≡ none
      → left w d.dp ≡ rest
      → (d' : LoopbackDirp) × (w' : W) × (read_entries os full rounds d names w
          ≡ some ((d', names ++ rest), w'))
        × (d'.dp ≡ d.dp)
        × (left w' d.dp ≡ [])
  unfolding read_entries
  read_entries_lem rest zero d names w h e l = absurd (omega arith)
  read_entries_lem [] (suc rounds) d names w h e l =
      let (w', got, l') = stream.end_law w d.dp l in
      (
        record d { entry = none },
        w',
        rw
            (
              read_entries,
              next_read d w (none, w') e got,
              append-nil names,
              next_read d w (none, w') e got,
            )
            refl,
        refl,
        l',
      )
  read_entries_lem (name ∷ rest) (suc rounds) d names w h e l =
      let (w1, got, l1) = stream.next_law w d.dp name rest l in
      let d1 : LoopbackDirp = record d { entry = none; offset = os.telldir d.dp w1 } in
      let (d', w', run, same, l') =
        read_entries_lem rest rounds d1 (names ++ (name ∷ [])) w1 (omega arith) refl l1 in
      (
        d',
        w',
        rw
              (
                read_entries,
                next_read d w (some name, w1) e got,
                never names,
                next_read d w (some name, w1) e got,
              )
              run
            ∙ ap (λ t. some ((d', t), w')) (append_assoc names (name ∷ []) rest),
        same,
        l',
      )

module _ {W : Type 0} (g : Setup W) (left : W → Option ℕ → List FilePath)
    (stream : IsStream g.os left) (full : List FilePath → Bool)
    (never : (names : List FilePath) → full names ≡ false) where
  -- `loopback_readdir` of a directory that has not been read, from its start, ends, returns 0 and
  -- passes on the names of the first device's directory, in their order and each once, when FUSE
  -- takes all of them and one round more is allowed than there are names. The directory is read to
  -- its end, and keeps its handle.
  pub loopback_readdir_lem :
      (path : FilePath) (names rest : List FilePath) (fi : FileInfo) (rounds : ℕ) (s : Loopback W)
      (mp : MpathAux) (d : LoopbackDirp)
      → s.handles fi.fh ≡ some mp
      → get_elem? mp.ldp 0 ≡ some d
      → d.entry ≡ none
      → d.offset ≡ 0
      → left s.world d.dp ≡ rest
      → length rest < rounds
      → (s' : Loopback W) × (loopback_readdir g full rounds path names 0 fi s
          ≡ some ((pos 0, names ++ rest), s'))
        × (left s'.world d.dp ≡ [])
        × ((mp' : MpathAux) × (s'.handles fi.fh ≡ some mp') × (mp'.devs_fd ≡ mp.devs_fd))
  unfolding loopback_readdir
  loopback_readdir_lem path names rest fi rounds s mp d opened first fresh start l h =
      let (d', w', run, same_dp, l') =
        read_entries_lem g.os left stream full never rest rounds d names s.world h fresh l in
      let here : (0 == d.offset) ≡ true = (==_iff 0 d.offset).1 (sym start) in
      let own : (fi.fh == fi.fh) ≡ true = (==_iff fi.fh fi.fh).1 refl in
      let mp' : MpathAux = record mp { ldp = set mp.ldp 0 d' } in
      (
        record s { world = w'; handles = (λ p. if p == fi.fh then some mp' else s.handles p) },
        rw (loopback_readdir, deref, ◌>>=◌, opened, first, here, run) refl,
        l',
        (mp', rw own refl, refl),
      )
