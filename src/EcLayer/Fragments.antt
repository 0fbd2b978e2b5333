-- ===== src/EcLayer/Fragments.antt =====
-- The fragments of a file of ec_layer as files of their own.
use safefs.Prelude.{
  ℕ, zero, suc, ◌+◌, ◌<◌, ◌≤◌, ◌≡◌, ◌≢◌, refl, ap, ◌∙◌, some, lt→ltb, le→leb, List, [], ◌∷◌, ◌++◌,
  length, take, take_of_le, drop_of_le, uninit, length-uninit, append-nil, arith,
}
use safefs.Layers.{FilePath, Buffer}
use safefs.Config.{codes}
use safefs.Drivers.Xor.{HaveSize}
use safefs.EcLayer.Blocks.{Stdio, dump_list, load_list, copy_names, copy_blocks}

-- The names of `n` fragments from number `i` on.
abbrev pub names_from : {W : Type 0} → Stdio W → FilePath → FilePath → ℕ → ℕ → List FilePath
names_from io suffix path i zero = []
names_from io suffix path i (suc n) =
    (path ++ (b'-' ∷ (io.lu5 i ++ suffix))) ∷ names_from io suffix path (i + 1) n

abbrev pub name_of : {W : Type 0} → Stdio W → FilePath → FilePath → ℕ → FilePath
name_of io suffix path i = path ++ (b'-' ∷ (io.lu5 i ++ suffix))

-- What is written to a file is read from it, and the others stay; the names of the fragments of one
-- file are different, and those of data from those of parity.
pub record IsStdio {W : Type 0} (io : Stdio W) (path : FilePath) : Type 0 where
  pub write_law :
      (name : FilePath) (bytes : Buffer) (w : W)
      → (w' : W) × (io.write_file name bytes w ≡ some w')
        × (io.read_file name w' ≡ some bytes)
        × ((other : FilePath) → other ≢ name → io.read_file other w' ≡ io.read_file other w)
  pub data_law :
      (i j : ℕ) → i ≢ j → name_of io (codes ".data") path i ≢ name_of io (codes ".data") path j
  pub parity_law :
      (i j : ℕ) → i ≢ j → name_of io (codes ".parity") path i ≢ name_of io (codes ".parity") path j
  pub apart_law :
      (i j : ℕ) → name_of io (codes ".data") path i ≢ name_of io (codes ".parity") path j
  pub data_short : (i : ℕ) → length (name_of io (codes ".data") path i) < 4096
  pub parity_short : (i : ℕ) → length (name_of io (codes ".parity") path i) < 4096

pub copy_names_lem :
    {W : Type 0} (io : Stdio W) (suffix path : FilePath) (i n : ℕ)
    → copy_names (names_from io suffix path i n) n ≡ some (names_from io suffix path i n)
unfolding copy_names
copy_names_lem io suffix path i zero = refl
copy_names_lem io suffix path i (suc n) =
    rw (copy_names, copy_names_lem io suffix path (i + 1) n) refl

pub copy_blocks_lem :
    (size : ℕ) (bs : List Buffer) → HaveSize size bs → copy_blocks bs size (length bs) ≡ some bs
unfolding copy_blocks
copy_blocks_lem size [] all = refl
copy_blocks_lem size (b ∷ bs) (h, all) =
    rw
      (
        copy_blocks,
        le→leb size (length b) (omega (arith, h)),
        copy_blocks_lem size bs all,
        take_of_le size b (omega (arith, h)),
      )
      refl

module _ {W : Type 0} (io : Stdio W) (suffix path : FilePath) where
  -- The fragments stand in their files, from number `i` on.
  abbrev pub Fragments : ℕ → List Buffer → W → Type 0
  Fragments i [] w = Unit {0}
  Fragments i (b ∷ bs) w =
      (io.read_file (name_of io suffix path i) w ≡ some b) × Fragments (i + 1) bs w

  pub Fragments-frame :
      (i : ℕ) (bs : List Buffer) (w w' : W)
      → Fragments i bs w
      → ((j : ℕ)
          → i ≤ j
          → io.read_file (name_of io suffix path j) w' ≡ io.read_file (name_of io suffix path j) w)
      → Fragments i bs w'
  Fragments-frame i [] w w' all same = tt
  Fragments-frame i (b ∷ bs) w w' (e, all) same = (
    same i (omega arith) ∙ e,
    Fragments-frame (i + 1) bs w w' all (λ j h. same j (omega (arith, h))),
  )

  module _
      (writes : (name : FilePath) (bytes : Buffer) (w : W)
        → (w' : W) × (io.write_file name bytes w ≡ some w')
          × (io.read_file name w' ≡ some bytes)
          × ((other : FilePath) → other ≢ name → io.read_file other w' ≡ io.read_file other w))
      (differ : (i j : ℕ) → i ≢ j → name_of io suffix path i ≢ name_of io suffix path j)
      (short : (i : ℕ) → length (name_of io suffix path i) < 4096) where
    pub dump_list_lem :
        (size : ℕ) (bs : List Buffer) (i : ℕ) (w : W)
        → HaveSize size bs
        → (w' : W) × (dump_list io suffix path size bs i (length bs) w
            ≡ some (names_from io suffix path i (length bs), w'))
          × Fragments i bs w'
          × ((other : FilePath)
              → ((j : ℕ) → i ≤ j → other ≢ name_of io suffix path j)
              → io.read_file other w' ≡ io.read_file other w)
    unfolding dump_list
    dump_list_lem size [] i w all = (w, refl, tt, λ other h. refl)
    dump_list_lem size (b ∷ bs) i w (h, all) =
        let name = name_of io suffix path i in
        let (w1, written, reads, others) = writes name (take size b) w in
        let (w2, dumped, fragments, kept) = dump_list_lem size bs (i + 1) w1 all in
        let whole = take_of_le size b (omega (arith, h)) in
        (
          w2,
          rw
              (
                dump_list,
                lt→ltb (length name) 4096 (short i),
                le→leb size (length b) (omega (arith, h)),
                written,
                dumped,
              )
              refl,
          (
            kept name (λ j k. differ i j (λ e. absurd (omega (arith, e, k))))
                ∙ reads
                ∙ ap some whole,
            fragments,
          ),
          λ other away.
              kept other (λ j k. away j (omega (arith, k))) ∙ others other (away i (omega arith)),
        )

  pub load_list_lem :
      (junk : ℕ → ℕ) (size : ℕ) (bs : List Buffer) (i : ℕ) (w : W)
      → HaveSize size bs
      → Fragments i bs w
      → load_list io junk (names_from io suffix path i (length bs)) size (length bs) w ≡ some bs
  unfolding load_list
  load_list_lem junk size [] i w all there = refl
  load_list_lem junk size (b ∷ bs) i w (h, all) (e, there) =
      rw
        (
          load_list,
          e,
          load_list_lem junk size bs (i + 1) w all there,
          take_of_le size b (omega (arith, h)),
          drop_of_le (0 + length b) (uninit junk size) (omega (arith, length-uninit junk size, h)),
          append-nil b,
        )
        refl
