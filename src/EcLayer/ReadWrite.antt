-- ===== src/EcLayer/ReadWrite.antt =====
-- `ec_write` and `ec_read` of ec_layer: a file of bytes, but for reads that go past its end.
use safefs.Prelude.{
  ℕ, ◌+◌, ◌<◌, ◌≤◌, ◌≡◌, ◌⊎◌, inl, inr, refl, ap, subst, ◌∙◌, true, false, Bool-cases, ==_iff,
  Option, some, none, ℤ, pos, leb, le→leb, lt→leb, List, [], ◌∷◌, length, take, drop, splice,
  length-take, length-drop, length-splice, memcpy, max, arith, ◌>>=◌, lift, pure, Action,
}
use safefs.Layers.{FilePath, Buffer, FileInfo}
use safefs.Config.{eq_string}
use safefs.Erasure.{Liberasurecode}
use safefs.MultiLoopback.Posix.{Posix}
use safefs.EcLayer.Blocks.{EncodedFile, Stdio, encode, decode, dump_blocks, load_blocks}
use safefs.EcLayer.Defs.{Ec, lookup_file, insert_file, new_contents, ec_read, ec_write}
use safefs.EcLayer.Fragments.{IsStdio}
use safefs.EcLayer.Kept.{IsEcCode, IsKept, load_decode, copy_kept, copy_kept_overflow, encode_dump}
use safefs.EcLayer.Contents.{new_contents_lem}

pub eq_string_refl : (s : List ℕ) → eq_string s s ≡ true
eq_string_refl [] = refl
eq_string_refl (c ∷ s) = rw ((==_iff c c).1 refl, eq_string_refl s) refl

lookup_file-insert_file :
    (files : List (FilePath × EncodedFile)) (path : FilePath) (ef : EncodedFile)
    → lookup_file (insert_file files path ef) path ≡ some ef
lookup_file-insert_file [] path ef = rw (eq_string_refl path) refl
lookup_file-insert_file ((key, old) ∷ files) path ef = elim (Bool-cases (eq_string key path)) [
  | inl same ↦ rw (same, same) refl
  | inr other ↦ rw (other, other) (lookup_file-insert_file files path ef)
]

-- FILES has a record for the path, which stands for `c`: one of a new file, or one with fragments.
pub record IsEcFile {W : Type 0} (io : Stdio W) (lib : Liberasurecode) (k m : ℕ) (path : FilePath)
    (s : Ec W) (c : Buffer) : Type 0 where
  pub ef : EncodedFile
  pub known : lookup_file s.files path ≡ some ef
  pub kept : ((ef.size ≡ 0) × (c ≡ [])) ⊎ IsKept io lib k m path s.world ef c

few_or_more : (m k : ℕ) → (m ≤ k) ⊎ (k < m)
few_or_more m k = omega arith

module _ {W : Type 0} (os : Posix W) (io : Stdio W) (lib : Liberasurecode) (k m : ℕ) (junk : ℕ → ℕ)
    (path : FilePath) (fi : FileInfo) (code : IsEcCode lib k m) (stdio : IsStdio io path) where
  write_run :
      (s : Ec W) (old_ef ef dumped : EncodedFile) (buf bytes : Buffer) (n offset size : ℕ) (w : W)
      → lookup_file s.files path ≡ some old_ef
      → new_contents os io lib k m junk old_ef buf n offset s.world ≡ some (bytes, size)
      → encode lib k m bytes size ≡ some ef
      → dump_blocks lib k m io junk ef path s.world ≡ some (dumped, w)
      → ec_write os io lib k m junk path buf n offset fi s
        ≡ some (pos n, record s { world = w; files = insert_file s.files path dumped })
  unfolding ec_write
  write_run s old_ef ef dumped buf bytes n offset size w known made encoded put =
      rw (ec_write, ◌>>=◌, known, made, encoded, put) refl

  -- The steps of a read that does not start behind the file.
  read_run :
      (s : Ec W) (ef loaded : EncodedFile) (c dst : Buffer) (size at : ℕ)
      → m ≤ k
      → lookup_file s.files path ≡ some ef
      → IsKept io lib k m path s.world ef c
      → leb ef.size at ≡ false
      → load_blocks lib k m io junk ef s.world ≡ some loaded
      → decode lib k m loaded ≡ some c
      → ec_read os io lib k m junk path dst size at fi s ≡ elim (memcpy dst 0 (drop at c) size) [
        | none ↦ none
        | some buf ↦ some ((pos size, buf), s)
      ]
  unfolding ec_read
  read_run s ef loaded c dst size at few known kept start e d =
      rw (ec_read, ◌>>=◌, known, copy_kept io lib k m junk path s.world ef c kept few, start, e, d)
        (copied (memcpy dst 0 (drop at c) size))
    where
      finish : Buffer → Action (Ec W) (ℤ × Buffer)
      finish buf = pure (pos size, buf)

      copied :
          (r : Option Buffer)
          → (lift r >>= finish) s ≡ elim r [ none ↦ none | some buf ↦ some ((pos size, buf), s) ]
      copied none = refl
      copied (some buf) = refl

  overflow_run :
      (s : Ec W) (ef : EncodedFile) (c dst : Buffer) (size at : ℕ)
      → k < m
      → lookup_file s.files path ≡ some ef
      → IsKept io lib k m path s.world ef c
      → ec_read os io lib k m junk path dst size at fi s ≡ none
  unfolding ec_read
  overflow_run s ef c dst size at more known kept =
      rw (ec_read, ◌>>=◌, known, copy_kept_overflow io lib k m junk path s.world ef c kept more)
        refl

  -- A read that goes past the end copies from behind the decoded bytes.
  ec_read-past_end :
      (s : Ec W) (ef : EncodedFile) (c dst : Buffer) (size at : ℕ)
      → lookup_file s.files path ≡ some ef
      → IsKept io lib k m path s.world ef c
      → at < length c
      → length c < at + size
      → size ≤ length dst
      → ec_read os io lib k m junk path dst size at fi s ≡ none
  unfolding memcpy
  ec_read-past_end s ef c dst size at known kept start beyond room = elim (few_or_more m k) [
    | inr more ↦ overflow_run s ef c dst size at more known kept
    | inl few ↦
        (let (loaded, e, d) = load_decode io lib k m junk path s.world ef c kept in
          let short : leb size (length (drop at c)) ≡ false =
            lt→leb size (length (drop at c)) (omega (arith, length-drop at c, beyond, start)) in
          let fits : leb (0 + size) (length dst) ≡ true =
            le→leb (0 + size) (length dst) (omega arith) in
          read_run s ef loaded c dst size at few known kept
            (ap (λ t. leb t at) kept.whole ∙ lt→leb (length c) at start) e d
          ∙ ap (λ r. elim r [ none ↦ none | some buf ↦ some ((pos size, buf), s) ])
              {x = memcpy dst 0 (drop at c) size} {y = none} (rw (memcpy, fits, short) refl))
  ]

  -- A write leaves a file with fragments.
  ec_write_lem :
      (s : Ec W) (c buf : Buffer) (n offset : ℕ)
      → IsEcFile io lib k m path s c
      → offset ≤ length c
      → n ≤ length buf
      → (s' : Ec W) × (dumped : EncodedFile) × (ec_write os io lib k m junk path buf n offset fi s
          ≡ some (pos n, s'))
        × (lookup_file s'.files path ≡ some dumped)
        × IsKept io lib k m path s'.world dumped (splice offset (take n buf) c)
        × (length (splice offset (take n buf) c) ≡ max (length c) (offset + n))
  ec_write_lem s c buf n offset file h room =
      let (bytes, size, made, fits, whole) =
        new_contents_lem os io lib k m junk path file.ef s.world c buf n offset file.kept h room in
      let (ef, dumped, w, encoded, put, kept) =
        encode_dump io lib k m junk path code stdio bytes size s.world fits in
      let c' = splice offset (take n buf) c in
      (
        record s { world = w; files = insert_file s.files path dumped },
        dumped,
        write_run s file.ef ef dumped buf bytes n offset size w file.known made encoded put,
        lookup_file-insert_file s.files path dumped,
        subst (λ t. IsKept io lib k m path w dumped t) whole kept,
        omega (arith, length-splice offset (take n buf) c h, length-take n buf),
      )

  -- In ec_layer a read that starts in a file that was just written and goes past its end is a fault,
  -- although the buffer has the room for what it asks for: it copies from behind the decoded bytes,
  -- or, where there are more fragments of parity than of data, their names overflow an array before.
  -- The write starts in the file or at its end; the file, stdio.h and the code are as they are for
  -- a read within the file.
  pub ec_write-ec_read_past_end :
      (s : Ec W) (c buf : Buffer) (n offset : ℕ)
      → IsEcFile io lib k m path s c
      → offset ≤ length c
      → n ≤ length buf
      → (s' : Ec W) × (ec_write os io lib k m junk path buf n offset fi s ≡ some (pos n, s'))
        × ((dst : Buffer) (size at : ℕ)
            → at < max (length c) (offset + n)
            → max (length c) (offset + n) < at + size
            → size ≤ length dst
            → ec_read os io lib k m junk path dst size at fi s' ≡ none)
  ec_write-ec_read_past_end s c buf n offset file h room =
      let (s', dumped, run, known, kept, len) = ec_write_lem s c buf n offset file h room in
      (
        s',
        run,
        λ dst size at start beyond room'.
            ec_read-past_end s' dumped (splice offset (take n buf) c) dst size at known kept
              (omega (arith, len, start)) (omega (arith, len, beyond)) room',
      )
