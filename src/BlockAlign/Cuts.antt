-- ===== src/BlockAlign/Cuts.antt =====
-- `block_align_truncate` from `ftruncate` on: at the end of the file, at a block boundary, and
-- inside a block.
use native.Mathlib.Nat.{mod-lt}
use safefs.Prelude.{
  ℕ, ◌-◌, ◌*◌, ◌/◌, ◌%◌, ◌≤◌, ◌<◌, ◌≡◌, refl, sym, subst, Bool, true, false, ◌&&◌, Option, some,
  arith, ℤ, pos, le→ltb, lt→ltb, ltb, length, take, ◌>>=◌, ◌++◌, length-take, take-all,
}
use safefs.Layers.{FilePath, Buffer, FileInfo, Stat, FuseOperations}
use safefs.BlockAlign.Defs.{write_block}
use safefs.BlockAlign.Resize.{truncate_close, truncate_tail, truncate_cut}
use safefs.BlockAlign.Contract.{IsAligned, IsResizable}

pub block_start : (block_size size : ℕ) → size / block_size * block_size ≡ size - size % block_size
block_start block_size size = grind arith

and_false : (b : Bool) → (b && false) ≡ false
and_false true = refl
and_false false = refl

module _ {S : Type 0} {block_size : ℕ} {path : FilePath} {fi : FileInfo} {next : FuseOperations S}
    {Holds : S → Buffer → Type 0} {Cut : S → Buffer → ℕ → Type 0}
    (resizable : IsResizable block_size path fi next Holds Cut) (junk : ℕ → ℕ) (junk_stat : Stat)
    (junk_fh : ℕ) (some_bytes : 0 < block_size) where
  abbrev Resized : Option (ℤ × S) → Buffer → Type 0
  Resized r c = (s' : S) × (r ≡ some (pos 0, s')) × Holds s' c

  abbrev cut : Buffer → ℕ → ℕ → S → Option (ℤ × S)
  cut buffer size st_size =
      truncate_cut block_size junk junk_stat junk_fh path buffer size (pos st_size) (some fi) fi
        next

  -- At the end of the file nothing is cut.
  pub cut_nothing :
      (s : S) (c buffer : Buffer) (size st_size : ℕ)
      → Holds s c
      → size ≡ length c
      → st_size ≤ size
      → Resized (cut buffer size st_size s) c
  unfolding truncate_cut truncate_tail truncate_close
  cut_nothing s c buffer size st_size h e le =
      let (s', same, h') = resizable.same_law s c h in
      let at_end : next.ftruncate path size fi s ≡ some (pos 0, s') =
        subst (λ k. next.ftruncate path k fi s ≡ some (pos 0, s')) (sym e) same in
      (
        s',
        rw (at_end, ◌>>=◌, le→ltb size st_size le, and_false (ltb 0 (size % block_size))) refl,
        h',
      )

  pub cut_aligned :
      (s : S) (c buffer : Buffer) (size st_size : ℕ)
      → Holds s c
      → size ≤ length c
      → size % block_size ≡ 0
      → Resized (cut buffer size st_size s) (take size c)
  unfolding truncate_cut truncate_tail truncate_close
  cut_aligned s c buffer size st_size h le aligned =
      let whole : IsAligned block_size size =
        (size / block_size, omega (arith, block_start block_size size, aligned)) in
      let (s', e, h') = resizable.aligned_law s c size h le whole in
      (s', rw (e, ◌>>=◌, aligned) refl, h')

  pub cut_inside :
      (s : S) (c buffer : Buffer) (size : ℕ)
      → Holds s c
      → size < length c
      → 0 < size % block_size
      → length buffer ≡ size % block_size
      → Resized (cut buffer size (length c) s) (take (size / block_size * block_size) c ++ buffer)
  unfolding truncate_cut truncate_tail truncate_close write_block
  cut_inside s c buffer size h lt inside len =
      let extra = size % block_size in
      let (t, cut_eq, torn) = resizable.cut_law s c size h lt in
      let (s', wrote, held) =
        resizable.rewrite_law t before buffer extra extra torn (size / block_size, before_length)
          inside (omega arith) (omega (arith, mod-lt size some_bytes)) (omega (arith, len)) in
      let write_eq : next.write path buffer extra start fi t ≡ some (pos extra, s') =
        subst (λ k. next.write path buffer extra k fi t ≡ some (pos extra, s')) before_length
          wrote in
      (
        s',
        rw
            (
              cut_eq,
              ◌>>=◌,
              lt→ltb 0 extra inside,
              lt→ltb size (length c) lt,
              write_eq,
              le→ltb extra extra (omega arith),
            )
            refl,
        subst (λ d. Holds s' (before ++ d)) (take-all extra buffer (omega (arith, len))) held,
      )
    where
      start : ℕ
      start = size / block_size * block_size

      before : Buffer
      before = take start c

      before_length : length before ≡ start
      before_length = omega (arith, length-take start c, block_start block_size size)
