-- ===== src/BlockAlign/Truncates.antt =====
-- Truncating through block_align: the file grows by zeros, or is cut at any size.
use safefs.Prelude.{
  ℕ, suc, ◌+◌, ◌-◌, ◌*◌, ◌/◌, ◌%◌, ◌^◌, ◌≤◌, ◌<◌, min, ◌≡◌, sym, ap, subst, ◌∙◌, inl, inr, Option,
  some, arith, ℤ, pos, to_u64_small, le→ltb, lt→ltb, ltb, ltb→lt, ltb→le, Bool-cases, length, take,
  drop, replicate, ◌>>=◌, ◌++◌, uninit, length-uninit, take_add, take_eq, length-append,
  length-take, length-drop, length-replicate, take-all, append-nil, splice-whole,
}
use safefs.Layers.{FilePath, Buffer, FileInfo, Stat, FuseOperations}
use safefs.BlockAlign.Defs.{block_align_read}
use safefs.BlockAlign.Resize.{truncate_open, truncate_resize, block_align_truncate}
use safefs.BlockAlign.Contract.{nonzero, IsBlockFile, IsResizable}
use safefs.BlockAlign.Reads.{block_align_read_lem}
use safefs.BlockAlign.Grow.{zero_fill_lem}
use safefs.BlockAlign.Cuts.{block_start, cut_nothing, cut_aligned, cut_inside}

module _ {S : Type 0} {block_size : ℕ} {path : FilePath} {fi : FileInfo} {next : FuseOperations S}
    {Holds : S → Buffer → Type 0} {Cut : S → Buffer → ℕ → Type 0}
    (lower : IsBlockFile block_size path fi next Holds)
    (resizable : IsResizable block_size path fi next Holds Cut) (junk : ℕ → ℕ) (junk_stat : Stat)
    (small : block_size < 2 ^ 31) (junk_fh : ℕ) (some_bytes : 0 < block_size) where
  abbrev Resized : Option (ℤ × S) → Buffer → Type 0
  Resized r c = (s' : S) × (r ≡ some (pos 0, s')) × Holds s' c

  abbrev resize : ℕ → ℕ → S → Option (ℤ × S)
  resize size st_size =
      truncate_resize block_size junk junk_stat junk_fh path size (pos st_size) (some fi) fi next

  grow_lem :
      (s : S) (c : Buffer) (size : ℕ)
      → Holds s c
      → length c < size
      → size < 2 ^ 63
      → Resized (resize size (length c) s) (c ++ replicate (size - length c) 0)
  unfolding truncate_resize
  grow_lem s c size h lt l =
      let left = size - length c in
      let grown = c ++ replicate left 0 in
      let (t, e, h') =
        zero_fill_lem lower junk junk_stat small junk_fh some_bytes (suc left) s c left h
          (omega arith) (omega arith) in
      let reached : size ≡ length grown =
        omega (arith, length-append c (replicate left 0), length-replicate {A = ℕ} left 0) in
      let (s', done, held) =
        cut_nothing resizable junk junk_stat junk_fh some_bytes t grown
          (uninit junk (size % block_size)) size (length c) h' reached (omega arith) in
      (
        s',
        rw (lt→ltb (length c) size lt, to_u64_small (length c) (omega arith), ◌>>=◌, e) done,
        held,
      )

  -- The start of the last block, as it is read before it is cut.
  last_block :
      (s : S) (c : Buffer) (size : ℕ)
      → Holds s c
      → size ≤ length c
      → length c < 2 ^ 31
      → let extra = size % block_size in
        let start = size / block_size * block_size in
        (s' : S) × (block_align_read block_size junk junk_stat path
            (uninit junk extra)
            extra
            start
            fi
            next
            s
          ≡ some ((pos extra, take extra (drop start c)), s'))
        × Holds s' c
  last_block s c size h le l =
      let extra = size % block_size in
      let start = size / block_size * block_size in
      let old = uninit junk extra in
      let (s', e, h') =
        block_align_read_lem lower junk junk_stat small s c old extra start h some_bytes
          (omega (arith, block_start block_size size)) l (omega arith)
          (omega (arith, length-uninit junk extra)) in
      let all : min extra (length c - start) ≡ extra = omega (arith, block_start block_size size) in
      let size_read : length (take extra (drop start c)) ≡ length old = omega (
        arith,
        length-take extra (drop start c),
        length-drop start c,
        length-uninit junk extra,
        all,
      ) in
      (s', rw (all, splice-whole (take extra (drop start c)) old size_read) at e, h')

  shrink_lem :
      (s : S) (c : Buffer) (size : ℕ)
      → Holds s c
      → size ≤ length c
      → length c < 2 ^ 31
      → Resized (resize size (length c) s) (take size c)
  unfolding truncate_resize
  shrink_lem s c size h le l =
      rw (le→ltb (length c) size le) (elim (Bool-cases (ltb 0 (size % block_size))) [
        | inr whole ↦ rw whole (
            cut_aligned resizable junk junk_stat junk_fh some_bytes s c
              (uninit junk (size % block_size)) size (length c) h le
              (omega (arith, ltb→le 0 (size % block_size) whole)))
        | inl inside ↦
            (let (t, e, h') = last_block s c size h le l in
              rw (inside, ◌>>=◌, e, le→ltb (size % block_size) (size % block_size) (omega arith))
                (elim (Bool-cases (ltb size (length c))) [
                  | inl cuts ↦ subst (Resized _) joined (
                      cut_inside resizable junk junk_stat junk_fh some_bytes t c last size h'
                        (ltb→lt size (length c) cuts) (ltb→lt 0 (size % block_size) inside)
                        last_length)
                  | inr at_end ↦
                      (let same : size ≡ length c = omega (arith, ltb→le size (length c) at_end) in
                        subst (Resized _) (sym (take-all size c (omega (arith, same)))) (
                          cut_nothing resizable junk junk_stat junk_fh some_bytes t c last size
                            (length c) h' same (omega (arith, same))))
                ]))
      ])
    where
      start : ℕ
      start = size / block_size * block_size

      last : Buffer
      last = take (size % block_size) (drop start c)

      last_length : length last ≡ size % block_size
      last_length = omega (
        arith,
        length-take (size % block_size) (drop start c),
        length-drop start c,
        block_start block_size size,
      )

      joined : take start c ++ last ≡ take size c
      joined =
          sym (take_add start (size % block_size) c)
          ∙ take_eq (start + size % block_size) size c (omega (arith, block_start block_size size))

  -- With a handle of an open file, `block_align_truncate` returns 0 and leaves a file of exactly
  -- `size` bytes: those that the file had, and zeros behind them when it was shorter. The layer
  -- below serves whole blocks and truncates at the file's end, at a block boundary, or anywhere,
  -- where it may lose what is left of the block until the block is written again. The blocks and the
  -- file are shorter than 2 ^ 31 bytes, a block has at least a byte, and the size is below 2 ^ 63.
  pub block_align_truncate_lem :
      (s : S) (c : Buffer) (size : ℕ)
      → Holds s c
      → length c < 2 ^ 31
      → size < 2 ^ 63
      → (s' : S) × (block_align_truncate block_size junk junk_stat junk_fh path size
            (some fi)
            next
            s
          ≡ some (pos 0, s'))
        × Holds s' (take size c ++ replicate (size - length c) 0)
  unfolding block_align_truncate truncate_open
  block_align_truncate_lem s c size h l end =
      let (st, t, e, same, h') = lower.size_law s c junk_stat h in
      rw (nonzero block_size some_bytes, ◌>>=◌, e, same)
        (elim (Bool-cases (ltb (length c) size)) [
          | inl grows ↦
              (let longer = ltb→lt (length c) size grows in
                subst (Resized _)
                  (ap (λ d. d ++ replicate (size - length c) 0)
                    (sym (take-all size c (omega (arith, longer)))))
                  (grow_lem t c size h' longer end))
          | inr shrinks ↦
              (let le = ltb→le (length c) size shrinks in
                let no_zeros : size - length c ≡ 0 = omega (arith, le) in
                subst (Resized _)
                  (sym (append-nil (take size c))
                    ∙ ap (λ k. take size c ++ replicate k 0) (sym no_zeros))
                  (shrink_lem t c size h' le l))
        ])
