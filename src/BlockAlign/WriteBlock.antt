-- ===== src/BlockAlign/WriteBlock.antt =====
-- What `process_write_block` leaves of one block, on each of its branches.
use safefs.Prelude.{
  ℕ, ◌+◌, ◌-◌, ◌^◌, ◌≤◌, ◌<◌, min, ◌≡◌, refl, ◌∙◌, ◌⊎◌, inl, inr, ◌&&◌, Option, some, arith, ℤ, pos,
  to_int, sub64, to_int_small, to_u64_small, sub64_le, le→ltb, ltb, leb, leb→le, ◌==◌,
  if◌then◌else◌, Bool-cases, length, take, drop, splice, length-splice, uninit, length-uninit,
  memcpy-splice, subst, ◌>>=◌, length-take, length-drop, take_eq, take-min,
}
use safefs.Layers.{FilePath, Buffer, FileInfo, Stat, FuseOperations}
use safefs.BlockAlign.Defs.{
  IoInfo, add64, finish_write, edit_block, modify_block, partial_write, process_write_block,
  write_block, block_align_get_file_size,
}
use safefs.BlockAlign.Contract.{IsAligned, IsBlockFile}
use safefs.BlockAlign.Edit.{splice_edited}

module _ {S : Type 0} {block_size : ℕ} {path : FilePath} {fi : FileInfo} {next : FuseOperations S}
    {Holds : S → Buffer → Type 0} (lower : IsBlockFile block_size path fi next Holds) (junk : ℕ → ℕ)
    (junk_stat : Stat) (small : block_size < 2 ^ 31) where
  abbrev info : IoInfo S
  info = record { path = path; fi = fi; nextlayer = next }

  -- The result `size`, and the file with `d` written at `at`.
  abbrev Written : Option (ℤ × S) → Buffer → ℕ → ℕ → Buffer → Type 0
  Written r c size at d = (s' : S) × (r ≡ some (pos size, s')) × Holds s' (splice at d c)

  finish_write_lem :
      (s : S) (c buf : Buffer) (n size offset : ℕ)
      → Holds s c
      → IsAligned block_size offset
      → offset ≤ length c
      → 0 < n
      → n ≤ block_size
      → min block_size (length c - offset) ≤ n
      → n ≤ length buf
      → size < 2 ^ 31
      → Written
          (finish_write block_size junk junk_stat buf (pos n) size offset info s)
          c
          size
          offset
          (take n buf)
  unfolding finish_write write_block
  finish_write_lem s c buf n size offset h al inside p le covers room l =
      let (s', e, h') = lower.write_law s c buf n offset h al inside p le covers room in
      (
        s',
        rw (to_u64_small n (omega arith), e, le→ltb n n (omega arith), to_int_small size l) refl,
        h',
      )

  edit_block_lem :
      (s : S) (c buf : Buffer) (size offset extra here n : ℕ)
      → Holds s c
      → IsAligned block_size offset
      → offset + extra ≤ length c
      → 0 < size
      → size + extra ≤ n
      → n ≤ block_size
      → here ≡ min (length c - offset) block_size
      → here ≤ n
      → (n ≤ length c - offset) ⊎ (n ≡ extra + size)
      → size ≤ length buf
      → Written
          (edit_block block_size junk junk_stat buf size offset extra (pos here) (pos n) info s)
          c
          size
          (offset + extra)
          (take size buf)
  unfolding edit_block
  edit_block_lem s c buf size offset extra here n h al inside p fits le here_eq covers all room =
      let (t, e, h') =
        lower.read_law s c (uninit junk block_size) here offset h al (omega arith) (omega arith)
          (omega arith) (omega (arith, length-uninit junk block_size)) in
      let (s', wrote, held) =
        finish_write_lem t c new n size offset h' al (omega arith) (omega arith) le (omega arith)
          (omega (arith, length-splice extra (take size buf) copy, copied)) (omega arith) in
      (
        s',
        rw
            (
              to_u64_small here (omega arith),
              e,
              le→ltb (min here (length c - offset)) here (omega arith),
              all_there,
              memcpy-splice copy extra buf size (omega (arith, copied)) room,
              ◌>>=◌,
            )
            wrote,
        subst (Holds s') edited held,
      )
    where
      -- What the block has of the file is read, though more of it may be written.
      all_there : take here (drop offset c) ≡ take n (drop offset c)
      all_there =
          take_eq here (min n (length (drop offset c))) (drop offset c)
            (omega (arith, length-drop offset c))
          ∙ take-min n (drop offset c)

      copy : Buffer
      copy = splice 0 (take n (drop offset c)) (uninit junk block_size)

      copied : length copy ≡ block_size
      copied = omega (
        arith,
        length-splice 0 (take n (drop offset c)) (uninit junk block_size),
        length-uninit junk block_size,
        length-take n (drop offset c),
      )

      new : Buffer
      new = splice extra (take size buf) copy

      asked : length (take size buf) ≡ size
      asked = omega (arith, length-take size buf)

      edited : splice offset (take n new) c ≡ splice (offset + extra) (take size buf) c
      edited =
          splice_edited c (take size buf) (uninit junk block_size) offset extra n (omega arith)
            (omega arith) (omega (arith, asked)) (omega (arith, asked))

  modify_block_lem :
      (s : S) (c buf : Buffer) (size offset extra : ℕ)
      → Holds s c
      → IsAligned block_size offset
      → offset + extra ≤ length c
      → 0 < size
      → size + extra ≤ block_size
      → size ≤ length buf
      → Written
          (modify_block block_size junk junk_stat buf size offset extra (length c - offset) info s)
          c
          size
          (offset + extra)
          (take size buf)
  unfolding modify_block
  modify_block_lem s c buf size offset extra h al inside p fits room =
      let left = length c - offset in
      let here = min left block_size in
      let n = (if ltb (size + extra) here then here else size + extra) in
      let there : (if ltb left block_size then left else block_size) ≡ here = ground arith in
      let wanted : add64 size extra ≡ size + extra = omega arith in
      let le : n ≤ block_size = ground arith in
      rw
        (
          there,
          to_int_small here (omega arith),
          to_u64_small here (omega arith),
          wanted,
          to_int_small n (omega arith),
        )
        (edit_block_lem s c buf size offset extra here n h al inside p (ground arith) le refl
          (ground arith) (ground arith) room)

  partial_write_lem :
      (s : S) (c buf : Buffer) (size offset extra : ℕ)
      → Holds s c
      → IsAligned block_size offset
      → offset + extra ≤ length c
      → length c < 2 ^ 63
      → 0 < size
      → size + extra ≤ block_size
      → size ≤ length buf
      → Written
          (partial_write block_size junk junk_stat buf size offset extra (length c) info s)
          c
          size
          (offset + extra)
          (take size buf)
  unfolding partial_write
  partial_write_lem s c buf size offset extra h al inside l p fits room =
      elim (Bool-cases (leb (length c) offset)) [
        | inl append ↦
            (let len : length c ≤ offset = leb→le (length c) offset append in
              let start : extra ≡ 0 = omega arith in
              rw (append, le→ltb (length c) offset (omega arith), le→ltb 0 extra (omega arith))
                (to_the_end start (omega arith)))
        | inr before ↦
            (let len : sub64 (length c) offset ≡ length c - offset =
                sub64_le (length c) offset (omega arith) (omega arith) in
              rw (before, len)
                (elim (Bool-cases (extra == 0 && leb (length c - offset) size)) [
                  | inl overwrite ↦ rw overwrite (to_the_end (ground arith) (ground arith))
                  | inr inner ↦
                      rw inner (modify_block_lem s c buf size offset extra h al inside p fits room)
                ]))
      ]
    where
      to_the_end :
          extra ≡ 0
          → length c - offset ≤ size
          → Written
              (finish_write block_size junk junk_stat buf (to_int size) size offset info s)
              c
              size
              (offset + extra)
              (take size buf)
      to_the_end start reaches =
          let at : offset + extra ≡ offset = omega arith in
          rw (at, to_int_small size (omega arith))
            (finish_write_lem s c buf size size offset h al (omega arith) p (omega arith)
              (omega arith) room (omega arith))

  -- `process_write_block` writes its bytes into the block, on every branch that a write within the
  -- file or at its end takes.
  pub process_write_block_lem :
      (s : S) (c buf : Buffer) (size offset extra : ℕ)
      → Holds s c
      → IsAligned block_size offset
      → offset + extra ≤ length c
      → length c < 2 ^ 63
      → 0 < size
      → size + extra ≤ block_size
      → size ≤ length buf
      → Written
          (process_write_block block_size junk junk_stat buf size offset extra info s)
          c
          size
          (offset + extra)
          (take size buf)
  unfolding process_write_block block_align_get_file_size
  process_write_block_lem s c buf size offset extra h al inside l p fits room =
      elim (Bool-cases (size == block_size && extra == 0)) [
        | inl whole ↦
            let full : size ≡ block_size = ground arith in
            let start : offset + extra ≡ offset = ground arith in
            rw (whole, start)
              (subst
                (λ k.
                  Written (finish_write block_size junk junk_stat buf (pos k) size offset info s) c
                    size offset (take size buf))
                full
                (finish_write_lem s c buf size size offset h al (omega arith) p (omega arith)
                  (omega arith) room (omega arith)))
        | inr part ↦
            (let (st, t, e, same, h') = lower.size_law s c junk_stat h in
              rw (part, ◌>>=◌, e, same, to_u64_small (length c) (omega arith))
                (partial_write_lem t c buf size offset extra h' al inside l p fits room))
      ]
