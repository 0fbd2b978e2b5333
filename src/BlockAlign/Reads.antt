-- ===== src/BlockAlign/Reads.antt =====
-- Reading through block_align: any range of the file, from accesses to whole blocks.
use safefs.Prelude.{
  ℕ, zero, suc, ◌+◌, ◌-◌, ◌%◌, ◌^◌, ◌≤◌, ◌<◌, min, ◌≡◌, refl, ap, ◌∙◌, inl, inr, Option, some,
  arith, ℤ, pos, ltb→lt, ltb→le, ltb, if◌then◌else◌, Bool-cases, length, take, drop, splice,
  length-splice, take-append-drop, ◌++◌, length-drop,
}
use native.Mathlib.Nat.{mod-lt, add_assoc, add-zero}
use safefs.Layers.{FilePath, Buffer, FileInfo, Stat, FuseOperations}
use safefs.BlockAlign.Defs.{
  reading, IoInfo, process_block, blocks_loop, split_into_blocks, block_align_read,
}
use safefs.BlockAlign.Contract.{nonzero, IsAligned, IsAligned-next, IsAligned-start, IsBlockFile}
use safefs.BlockAlign.Edit.{splice_rest, splice_ranges}
use safefs.BlockAlign.Rounds.{share_lem, blocks_loop_done, blocks_loop_round}
use safefs.BlockAlign.ReadBlock.{process_read_block_lem}

module _ {S : Type 0} {block_size : ℕ} {path : FilePath} {fi : FileInfo} {next : FuseOperations S}
    {Holds : S → Buffer → Type 0} (lower : IsBlockFile block_size path fi next Holds) (junk : ℕ → ℕ)
    (junk_stat : Stat) (small : block_size < 2 ^ 31) where
  abbrev info : IoInfo S
  info = record { path = path; fi = fi; nextlayer = next }

  abbrev amount : Buffer → ℕ → ℕ → ℕ → ℕ
  amount c offset extra size = min size (length c - (offset + extra))

  -- The result of reading `m` bytes from the file's offset `at`, from the buffer's `p` on.
  abbrev Filled : Option ((ℤ × Buffer) × S) → Buffer → Buffer → ℕ → ℕ → ℕ → Type 0
  Filled r c buf p at m =
      (s' : S) × (r ≡ some ((pos (p + m), splice p (take m (drop at c)) buf), s')) × Holds s' c

  abbrev loop : ℕ → Buffer → ℕ → ℕ → ℕ → ℕ → S → Option ((ℤ × Buffer) × S)
  loop fuel buf size offset extra processed s =
      blocks_loop block_size junk junk_stat fuel reading buf size offset extra processed info s

  -- Going on behind the `n` bytes of a round that ended its block.
  Filled-further :
      (r : Option ((ℤ × Buffer) × S)) (c buf : Buffer) (p n m at : ℕ)
      → p ≤ length buf
      → n ≤ length c - at
      → Filled r c (splice p (take n (drop at c)) buf) (p + n) (at + n) m
      → Filled r c buf p at (n + m)
  Filled-further r c buf p n m at h k (s', e, held) = (
    s',
    e
        ∙ ap (λ (t : ℕ × Buffer). some ((pos t.0, t.1), s'))
            λ i. (add_assoc p n m i, splice_ranges p n m at c buf h k i),
    held,
  )

  loop_read_done :
      (fuel : ℕ) (s : S) (c buf : Buffer) (size offset extra p at k : ℕ)
      → Holds s c
      → p ≡ size
      → size < 2 ^ 31
      → 0 < fuel
      → Filled (loop fuel buf size offset extra p s) c buf p at (min (size - p) k)
  loop_read_done fuel s c buf size offset extra p at k h e l some_fuel =
      let none_left : min (size - p) k ≡ 0 = omega arith in
      (
        s,
        rw
            (
              none_left,
              e,
              blocks_loop_done block_size junk junk_stat reading info fuel s buf size offset extra l
                  some_fuel,
              add-zero size,
              take-append-drop size buf,
            )
            refl,
        h,
      )

  -- A round that read `m` of its `n` bytes: a short one ends the request, and a full one leaves
  -- the rest of it, which is nothing or starts at the next block.
  read_round_ends :
      (fuel : ℕ) (s t : S) (c buf : Buffer) (size offset extra p n : ℕ)
      → let at = offset + extra in
        let m = amount c offset extra n in
        let rest = splice 0 (take m (drop at c)) (drop p buf) in
        loop (suc fuel) buf size offset extra p s ≡ (
          if ltb m n
          then some ((pos (p + m), take p buf ++ rest), t)
          else loop fuel (take p buf ++ rest) size (offset + block_size) 0 (p + m) t)
        → Holds t c
        → at ≤ length c
        → n ≤ size - p
        → p ≤ length buf
        → (at + n ≤ length c
            → Filled
                (loop fuel
                  (splice p (take n (drop at c)) buf)
                  size
                  (offset + block_size)
                  0
                  (p + n)
                  t)
                c
                (splice p (take n (drop at c)) buf)
                (p + n)
                (at + n)
                (min (size - (p + n)) (length c - (at + n))))
        → Filled
            (loop (suc fuel) buf size offset extra p s)
            c
            buf
            p
            at
            (amount c offset extra (size - p))
  read_round_ends fuel s t c buf size offset extra p n round h inside left room next =
      let at = offset + extra in
      let m = amount c offset extra n in
      rw (round, splice_rest p (take m (drop at c)) buf)
        (elim (Bool-cases (ltb m n)) [
          | inl short ↦
              (let all : amount c offset extra (size - p) ≡ m = omega (arith, ltb→lt m n short) in
                rw (short, all) (t, refl, h))
          | inr full ↦
              (let same : m ≡ n = omega (arith, ltb→le m n full) in
                let all : amount c offset extra (size - p)
                    ≡ n + min (size - (p + n)) (length c - (at + n)) =
                  omega (arith, same) in
                rw (full, all, same)
                  (Filled-further _ c buf p n _ at room (omega (arith, same))
                    (next (omega (arith, same)))))
        ])

  blocks_loop_read :
      (fuel : ℕ) (s : S) (c buf : Buffer) (size offset extra processed : ℕ)
      → Holds s c
      → IsAligned block_size offset
      → offset + extra ≤ length c
      → length c < 2 ^ 31
      → extra < block_size
      → processed < size
      → size < 2 ^ 31
      → size ≤ length buf
      → size - processed < fuel
      → Filled
          (loop fuel buf size offset extra processed s)
          c
          buf
          processed
          (offset + extra)
          (amount c offset extra (size - processed))
  unfolding process_block
  blocks_loop_read zero s c buf size offset extra processed h al inside l el p sl room f =
      absurd (omega arith)
  blocks_loop_read (suc fuel) s c buf size offset extra processed h al inside l el p sl room f =
      let (n, share_eq, some_bytes, left, fits, ends) =
        share_lem block_size (size - processed) extra (omega arith) el small (omega arith) in
      let (t, e, h') =
        process_read_block_lem lower junk junk_stat small s c (drop processed buf) n offset extra h
          al inside l some_bytes fits (omega (arith, length-drop processed buf)) in
      read_round_ends fuel s t c buf size offset extra processed n
        (blocks_loop_round block_size junk junk_stat reading info fuel s t buf
          (splice 0 (take (amount c offset extra n) (drop (offset + extra) c)) (drop processed buf))
          size offset extra processed n (amount c offset extra n) p share_eq e (omega arith)
          (omega arith) (omega arith))
        h' inside left (omega arith)
        (λ whole. elim (Bool-cases (ltb (processed + n) size)) [
          | inl more ↦
              (let block : n + extra ≡ block_size =
                  omega (arith, ltb→lt (processed + n) size more) in
                let at : offset + block_size + 0 ≡ offset + extra + n = omega arith in
                rw at at (
                  blocks_loop_read fuel t c
                    (splice processed (take n (drop (offset + extra) c)) buf) size
                    (offset + block_size) 0 (processed + n) h' (IsAligned-next block_size offset al)
                    (omega arith) l (omega arith) (ltb→lt (processed + n) size more) sl
                    (omega (arith, length-splice processed (take n (drop (offset + extra) c)) buf))
                    (omega arith)))
          | inr done ↦
              loop_read_done fuel t c (splice processed (take n (drop (offset + extra) c)) buf) size
                (offset + block_size) 0 (processed + n) (offset + extra + n)
                (length c - (offset + extra + n)) h'
                (omega (arith, ltb→le (processed + n) size done)) sl (omega arith)
        ])

  Filled-start :
      (r : Option ((ℤ × Buffer) × S)) (c buf : Buffer) (at size k : ℕ)
      → Filled r c buf 0 at (min (size - 0) k)
      → (s' : S) × (r ≡ some ((pos (min size k), splice 0 (take (min size k) (drop at c)) buf), s'))
        × Holds s' c
  Filled-start r c buf at size k (s', e, h) =
      let count : 0 + min (size - 0) k ≡ min size k = omega arith in
      let asked : min (size - 0) k ≡ min size k = omega arith in
      (s', e ∙ (λ i. some ((pos (count i), splice 0 (take (asked i) (drop at c)) buf), s')), h)

  -- Over a layer that serves whole blocks, `block_align_read` returns the bytes of the file from
  -- `offset` on, `size` of them or all there are, writes them to the start of the buffer and
  -- changes nothing behind them, and leaves the file as it is. The blocks, the file and the request
  -- are shorter than 2 ^ 31 bytes, a block has at least a byte, the offset lies in the file or at
  -- its end, and the buffer has room.
  pub block_align_read_lem :
      (s : S) (c buf : Buffer) (size offset : ℕ)
      → Holds s c
      → 0 < block_size
      → offset ≤ length c
      → length c < 2 ^ 31
      → size < 2 ^ 31
      → size ≤ length buf
      → (s' : S) × (block_align_read block_size junk junk_stat path buf size offset fi next s
          ≡ some (
            (
              pos (min size (length c - offset)),
              splice 0 (take (min size (length c - offset)) (drop offset c)) buf,
            ),
            s',
          ))
        × Holds s' c
  unfolding block_align_read split_into_blocks
  block_align_read_lem s c buf size offset h p inside l sl room =
      rw (nonzero block_size p) (Filled-start _ c buf offset size (length c - offset) read)
    where
      whole : offset - offset % block_size + offset % block_size ≡ offset
      whole = omega arith

      read :
          Filled
            (loop (suc size) buf size (offset - offset % block_size) (offset % block_size) 0 s)
            c
            buf
            0
            offset
            (min (size - 0) (length c - offset))
      read = elim (Bool-cases (ltb 0 size)) [
        | inl some_bytes ↦ rw whole at (
            blocks_loop_read (suc size) s c buf size (offset - offset % block_size)
              (offset % block_size) 0 h (IsAligned-start block_size offset p) (omega arith) l
              (mod-lt offset p) (ltb→lt 0 size some_bytes) sl room (omega arith))
        | inr no_bytes ↦
            loop_read_done (suc size) s c buf size (offset - offset % block_size)
              (offset % block_size) 0 offset (length c - offset) h
              (omega (arith, ltb→le 0 size no_bytes)) sl (omega arith)
      ]
