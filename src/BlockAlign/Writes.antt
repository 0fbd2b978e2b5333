-- ===== src/BlockAlign/Writes.antt =====
-- Writing through block_align: any range that starts in the file or at its end.
use native.Mathlib.Nat.{mod-lt, add-zero}
use safefs.Prelude.{
  ℕ, zero, suc, ◌+◌, ◌-◌, ◌%◌, ◌^◌, ◌≤◌, ◌<◌, ◌≡◌, refl, sym, ap, ◌∙◌, inl, inr, Option, some,
  arith, ℤ, pos, le→ltb, ltb→lt, ltb→le, ltb, Bool-cases, length, take, drop, splice, length-splice,
  take-append-drop, subst, ◌>>=◌, length-take, length-drop,
}
use safefs.Layers.{FilePath, Buffer, FileInfo, Stat, FuseOperations}
use safefs.BlockAlign.Defs.{
  writing, IoInfo, process_write_block, process_block, blocks_loop, block_align_write,
  split_into_blocks,
}
use safefs.BlockAlign.Contract.{nonzero, IsAligned, IsAligned-next, IsAligned-start, IsBlockFile}
use safefs.BlockAlign.Edit.{splice_ranges}
use safefs.BlockAlign.Rounds.{share_lem, blocks_loop_done, blocks_loop_round}
use safefs.BlockAlign.WriteBlock.{process_write_block_lem}

module _ {S : Type 0} {block_size : ℕ} {path : FilePath} {fi : FileInfo} {next : FuseOperations S}
    {Holds : S → Buffer → Type 0} (lower : IsBlockFile block_size path fi next Holds) (junk : ℕ → ℕ)
    (junk_stat : Stat) (small : block_size < 2 ^ 31) where
  abbrev info : IoInfo S
  info = record { path = path; fi = fi; nextlayer = next }

  abbrev Written : Option (ℤ × S) → Buffer → ℕ → ℕ → Buffer → Type 0
  Written r c size at d = (s' : S) × (r ≡ some (pos size, s')) × Holds s' (splice at d c)

  abbrev loop : ℕ → Buffer → ℕ → ℕ → ℕ → ℕ → S → Option ((ℤ × Buffer) × S)
  loop fuel buf size offset extra processed s =
      blocks_loop block_size junk junk_stat fuel writing buf size offset extra processed info s

  -- The request is done, and the bytes of the buffer from `p` on stand in the file at `at`.
  abbrev Stored : Option ((ℤ × Buffer) × S) → Buffer → Buffer → ℕ → ℕ → ℕ → Type 0
  Stored r c buf size p at =
      (s' : S) × (r ≡ some ((pos size, buf), s'))
      × Holds s' (splice at (take (size - p) (drop p buf)) c)

  process_block_writes :
      (s : S) (c buf : Buffer) (size offset extra : ℕ)
      → Written
          (process_write_block block_size junk junk_stat buf size offset extra info s)
          c
          size
          (offset + extra)
          (take size buf)
      → (t : S) × (process_block block_size junk junk_stat writing buf size offset extra info s
          ≡ some ((pos size, buf), t))
        × Holds t (splice (offset + extra) (take size buf) c)
  unfolding process_block
  process_block_writes s c buf size offset extra (t, e, h) = (t, rw (◌>>=◌, e) refl, h)

  -- A round that wrote `n` bytes, and what is left of the request.
  Stored-further :
      (r : Option ((ℤ × Buffer) × S)) (c buf : Buffer) (size p n at : ℕ)
      → at ≤ length c
      → p + n ≤ size
      → size ≤ length buf
      → Stored r (splice at (take n (drop p buf)) c) buf size (p + n) (at + n)
      → Stored r c buf size p at
  Stored-further r c buf size p n at inside le room (s', e, h) = (s', e, subst (Holds s') joined h)
    where
      count : n + (size - (p + n)) ≡ size - p
      count = omega arith

      joined :
          splice
            (at + n)
            (take (size - (p + n)) (drop (p + n) buf))
            (splice at (take n (drop p buf)) c)
          ≡ splice at (take (size - p) (drop p buf)) c
      joined =
          splice_ranges at n (size - (p + n)) p buf c inside (omega arith)
          ∙ ap (λ k. splice at (take k (drop p buf)) c) count

  loop_write_done :
      (fuel : ℕ) (s : S) (c buf : Buffer) (size offset extra p at : ℕ)
      → Holds s c
      → p ≡ size
      → size < 2 ^ 31
      → 0 < fuel
      → Stored (loop fuel buf size offset extra p s) c buf size p at
  loop_write_done fuel s c buf size offset extra p at h e l some_fuel =
      let nothing : size - size ≡ 0 = omega arith in
      rw (e, nothing)
        (
          s,
          blocks_loop_done block_size junk junk_stat writing info fuel s buf size offset extra l
              some_fuel,
          subst (Holds s) (sym (rw (add-zero at) (take-append-drop at c))) h,
        )

  blocks_loop_write :
      (fuel : ℕ) (s : S) (c buf : Buffer) (size offset extra p : ℕ)
      → Holds s c
      → IsAligned block_size offset
      → offset + extra ≤ length c
      → length c < 2 ^ 63
      → offset + extra + (size - p) < 2 ^ 63
      → extra < block_size
      → p < size
      → size < 2 ^ 31
      → size ≤ length buf
      → size - p < fuel
      → Stored (loop fuel buf size offset extra p s) c buf size p (offset + extra)
  blocks_loop_write zero s c buf size offset extra p h al inside l end el lt sl room f =
      absurd (omega arith)
  blocks_loop_write (suc fuel) s c buf size offset extra p h al inside l end el lt sl room f =
      let (n, share_eq, some_bytes, left, fits, ends) =
        share_lem block_size (size - p) extra (omega arith) el small (omega arith) in
      let (t, e, h') = process_block_writes s c (drop p buf) n offset extra (
        process_write_block_lem lower junk junk_stat small s c (drop p buf) n offset extra h al
          inside l some_bytes fits (omega (arith, length-drop p buf))) in
      rw
        (
          blocks_loop_round block_size junk junk_stat writing info fuel s t buf (drop p buf) size
              offset extra p n n lt share_eq e (omega arith) (omega arith) (omega arith),
          le→ltb n n (omega arith),
          take-append-drop p buf,
        )
        (Stored-further _ c buf size p n (offset + extra) inside (omega arith) room
          (elim (Bool-cases (ltb (p + n) size)) [
            | inl more ↦
                (let block : n + extra ≡ block_size = omega (arith, ltb→lt (p + n) size more) in
                  let at : offset + block_size + 0 ≡ offset + extra + n = omega arith in
                  let grown =
                    length-splice (offset + extra) (take n (drop p buf)) c (omega arith) in
                  let asked : length (take n (drop p buf)) ≡ n =
                    omega (arith, length-take n (drop p buf), length-drop p buf) in
                  rw at at (
                    blocks_loop_write fuel t (splice (offset + extra) (take n (drop p buf)) c) buf
                      size (offset + block_size) 0 (p + n) h' (IsAligned-next block_size offset al)
                      (omega (arith, grown, asked)) (omega (arith, grown, asked)) (omega arith)
                      (omega arith) (ltb→lt (p + n) size more) sl room (omega arith)))
            | inr done ↦
                loop_write_done fuel t (splice (offset + extra) (take n (drop p buf)) c) buf size
                  (offset + block_size) 0 (p + n) (offset + extra + n) h'
                  (omega (arith, ltb→le (p + n) size done)) sl (omega arith)
          ]))

  -- Over a layer that serves whole blocks, `block_align_write` stores all of its `size` bytes in the
  -- file from `offset` on, keeps every other byte of the file, and returns `size`. The offset lies
  -- in the file or at its end, the blocks and the request are shorter than 2 ^ 31 bytes, a block has
  -- at least a byte, the buffer has the `size` bytes, and the file stays shorter than 2 ^ 63 bytes.
  pub block_align_write_lem :
      (s : S) (c buf : Buffer) (size offset : ℕ)
      → Holds s c
      → 0 < block_size
      → offset ≤ length c
      → length c < 2 ^ 63
      → offset + size < 2 ^ 63
      → size < 2 ^ 31
      → size ≤ length buf
      → (s' : S) × (block_align_write block_size junk junk_stat path buf size offset fi next s
          ≡ some (pos size, s'))
        × Holds s' (splice offset (take size buf) c)
  unfolding block_align_write split_into_blocks
  block_align_write_lem s c buf size offset h p inside l end sl room =
      let (t, e, h') = stored in
      (
        t,
        rw (nonzero block_size p, ◌>>=◌, e) refl,
        subst (λ k. Holds t (splice offset (take k buf) c)) all h',
      )
    where
      whole : offset - offset % block_size + offset % block_size ≡ offset
      whole = omega arith

      all : size - 0 ≡ size
      all = omega arith

      stored :
          Stored
            (loop (suc size) buf size (offset - offset % block_size) (offset % block_size) 0 s)
            c
            buf
            size
            0
            offset
      stored = elim (Bool-cases (ltb 0 size)) [
        | inl some_bytes ↦ rw whole at (
            blocks_loop_write (suc size) s c buf size (offset - offset % block_size)
              (offset % block_size) 0 h (IsAligned-start block_size offset p) (omega arith) l
              (omega arith) (mod-lt offset p) (ltb→lt 0 size some_bytes) sl room (omega arith))
        | inr no_bytes ↦
            loop_write_done (suc size) s c buf size (offset - offset % block_size)
              (offset % block_size) 0 offset h (omega (arith, ltb→le 0 size no_bytes)) sl
              (omega arith)
      ]
