-- ===== src/BlockAlign/Rounds.antt =====
-- One round of the loop of `split_into_blocks`, for reads and writes alike.
use safefs.Prelude.{
  ℕ, zero, suc, ◌+◌, ◌-◌, ◌^◌, ◌≤◌, ◌<◌, min, ◌≡◌, ◌⊎◌, some, arith, pos, to_int, sub64,
  to_int_small, to_u64_small, le→ltb, lt→ltb, ltb, if◌then◌else◌, if_apply, take, drop, ◌++◌, ◌>>=◌,
}
use safefs.Layers.{Buffer, Stat}
use safefs.BlockAlign.Defs.{IoType, IoInfo, add64, share, process_block, blocks_loop}

-- A round takes what is left of the request, or of the block.
pub share_lem :
    (block_size remaining extra : ℕ)
    → 0 < remaining
    → extra < block_size
    → block_size < 2 ^ 31
    → remaining < 2 ^ 31
    → (n : ℕ) × (share block_size remaining extra ≡ pos n)
      × (0 < n)
      × (n ≤ remaining)
      × (n + extra ≤ block_size)
      × ((n ≡ remaining) ⊎ (n + extra ≡ block_size))
unfolding share to_int sub64
share_lem block_size remaining extra p inside small l = (
  min remaining (block_size - extra),
  ground arith,
  omega arith,
  omega arith,
  omega arith,
  omega arith,
)

module _ {S : Type 0} (block_size : ℕ) (junk : ℕ → ℕ) (junk_stat : Stat) (io_type : IoType)
    (inf : IoInfo S) where
  -- A request that is done leaves the loop.
  pub blocks_loop_done :
      (fuel : ℕ) (s : S) (buf : Buffer) (size offset extra : ℕ)
      → size < 2 ^ 31
      → 0 < fuel
      → blocks_loop block_size junk junk_stat fuel io_type buf size offset extra size inf s
        ≡ some ((pos size, buf), s)
  unfolding blocks_loop
  blocks_loop_done zero s buf size offset extra l p = absurd (omega arith)
  blocks_loop_done (suc fuel) s buf size offset extra l p =
      rw (le→ltb size size (omega arith), to_int_small size l)

  -- A round that moves `m` of its `n` bytes ends the request if `m` is less, and else goes on with
  -- the next block.
  pub blocks_loop_round :
      (fuel : ℕ) (s t : S) (buf rest : Buffer) (size offset extra processed n m : ℕ)
      → processed < size
      → share block_size (size - processed) extra ≡ pos n
      → process_block block_size junk junk_stat io_type (drop processed buf) n offset extra inf s
        ≡ some ((pos m, rest), t)
      → n < 2 ^ 31
      → processed + m < 2 ^ 31
      → offset + block_size < 2 ^ 64
      → blocks_loop block_size junk junk_stat
          (suc fuel)
          io_type
          buf
          size
          offset
          extra
          processed
          inf
          s
        ≡ (if ltb m n
            then some ((pos (processed + m), take processed buf ++ rest), t)
            else blocks_loop block_size junk junk_stat fuel io_type
                (take processed buf ++ rest)
                size
                (offset + block_size)
                0
                (processed + m)
                inf
                t)
  unfolding blocks_loop
  blocks_loop_round fuel s t buf rest size offset extra processed n m p e r ln lm lo =
      let e1 : add64 processed m ≡ processed + m = omega arith in
      let e2 : add64 offset block_size ≡ offset + block_size = omega arith in
      rw
        (
          lt→ltb processed size p,
          e,
          to_u64_small n (omega arith),
          ◌>>=◌,
          r,
          to_u64_small m (omega arith),
          le→ltb m 0 (omega arith),
          e1,
          e2,
          to_int_small (processed + m) lm,
        )
        (rw e (if_apply (ltb m n) _ _ t))
