-- ===== src/BlockAlign/Errors.antt =====
-- What `process_read_block` makes of a failed read below: `res - block_extra_offset < 0` compares
-- an unsigned number with 0.
use safefs.Prelude.{
  ℕ, ◌+◌, ◌^◌, ◌≤◌, ◌<◌, ◌≡◌, refl, some, arith, pos, negsuc, to_u64, to_u64_small, sub64,
  to_int_small, le→ltb, lt→ltb, ◌==◌, ==_iff, true, length, drop, take, splice, uninit,
  memcpy-splice, length-drop,
}
use safefs.Layers.{FilePath, Buffer, FileInfo, Stat, FuseOperations}
use safefs.BlockAlign.ReadBlock.{array_length_pos}
use safefs.BlockAlign.Defs.{IoInfo, add64, read_block, read_span, process_read_block}

-- A negative result is a large number.
error_is_large :
    (error size extra : ℕ)
    → error < 2 ^ 31
    → size + extra < 2 ^ 31
    → size < sub64 (to_u64 (negsuc error)) extra
unfolding sub64 to_u64
error_is_large error size extra le small = omega arith

module _ {S : Type 0} (block_size : ℕ) (junk : ℕ → ℕ) (junk_stat : Stat) (path : FilePath)
    (fi : FileInfo) (next : FuseOperations S) where
  abbrev info : IoInfo S
  info = record { path = path; fi = fi; nextlayer = next }

  -- When the layer below fails to read a block, whatever its error, `process_read_block` returns
  -- the size asked for, as if all bytes had been read, and copies what the buffer of the failed
  -- read holds. The request ends the block, it has at least a byte, the blocks are shorter than
  -- 2 ^ 31 bytes, and both buffers have room.
  pub failed_read_lem :
      (s t : S) (buf aux : Buffer) (error size offset extra : ℕ)
      → error < 2 ^ 31
      → size + extra ≡ block_size
      → 0 < size
      → block_size < 2 ^ 31
      → size ≤ length buf
      → block_size ≤ length aux
      → next.read path (uninit junk block_size) block_size offset fi s
        ≡ some ((negsuc error, aux), t)
      → process_read_block block_size junk junk_stat buf size offset extra info s
        ≡ some ((pos size, splice 0 (take size (drop extra aux)) buf), t)
  unfolding process_read_block read_span read_block
  failed_read_lem s t buf aux error size offset extra le whole p small room enough failed =
      let ends : (add64 size extra == block_size) ≡ true =
        (==_iff (add64 size extra) block_size).1 (omega arith) in
      rw
        (
          ends,
          array_length_pos block_size (omega arith),
          failed,
          le→ltb (sub64 (to_u64 (negsuc error)) extra) 0 (omega arith),
          lt→ltb size (sub64 (to_u64 (negsuc error)) extra)
              (error_is_large error size extra le (omega arith)),
          to_int_small size (omega arith),
          to_u64_small size (omega arith),
          memcpy-splice buf 0 (drop extra aux) size (omega arith)
              (omega (arith, length-drop extra aux)),
        )
        refl
