-- ===== src/BlockAlign/Resize.antt =====
-- `block_align_create`, `block_align_open` and `block_align_truncate` of align/blockalign.c.
use Prim.Native.Nat.{bit_and, bit_or}
use safefs.Prelude.{
  ℕ, zero, suc, ◌+◌, ◌-◌, ◌*◌, ◌/◌, ◌%◌, ◌^◌, ◌&&◌, Option, none, some, ℤ, pos, negsuc, neg_one,
  eq_ℤ, ltb_ℤ, to_u64, ltb, ◌==◌, if◌then◌else◌, replicate, Action, pure, fault, ◌>>=◌, uninit,
}
use safefs.Layers.{FilePath, Buffer, FileInfo, Stat, FuseOperations}
use safefs.BlockAlign.Defs.{IoInfo, add64, write_block, block_align_read, block_align_write}

-- O_RDWR and the bits of an `int` other than O_WRONLY, on Linux; O_RDONLY has no bits.
abbrev pub rdwr : ℕ
rdwr = 2

abbrev not_wronly : ℕ
not_wronly = 2 ^ 32 - 2

-- `buff` of `block_align_truncate`: 64 KiB of zeros.
unfoldable pub fill_size : ℕ
fill_size = 64 * 1024

-- `size - st_size` when the size is to grow.
abbrev pub growth : ℕ → ℤ → ℕ
growth size (pos n) = size - n
growth size (negsuc n) = size + n + 1

module _ {S : Type 0} where
  unfoldable pub block_align_create :
      FilePath → ℕ → FileInfo → FuseOperations S → Action S (ℤ × FileInfo)
  block_align_create path mode fi nextlayer =
      nextlayer.create path mode (record fi { flags = bit_or (bit_and fi.flags not_wronly) rdwr })

  unfoldable pub block_align_open : FilePath → FileInfo → FuseOperations S → Action S (ℤ × FileInfo)
  block_align_open path fi nextlayer =
      nextlayer.open_file path (record fi { flags = bit_or (bit_and fi.flags not_wronly) rdwr })

module _ {S : Type 0} (block_size : ℕ) (junk : ℕ → ℕ) (junk_stat : Stat) (junk_fh : ℕ) where
  -- The loop of `block_align_truncate`, with what is left of `size_to_write`. It runs on fuel: each
  -- round but the last writes at least a byte.
  unfoldable pub zero_fill : ℕ → FilePath → ℕ → ℕ → FileInfo → FuseOperations S → Action S ℤ
  zero_fill zero path offset left fi nextlayer = fault
  zero_fill (suc fuel) path offset left fi nextlayer =
      let iter_size = (if ltb fill_size left then fill_size else left) in
      let buff = replicate fill_size 0 in
      let next = zero_fill fuel path (add64 offset iter_size) (left - iter_size) fi nextlayer in
      if ltb 0 left
      then (do
        res ← block_align_write block_size junk junk_stat path buff iter_size offset fi nextlayer
        if ltb_ℤ res (pos iter_size) then pure neg_one else next)
      else pure (pos 0)

  -- Without a handle of the caller's the file is opened, and closed at the end.
  unfoldable pub truncate_open :
      FilePath → Option FileInfo → FuseOperations S → Action S (ℤ × FileInfo)
  truncate_open path (some fi) nextlayer = pure (pos 0, fi)
  truncate_open path none nextlayer =
      nextlayer.open_file path (record { flags = rdwr; fh = junk_fh })

  unfoldable pub truncate_close :
      FilePath → Option FileInfo → FileInfo → FuseOperations S → Action S ℤ
  truncate_close path (some _) fi nextlayer = pure (pos 0)
  truncate_close path none fi nextlayer = do
    res ← nextlayer.release path fi
    pure (if ltb_ℤ res (pos 0) then neg_one else pos 0)

  -- The start of the last block, `buffer`, is written again when it was cut.
  unfoldable pub truncate_tail :
      FilePath → Buffer → ℕ → ℤ → Option FileInfo → FileInfo → FuseOperations S → Action S ℤ
  truncate_tail path buffer size st_size fi_in fi nextlayer =
      let extra_bytes = size % block_size in
      let inf : IoInfo S = record { path = path; fi = fi; nextlayer = nextlayer } in
      if ltb 0 extra_bytes && ltb_ℤ (pos size) st_size
      then (do
        written ←
            write_block block_size junk junk_stat buffer extra_bytes
              (size / block_size * block_size) inf
        if ltb_ℤ written (pos extra_bytes)
            then pure neg_one
            else truncate_close path fi_in fi nextlayer)
      else truncate_close path fi_in fi nextlayer

  -- From `ftruncate` on.
  unfoldable pub truncate_cut :
      FilePath → Buffer → ℕ → ℤ → Option FileInfo → FileInfo → FuseOperations S → Action S ℤ
  truncate_cut path buffer size st_size fi_in fi nextlayer = do
    res ← nextlayer.ftruncate path size fi
    if ltb_ℤ res (pos 0)
        then pure neg_one
        else truncate_tail path buffer size st_size fi_in fi nextlayer

  -- The two cases of `block_align_truncate`. The compiler allows `buffer` to have no bytes.
  unfoldable pub truncate_resize :
      FilePath → ℕ → ℤ → Option FileInfo → FileInfo → FuseOperations S → Action S ℤ
  truncate_resize path size st_size fi_in fi nextlayer =
      let extra_bytes = size % block_size in
      let buffer = uninit junk extra_bytes in
      let left = growth size st_size in
      if ltb_ℤ st_size (pos size)
      then (do
        res ← zero_fill (suc left) path (to_u64 st_size) left fi nextlayer
        if ltb_ℤ res (pos 0)
            then pure neg_one
            else truncate_cut path buffer size st_size fi_in fi nextlayer)
      else (if ltb 0 extra_bytes
          then (do
            (res, buffer') ←
                block_align_read block_size junk junk_stat path buffer extra_bytes
                  (size / block_size * block_size) fi nextlayer
            if ltb_ℤ res (pos extra_bytes)
                then pure neg_one
                else truncate_cut path buffer' size st_size fi_in fi nextlayer)
          else truncate_cut path buffer size st_size fi_in fi nextlayer)

  unfoldable pub block_align_truncate :
      FilePath → ℕ → Option FileInfo → FuseOperations S → Action S ℤ
  block_align_truncate path size fi_in nextlayer = if block_size == 0 then fault else (do
    (res, stbuf) ← elim fi_in [
      | none ↦ nextlayer.getattr path junk_stat
      | some fi ↦ nextlayer.fgetattr path junk_stat fi
    ]
    if ltb_ℤ res (pos 0) then pure res else (do
      (opened, fi) ← truncate_open path fi_in nextlayer
      if eq_ℤ opened neg_one
          then pure opened
          else truncate_resize path size stbuf.st_size fi_in fi nextlayer))
