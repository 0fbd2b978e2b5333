-- ===== src/Sfuse/Padded.antt =====
-- The functions of crypto/nopcrypt.c and crypto/nopcrypt_padded.c.
use safefs.Prelude.{
  ℕ, ◌+◌, ◌-◌, ◌*◌, ◌/◌, ◌%◌, ◌^◌, ◌==◌, ltb, Option, none, some, ℤ, pos, negsuc, to_u64, to_int,
  sub64, if◌then◌else◌, Action, pure, lift, ◌>>=◌, memcpy,
}
use safefs.Layers.{Buffer}
use safefs.Sfuse.Codec.{EncodeDriver}

-- NOP_PADSIZE of nopcrypt_padded.h
abbrev pub nop_padsize : ℕ
nop_padsize = 16

-- A copy of `size` bytes, which `memcpy` takes as a `size_t`.
abbrev copy_bytes : Buffer → Buffer → ℤ → Option Buffer
copy_bytes dest src (pos n) = memcpy dest 0 src n
copy_bytes dest src (negsuc n) = none

abbrev plus_pad : ℤ → ℤ
plus_pad (pos n) = pos (n + nop_padsize)
plus_pad (negsuc n) =
    if ltb n nop_padsize then pos (nop_padsize - (n + 1)) else negsuc (n - nop_padsize)

-- A sum of `int`s, which wraps.
abbrev as_int : ℤ → ℤ
as_int z = to_int (to_u64 z)

abbrev minus_pad : ℤ → ℤ
minus_pad (pos n) =
    if ltb n nop_padsize then negsuc (nop_padsize - n - 1) else pos (n - nop_padsize)
minus_pad (negsuc n) = negsuc (n + nop_padsize)

module _ {S : Type 0} where
  unfoldable pub nop_encode : Buffer → Buffer → ℤ → Action S (ℤ × Buffer)
  nop_encode dest src size = do dest' ← lift (copy_bytes dest src size); pure (size, dest')

  unfoldable pub nop_decode : Buffer → Buffer → ℤ → Action S (ℤ × Buffer)
  nop_decode dest src size = do dest' ← lift (copy_bytes dest src size); pure (size, dest')

  unfoldable pub nop_encode_padded : Buffer → Buffer → ℤ → Action S (ℤ × Buffer)
  nop_encode_padded dest src size = do
    dest' ← lift (copy_bytes dest src (as_int (plus_pad size)))
    pure (as_int (plus_pad size), dest')

  unfoldable pub nop_decode_padded : Buffer → Buffer → ℤ → Action S (ℤ × Buffer)
  nop_decode_padded dest src size = do
    dest' ← lift (copy_bytes dest src (as_int (minus_pad size)))
    pure (as_int (minus_pad size), dest')

-- NOP_BLOCKSIZE, which `nop_padded_init` sets, is a parameter, an `int` for which the sum with
-- NOP_PADSIZE is one too. Division by it is undefined when it
-- is 0, and so is, here, a negative size of a file.
module _ (block_size : ℕ) where
  -- An unsigned 64-bit value returned as an `off_t`.
  abbrev to_off : ℕ → ℤ
  to_off n = if ltb n (2 ^ 63) then pos n else negsuc (2 ^ 64 - n - 1)

  unfoldable pub nop_get_file_size_padded : ℤ → Option ℤ
  nop_get_file_size_padded (negsuc n) = none
  nop_get_file_size_padded (pos original_size) =
      let nrblocks = original_size / (block_size + nop_padsize) in
      let blocks =
        (if ltb 0 (original_size % (block_size + nop_padsize)) then nrblocks + 1 else nrblocks) in
      some (to_off (sub64 original_size (blocks * nop_padsize % 2 ^ 64)))

  abbrev pub nop_get_cyphered_block_size_padded : ℤ → ℤ
  nop_get_cyphered_block_size_padded origin_size = as_int (plus_pad origin_size)

  unfoldable pub nop_get_cyphered_block_offset_padded : ℕ → Option ℕ
  nop_get_cyphered_block_offset_padded origin_offset =
      if block_size == 0
      then none
      else some (origin_offset / block_size * (block_size + nop_padsize) % 2 ^ 64)

  -- The bytes of the last block are passed as an `int`. The sums are of 64 bits; an `off_t` is kept as
  -- the unsigned number of its bits.
  unfoldable pub nop_get_truncate_size_padded : ℕ → Option ℕ
  nop_get_truncate_size_padded size =
      let nr_blocks = size / block_size in
      let extra_bytes = size % block_size in
      let truncate_size = nr_blocks * (block_size + nop_padsize) % 2 ^ 64 in
      let padded = to_u64 (nop_get_cyphered_block_size_padded (to_int extra_bytes)) in
      if block_size == 0
      then none
      else some (if ltb 0 extra_bytes then (truncate_size + padded) % 2 ^ 64 else truncate_size)

-- NOPCRYPT and NOPCRYPT_PAD of `init_sfuse_driver`.
unfoldable pub nop_driver : {S : Type 0} → EncodeDriver S
unfolding nop_encode nop_decode
nop_driver = record {
  encode = nop_encode;
  decode = nop_decode;
  get_file_size = λ path original_size fi nextlayer. pure original_size;
  get_cyphered_block_size = λ origin_size. origin_size;
  get_cyphered_block_offset = λ origin_offset. some origin_offset;
  get_truncate_size = λ size. some size;
}

unfoldable pub nop_padded_driver : {S : Type 0} → ℕ → EncodeDriver S
unfolding nop_encode_padded nop_decode_padded
nop_padded_driver block_size = record {
  encode = nop_encode_padded;
  decode = nop_decode_padded;
  get_file_size =
      λ path original_size fi nextlayer. lift (nop_get_file_size_padded block_size original_size);
  get_cyphered_block_size = nop_get_cyphered_block_size_padded block_size;
  get_cyphered_block_offset = nop_get_cyphered_block_offset_padded block_size;
  get_truncate_size = nop_get_truncate_size_padded block_size;
}
