-- ===== src/Sfuse/Symmetric.antt =====
-- crypto/det_symmetric.c and crypto/rand_symmetric.c. Their globals are parameters: the key and its
-- size, the initialisation vector of det_init, and the block size.
use safefs.Prelude.{
  ℕ, suc, ◌+◌, ◌-◌, ◌*◌, ◌/◌, ◌%◌, ◌==◌, ltb, Option, none, some, ℤ, pos, negsuc, neg, neg_one,
  eq_ℤ, ltb_ℤ, if◌then◌else◌, drop, Action, pure, fault, lift, ◌>>=◌, memcpy, uninit,
}
use safefs.Layers.{FilePath, Buffer, FileInfo, FuseOperations}
use safefs.Sfuse.Codec.{EncodeDriver}
use safefs.Sfuse.Openssl.{Evp, Libc, openssl_rand_str, openssl_encode, openssl_decode}

-- DET_PADSIZE and RAND_PADSIZE
abbrev pub pad_size : ℕ
pad_size = 16

abbrev pub add_ℕ : ℤ → ℕ → ℤ
add_ℕ (pos n) k = pos (n + k)
add_ℕ (negsuc n) k = if ltb n k then pos (k - n - 1) else negsuc (n - k)

-- `size / 16 * 16`, towards 0.
abbrev round_down : ℤ → ℤ
round_down (pos n) = pos (n / pad_size * pad_size)
round_down (negsuc n) = neg (pos (suc n / pad_size * pad_size))

-- What det_symmetric.c and rand_symmetric.c share, for the bytes that a block grows by.
module _ (block_size final_pad : ℕ) where
  abbrev pub cyphered_block_size : ℤ → ℤ
  cyphered_block_size origin_size = add_ℕ (round_down origin_size) final_pad

  unfoldable pub cyphered_block_offset : ℕ → Option ℕ
  cyphered_block_offset origin_offset =
      if block_size == 0 then none else some (origin_offset / block_size * (block_size + final_pad))

  unfoldable pub cyphered_truncate_size : ℕ → Option ℕ
  cyphered_truncate_size size =
      let extra_bytes = size % block_size in
      let truncate_size = size / block_size * (block_size + final_pad) in
      if block_size == 0
      then none
      else some (
          if ltb 0 extra_bytes
          then truncate_size + (extra_bytes / pad_size * pad_size + final_pad)
          else truncate_size)

  module _ {S : Type 0} (junk : ℕ → ℕ) (junk_fh : ℕ) (nextlayer : FuseOperations S)
      (decode : Buffer → Buffer → ℤ → Action S (ℤ × Buffer)) where
    abbrev opened : FilePath → Option FileInfo → Action S (ℤ × FileInfo)
    opened path (some fi) = pure (pos 0, fi)
    opened path none = nextlayer.open_file path (record { flags = 0; fh = junk_fh })

    abbrev closed : FilePath → Option FileInfo → FileInfo → Action S ℤ
    closed path (some _) fi = pure (pos 0)
    closed path none fi = nextlayer.release path fi

    -- The size of the last block, `size` bytes at `address`, once it is decoded, or -1. A decoded
    -- length is never negative.
    unfoldable pub last_block_size : FilePath → Option FileInfo → ℕ → ℕ → ℕ → Action S ℤ
    last_block_size path fi_in before size address = do
      (open_res, fi) ← opened path fi_in
      if eq_ℤ open_res neg_one then pure neg_one else (do
        (res, aux_cyphered_buf) ← nextlayer.read path (uninit junk size) size address fi
        if ltb_ℤ res (pos size) then pure neg_one else (do
          close_res ← closed path fi_in fi
          if eq_ℤ close_res neg_one then pure neg_one else (do
            (real_size, _) ← decode (uninit junk size) aux_cyphered_buf (pos size)
            elim real_size [ pos n ↦ pure (pos (before + n)) | negsuc _ ↦ fault ])))

    -- A negative size of a file is a fault.
    unfoldable pub decoded_file_size : FilePath → ℤ → Option FileInfo → Action S ℤ
    unfolding last_block_size
    decoded_file_size path (negsuc _) fi_in = fault
    decoded_file_size path (pos original_size) fi_in =
        let stride = block_size + final_pad in
        let complete = original_size / stride * block_size in
        let last = original_size % stride in
        if ltb 0 last
        then last_block_size path fi_in complete last (original_size - last)
        else pure (pos complete)

module _ (block_size : ℕ) where
  abbrev pub det_get_cyphered_block_size : ℤ → ℤ
  det_get_cyphered_block_size = cyphered_block_size block_size pad_size

  unfoldable pub det_get_cyphered_block_offset : ℕ → Option ℕ
  unfolding cyphered_block_offset
  det_get_cyphered_block_offset = cyphered_block_offset block_size pad_size

  unfoldable pub det_get_truncate_size : ℕ → Option ℕ
  unfolding cyphered_truncate_size
  det_get_truncate_size = cyphered_truncate_size block_size pad_size

-- IV_SIZE is the size of the key, and RAND_FINALPADSIZE 16 more.
module _ (key_size block_size : ℕ) where
  abbrev pub rand_get_cyphered_block_size : ℤ → ℤ
  rand_get_cyphered_block_size = cyphered_block_size block_size (key_size + pad_size)

  unfoldable pub rand_get_cyphered_block_offset : ℕ → Option ℕ
  unfolding cyphered_block_offset
  rand_get_cyphered_block_offset = cyphered_block_offset block_size (key_size + pad_size)

  unfoldable pub rand_get_truncate_size : ℕ → Option ℕ
  unfolding cyphered_truncate_size
  rand_get_truncate_size = cyphered_truncate_size block_size (key_size + pad_size)

-- What `det_driver` and `rand_driver` share.
unfoldable pub symmetric_driver :
    {S : Type 0}
    → ℕ
    → ℕ
    → (ℕ → ℕ)
    → ℕ
    → (Buffer → Buffer → ℤ → Action S (ℤ × Buffer))
    → (Buffer → Buffer → ℤ → Action S (ℤ × Buffer))
    → EncodeDriver S
unfolding decoded_file_size
symmetric_driver block_size final_pad junk junk_fh enc dec = record {
  encode = enc;
  decode = dec;
  get_file_size = λ path size fi nextlayer.
      decoded_file_size block_size final_pad junk junk_fh nextlayer dec path size fi;
  get_cyphered_block_size = cyphered_block_size block_size final_pad;
  get_cyphered_block_offset = cyphered_block_offset block_size final_pad;
  get_truncate_size = cyphered_truncate_size block_size final_pad;
}

-- A buffer of `size + pad` bytes, and the copy of a result of `size` bytes.
abbrev pub fresh : (ℕ → ℕ) → ℤ → ℕ → Option Buffer
fresh junk (pos n) pad = some (uninit junk (n + pad))
fresh junk (negsuc n) pad = none

abbrev pub copy_out : Buffer → Buffer → ℤ → Option Buffer
copy_out dest src (pos n) = memcpy dest 0 src n
copy_out dest src (negsuc n) = none

module _ {S : Type 0} (evp : Evp) (key : Buffer) (key_size : ℕ) (junk : ℕ → ℕ) where
  -- The bodies of `det_encode` and `det_decode` for an initialisation vector, which are also the
  -- first part of those of rand_symmetric.c.
  unfoldable pub det_encode : Buffer → Buffer → Buffer → ℤ → Action S (ℤ × Buffer)
  unfolding openssl_encode
  det_encode iv dest src size = do
    buffer ← lift (fresh junk size pad_size)
    (res, cypherbuffer) ← openssl_encode evp key key_size iv buffer src size
    dest' ← lift (copy_out dest cypherbuffer res)
    pure (res, dest')

  unfoldable pub det_decode : Buffer → Buffer → Buffer → ℤ → Action S (ℤ × Buffer)
  unfolding openssl_decode
  det_decode iv dest src size = do
    buffer ← lift (fresh junk size 0)
    (res, plainbuffer) ← openssl_decode evp key key_size iv buffer src size
    dest' ← lift (copy_out dest plainbuffer res)
    pure (res, dest')

  -- The functions of the table, for the block size DET_BLOCKSIZE.
  module _ (block_size : ℕ) (iv : Buffer) (junk_fh : ℕ) where
    unfoldable pub det_get_file_size :
        FilePath → ℤ → Option FileInfo → FuseOperations S → Action S ℤ
    unfolding decoded_file_size det_decode
    det_get_file_size path original_size fi_in nextlayer =
        decoded_file_size block_size pad_size junk junk_fh nextlayer (det_decode iv) path
          original_size fi_in

    unfoldable pub det_driver : EncodeDriver S
    unfolding det_encode det_decode det_get_file_size
    det_driver = record {
      encode = det_encode iv;
      decode = det_decode iv;
      get_file_size = det_get_file_size;
      get_cyphered_block_size = det_get_cyphered_block_size block_size;
      get_cyphered_block_offset = det_get_cyphered_block_offset block_size;
      get_truncate_size = det_get_truncate_size block_size;
    }

  module _ (libc : Libc S) where
    unfoldable pub rand_encode : Buffer → Buffer → ℤ → Action S (ℤ × Buffer)
    unfolding openssl_encode openssl_rand_str
    rand_encode dest src size = do
      buffer ← lift (fresh junk size pad_size)
      iv ← λ s. some (openssl_rand_str libc key_size s)
      (res, cypherbuffer) ← openssl_encode evp key key_size iv buffer src size
      dest' ← lift (copy_out dest cypherbuffer res)
      at ← lift (elim res [ pos n ↦ some n | negsuc _ ↦ none ])
      dest'' ← lift (memcpy dest' at iv key_size)
      pure (pos (at + key_size), dest'')

    -- A block shorter than the initialisation vector makes the index of the vector negative.
    unfoldable pub rand_decode : Buffer → Buffer → ℤ → Action S (ℤ × Buffer)
    unfolding openssl_decode
    rand_decode dest src (negsuc _) = fault
    rand_decode dest src (pos size) =
        let size_to_decode = size - key_size in
        if ltb size key_size then fault else (do
          iv ← lift (memcpy (uninit junk key_size) 0 (drop size_to_decode src) key_size)
          (res, plainbuffer) ←
              openssl_decode evp key key_size iv (uninit junk size) src (pos size_to_decode)
          dest' ← lift (copy_out dest plainbuffer res)
          pure (res, dest'))

    -- For the block size RAND_BLOCKSIZE.
    module _ (block_size junk_fh : ℕ) where
      unfoldable pub rand_get_file_size :
          FilePath → ℤ → Option FileInfo → FuseOperations S → Action S ℤ
      unfolding decoded_file_size rand_decode
      rand_get_file_size path original_size fi_in nextlayer =
          decoded_file_size block_size (key_size + pad_size) junk junk_fh nextlayer rand_decode path
            original_size fi_in

      unfoldable pub rand_driver : EncodeDriver S
      unfolding rand_encode rand_decode rand_get_file_size
      rand_driver = record {
        encode = rand_encode;
        decode = rand_decode;
        get_file_size = rand_get_file_size;
        get_cyphered_block_size = rand_get_cyphered_block_size key_size block_size;
        get_cyphered_block_offset = rand_get_cyphered_block_offset key_size block_size;
        get_truncate_size = rand_get_truncate_size key_size block_size;
      }
