-- ===== src/BlockAlign/Defs.antt =====
-- The functions of align/blockalign.c. The global BLOCKSIZE, which `define_block_size` sets once,
-- is a parameter, and so is what uninitialised memory holds.
use safefs.Prelude.{
  ℕ, zero, suc, ◌+◌, ◌-◌, ◌%◌, ◌^◌, ◌&&◌, ◌||◌, Option, none, some, ℤ, pos, negsuc, neg_one, ltb_ℤ,
  to_int, to_u64, sub64, ltb, leb, ◌==◌, if◌then◌else◌, drop, take, ◌++◌, Action, pure, fault, lift,
  ◌>>=◌, uninit, memcpy,
}
use safefs.Layers.{FilePath, Buffer, FileInfo, Stat, FuseOperations}

-- READ and WRITE of blockalign.h
pub data IoType : Type 0 where
  reading writing : IoType

-- `struct io_info`
pub record IoInfo (S : Type 0) : Type 0 where
  pub path : FilePath
  pub fi : FileInfo
  pub nextlayer : FuseOperations S

-- Addition of `uint64_t` values.
abbrev pub add64 : ℕ → ℕ → ℕ
add64 a b = (a + b) % 2 ^ 64

-- The length of a variable-length array; a declaration with another is undefined.
abbrev pub array_length : ℤ → Option ℕ
array_length (pos zero) = none
array_length (pos (suc n)) = some (suc n)
array_length (negsuc n) = none

module _ (block_size : ℕ) where
  -- `bytes_to_read` of `process_read_block` when the request does not end the block.
  unfoldable pub read_amount : ℕ → ℕ → ℕ → ℕ → ℤ
  read_amount size block_offset block_extra_offset file_size =
      let left = sub64 file_size block_offset in
      let wanted = add64 size block_extra_offset in
      let n = to_int (if leb left wanted then wanted else left) in
      if ltb_ℤ (pos block_size) n then pos block_size else n

  -- `size_to_process_in_block`
  unfoldable pub share : ℕ → ℕ → ℤ
  share remaining extra =
      to_int (if leb block_size (add64 remaining extra) then sub64 block_size extra else remaining)

module _ {S : Type 0} (block_size : ℕ) (junk : ℕ → ℕ) (junk_stat : Stat) where
  -- The result of the call below is not looked at, so after an error the size is what the
  -- uninitialised `struct stat` holds.
  unfoldable pub block_align_get_file_size :
      FilePath → Option FileInfo → FuseOperations S → Action S ℤ
  block_align_get_file_size path (some fi) nextlayer = do
    (res, st) ← nextlayer.fgetattr path junk_stat fi
    pure st.st_size
  block_align_get_file_size path none nextlayer = do
    (res, st) ← nextlayer.getattr path junk_stat
    pure st.st_size

  unfoldable pub read_block : Buffer → ℕ → ℕ → IoInfo S → Action S (ℤ × Buffer)
  read_block buf size offset inf = (inf.nextlayer).read inf.path buf size offset inf.fi

  unfoldable pub write_block : Buffer → ℕ → ℕ → IoInfo S → Action S ℤ
  write_block buf size offset inf = (inf.nextlayer).write inf.path buf size offset inf.fi

  -- `process_read_block` from the declaration of `aux_buf` on. `buf` is the part of the caller's
  -- buffer from where the block's bytes go.
  unfoldable pub read_span : Buffer → ℕ → ℕ → ℕ → ℤ → IoInfo S → Action S (ℤ × Buffer)
  unfolding read_block
  read_span buf size block_offset block_extra_offset bytes_to_read inf = do
    n ← lift (array_length bytes_to_read)
    (res, aux_buf) ← read_block (uninit junk n) n block_offset inf
    -- `res` is converted to `uint64_t` before the subtraction.
    let got = sub64 (to_u64 res) block_extra_offset
    if ltb got 0 then pure (neg_one, buf) else (do
      let requested_size_read = to_int (if ltb size got then size else got)
      buf' ← lift (memcpy buf 0 (drop block_extra_offset aux_buf) (to_u64 requested_size_read))
      pure (requested_size_read, buf'))

  unfoldable pub process_read_block : Buffer → ℕ → ℕ → ℕ → IoInfo S → Action S (ℤ × Buffer)
  unfolding block_align_get_file_size
  process_read_block buf size block_offset block_extra_offset inf =
      if add64 size block_extra_offset == block_size
      then read_span buf size block_offset block_extra_offset (pos block_size) inf
      else (do
        st_size ← block_align_get_file_size inf.path (some inf.fi) inf.nextlayer
        let amount = read_amount block_size size block_offset block_extra_offset (to_u64 st_size)
        read_span buf size block_offset block_extra_offset amount inf)

  -- The end of `process_write_block`.
  unfoldable pub finish_write : Buffer → ℤ → ℕ → ℕ → IoInfo S → Action S ℤ
  unfolding write_block
  finish_write write_buf bytes_to_write size block_offset inf = do
    res ← write_block write_buf (to_u64 bytes_to_write) block_offset inf
    pure (if ltb_ℤ res bytes_to_write then neg_one else to_int size)

  -- The branch of `process_write_block` that reads the block and changes a part of it, and before
  -- it the same branch from the read on.
  unfoldable pub edit_block : Buffer → ℕ → ℕ → ℕ → ℤ → ℤ → IoInfo S → Action S ℤ
  edit_block buf size block_offset block_extra_offset bytes_to_read bytes_to_write inf = do
    (res, aux_buf) ←
        (inf.nextlayer).read inf.path (uninit junk block_size) (to_u64 bytes_to_read) block_offset
          inf.fi
    if ltb_ℤ res bytes_to_read then pure neg_one else (do
      aux_buf' ← lift (memcpy aux_buf block_extra_offset buf size)
      finish_write aux_buf' bytes_to_write size block_offset inf)

  unfoldable pub modify_block : Buffer → ℕ → ℕ → ℕ → ℕ → IoInfo S → Action S ℤ
  modify_block buf size block_offset block_extra_offset remaining_file_bytes inf =
      let bytes_to_read =
        to_int (if ltb remaining_file_bytes block_size then remaining_file_bytes else block_size) in
      let wanted = add64 size block_extra_offset in
      let bytes_to_write =
        to_int (if ltb wanted (to_u64 bytes_to_read) then to_u64 bytes_to_read else wanted) in
      edit_block buf size block_offset block_extra_offset bytes_to_read bytes_to_write inf

  -- `process_write_block`, first from where it has the size of the file.
  unfoldable pub partial_write : Buffer → ℕ → ℕ → ℕ → ℕ → IoInfo S → Action S ℤ
  partial_write buf size block_offset block_extra_offset file_size inf =
      let remaining_file_bytes = sub64 file_size block_offset in
      if leb file_size block_offset
      then (if ltb file_size block_offset || ltb 0 block_extra_offset
          then pure neg_one
          else finish_write buf (to_int size) size block_offset inf)
      else (if block_extra_offset == 0 && leb remaining_file_bytes size
          then finish_write buf (to_int size) size block_offset inf
          else modify_block buf size block_offset block_extra_offset remaining_file_bytes inf)

  unfoldable pub process_write_block : Buffer → ℕ → ℕ → ℕ → IoInfo S → Action S ℤ
  unfolding block_align_get_file_size
  process_write_block buf size block_offset block_extra_offset inf =
      if size == block_size && block_extra_offset == 0
      then finish_write buf (pos block_size) size block_offset inf
      else (do
        st_size ← block_align_get_file_size inf.path (some inf.fi) inf.nextlayer
        partial_write buf size block_offset block_extra_offset (to_u64 st_size) inf)

  -- One round of `split_into_blocks`, from `buf` on: what was done, and the buffer.
  unfoldable pub process_block : IoType → Buffer → ℕ → ℕ → ℕ → IoInfo S → Action S (ℤ × Buffer)
  process_block reading buf size offset extra inf = process_read_block buf size offset extra inf
  process_block writing buf size offset extra inf = do
    res ← process_write_block buf size offset extra inf
    pure (res, buf)

  -- The loop of `split_into_blocks`, on fuel: each round but the last moves at least a byte.
  unfoldable pub blocks_loop :
      ℕ → IoType → Buffer → ℕ → ℕ → ℕ → ℕ → IoInfo S → Action S (ℤ × Buffer)
  blocks_loop zero io_type buf size offset extra processed inf = fault
  blocks_loop (suc fuel) io_type buf size offset extra processed inf =
      if ltb processed size
      then (do
        let n = share block_size (size - processed) extra
        (res, rest) ← process_block io_type (drop processed buf) (to_u64 n) offset extra inf
        let buf' = take processed buf ++ rest
        let processed' = add64 processed (to_u64 res)
        let next = blocks_loop fuel io_type buf' size (add64 offset block_size) 0 processed' inf
        if ltb_ℤ res (pos 0)
            then pure (res, buf')
            else (if ltb_ℤ res n then pure (to_int processed', buf') else next))
      else pure (to_int processed, buf)

  unfoldable pub split_into_blocks : IoType → Buffer → ℕ → ℕ → ℕ → IoInfo S → Action S (ℤ × Buffer)
  split_into_blocks io_type buf size aligned_offset block_extra_offset inf =
      blocks_loop (suc size) io_type buf size aligned_offset block_extra_offset 0 inf

  -- `offset % BLOCKSIZE` is undefined for a block size of 0.
  abbrev pub aligned_access :
      IoType → FilePath → Buffer → ℕ → ℕ → FileInfo → FuseOperations S → Action S (ℤ × Buffer)
  aligned_access io_type path buf size offset fi nextlayer =
      if block_size == 0
      then fault
      else (let block_extra_offset = offset % block_size in
          let aligned_offset = offset - block_extra_offset in
          split_into_blocks io_type buf size aligned_offset block_extra_offset
            (record { path = path; fi = fi; nextlayer = nextlayer }))

  unfoldable pub block_align_read :
      FilePath → Buffer → ℕ → ℕ → FileInfo → FuseOperations S → Action S (ℤ × Buffer)
  block_align_read = aligned_access reading

  unfoldable pub block_align_write :
      FilePath → Buffer → ℕ → ℕ → FileInfo → FuseOperations S → Action S ℤ
  block_align_write path buf size offset fi nextlayer = do
    (res, _) ← aligned_access writing path buf size offset fi nextlayer
    pure res
