-- ===== src/Sfuse/Codec.antt =====
-- The callbacks of sfuse.c, for any codec. The latencies that sfuse_read and sfuse_write record are
-- left out.
use safefs.Prelude.{
  ℕ, Bool, ◌&&◌, not, Option, none, some, ℤ, pos, negsuc, neg, neg_one, eq_ℤ, ltb_ℤ, to_int,
  if◌then◌else◌, Action, pure, lift, ◌>>=◌, uninit,
}
use safefs.Layers.{FilePath, Buffer, FileInfo, Stat, FuseOperations}

-- `struct encode_driver`. No codec looks at `ident`. A source buffer and its size go in, and the
-- result and the destination come back.
pub record EncodeDriver (S : Type 0) : Type 0 where
  pub encode : Buffer → Buffer → ℤ → Action S (ℤ × Buffer)
  pub decode : Buffer → Buffer → ℤ → Action S (ℤ × Buffer)
  pub get_file_size : FilePath → ℤ → Option FileInfo → FuseOperations S → Action S ℤ
  pub get_cyphered_block_size : ℤ → ℤ
  pub get_cyphered_block_offset : ℕ → Option ℕ
  pub get_truncate_size : ℕ → Option ℕ

-- The length of an array; the compiler allows 0, and a negative one is undefined.
abbrev pub vla_length : ℤ → Option ℕ
vla_length (pos n) = some n
vla_length (negsuc n) = none

-- `errno` is a function of the state, and `is_reg` is S_ISREG.
module _ {S : Type 0} (errno : S → ℕ) (is_reg : ℕ → Bool) (junk : ℕ → ℕ)
    (enc_driver : EncodeDriver S) (originalfs_oper : FuseOperations S) where
  unfoldable pub sfuse_read : FilePath → Buffer → ℕ → ℕ → FileInfo → Action S (ℤ × Buffer)
  sfuse_read path buf size offset fi = do
    let cblock_size = enc_driver.get_cyphered_block_size (to_int size)
    cblock_offset ← lift (enc_driver.get_cyphered_block_offset offset)
    n ← lift (vla_length cblock_size)
    (res, aux_cyphered_buf) ← originalfs_oper.read path (uninit junk n) n cblock_offset fi
    if not (ltb_ℤ (pos 0) res) then pure (res, buf) else enc_driver.decode buf aux_cyphered_buf res

  unfoldable pub sfuse_write : FilePath → Buffer → ℕ → ℕ → FileInfo → Action S ℤ
  sfuse_write path buf size offset fi = do
    let cblock_size = enc_driver.get_cyphered_block_size (to_int size)
    cblock_offset ← lift (enc_driver.get_cyphered_block_offset offset)
    n ← lift (vla_length cblock_size)
    (res, aux_cyphered_buf) ← enc_driver.encode (uninit junk n) buf (to_int size)
    if ltb_ℤ res cblock_size then pure neg_one else (do
      written ← originalfs_oper.write path aux_cyphered_buf n cblock_offset fi
      pure (
          if ltb_ℤ written (pos 0)
          then written
          else (if ltb_ℤ written cblock_size then neg_one else to_int size)))

  -- The size of a regular file is that of what it decodes to; the end of sfuse_getattr and
  -- sfuse_fgetattr.
  unfoldable pub decoded_size : FilePath → Stat → Option FileInfo → ℤ → Bool → Action S (ℤ × Stat)
  decoded_size path stbuf fi res known =
      if known && is_reg stbuf.st_mode
      then (do
        st_size ← enc_driver.get_file_size path stbuf.st_size fi originalfs_oper
        pure ((if ltb_ℤ st_size (pos 0) then neg_one else res), record stbuf { st_size = st_size }))
      else pure (res, stbuf)

  unfoldable pub sfuse_getattr : FilePath → Stat → Action S (ℤ × Stat)
  unfolding decoded_size
  sfuse_getattr path stbuf = do
    (res, st) ← originalfs_oper.getattr path stbuf
    decoded_size path st none res (not (ltb_ℤ res (pos 0)))

  unfoldable pub sfuse_fgetattr : FilePath → Stat → FileInfo → Action S (ℤ × Stat)
  unfolding decoded_size
  sfuse_fgetattr path stbuf fi = do
    (res, st) ← originalfs_oper.fgetattr path stbuf fi
    decoded_size path st (some fi) res (eq_ℤ res (pos 0))

  -- `if (res == -1) return -errno; return 0;`
  abbrev truncated : ℤ → Action S ℤ
  truncated res s = some ((if eq_ℤ res neg_one then neg (pos (errno s)) else pos 0), s)

  unfoldable pub sfuse_truncate : FilePath → ℕ → Action S ℤ
  sfuse_truncate path size = do
    truncate_size ← lift (enc_driver.get_truncate_size size)
    res ← originalfs_oper.truncate path truncate_size
    truncated res

  unfoldable pub sfuse_ftruncate : FilePath → ℕ → FileInfo → Action S ℤ
  sfuse_ftruncate path size fi = do
    truncate_size ← lift (enc_driver.get_truncate_size size)
    res ← originalfs_oper.ftruncate path truncate_size fi
    truncated res

  -- The table that `init_sfuse_driver` installs.
  unfoldable pub sfuse_oper : FuseOperations S
  sfuse_oper = record originalfs_oper {
    getattr = sfuse_getattr;
    fgetattr = sfuse_fgetattr;
    read = sfuse_read;
    write = sfuse_write;
    truncate = sfuse_truncate;
    ftruncate = sfuse_ftruncate;
  }
