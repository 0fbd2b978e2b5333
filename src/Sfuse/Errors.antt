-- ===== src/Sfuse/Errors.antt =====
-- `nop_encode_padded` copies the padding from behind the plain bytes.
use safefs.Prelude.{
  ℕ, ◌+◌, ◌^◌, ◌<◌, ◌≡◌, refl, Bool, true, false, ◌&&◌, none, some, to_int_small, to_u64_small,
  to_int, ◌⊎◌, inl, inr, negsuc, ltb, ltb→lt, Bool-cases, ◌%◌, ◌-◌, arith, leb, lt→leb, length,
  memcpy, uninit, ◌>>=◌, if◌then◌else◌,
}
use safefs.Layers.{FilePath, Buffer, FileInfo, FuseOperations}
use safefs.BlockAlign.Contract.{nonzero}
use safefs.Sfuse.Codec.{sfuse_write}
use safefs.Sfuse.Padded.{nop_encode_padded, nop_get_cyphered_block_offset_padded, nop_padded_driver}

too_short : (dest src : Buffer) (n : ℕ) → length src < n → memcpy dest 0 src n ≡ none
unfolding memcpy
too_short dest src n h = rw (lt→leb n (length src) h) (second (leb (0 + n) (length dest)) _)
  where
    second : (b : Bool) (x : Buffer) → (if b && false then some x else none) ≡ none
    second true x = refl
    second false x = refl

-- The size with the padding is an `int`, or wraps to a negative one.
fits_or_wraps :
    (size : ℕ) → size < 2 ^ 31 → (size + 16 < 2 ^ 31) ⊎ ((n : ℕ) × (to_int (size + 16) ≡ negsuc n))
unfolding to_int
fits_or_wraps size l = elim (Bool-cases (ltb (size + 16) (2 ^ 31))) [
  | inl fits ↦ inl (ltb→lt (size + 16) (2 ^ 31) fits)
  | inr wraps ↦ inr (2 ^ 32 - (size + 16) - 1, rw (small size l, wraps) refl)
]
  where
    small : (size : ℕ) → size < 2 ^ 31 → (size + 16) % 2 ^ 32 ≡ size + 16
    small size l = omega arith

-- With the padded codec `sfuse_write` of a buffer that has not 16 bytes more than the request is
-- undefined: it reads behind the end of the buffer, or asks for an array of a negative length where
-- the size with the padding is no `int`. The request is shorter than 2 ^ 31 bytes, and a block has at
-- least a byte.
pub sfuse_write-nop_padded_driver :
    {S : Type 0} (errno : S → ℕ) (is_reg : ℕ → Bool) (junk : ℕ → ℕ) (block_size : ℕ)
    (next : FuseOperations S) (path : FilePath) (buf : Buffer) (size offset : ℕ) (fi : FileInfo)
    (s : S)
    → 0 < block_size
    → size < 2 ^ 31
    → length buf < size + 16
    → sfuse_write errno is_reg junk (nop_padded_driver block_size) next path buf size offset fi s
      ≡ none
unfolding sfuse_write nop_padded_driver nop_encode_padded nop_get_cyphered_block_offset_padded
sfuse_write-nop_padded_driver errno is_reg junk block_size next path buf size offset fi s p l
      short =
    elim (fits_or_wraps size l) [
      | inl fits ↦
          rw
            (
              nonzero block_size p,
              ◌>>=◌,
              to_int_small size l,
              to_u64_small (size + 16) (omega arith),
              to_int_small (size + 16) fits,
              to_int_small size l,
              to_u64_small (size + 16) (omega arith),
              to_int_small (size + 16) fits,
              too_short (uninit junk (size + 16)) buf (size + 16) short,
            )
            refl
      | inr (n, wraps) ↦
          rw
            (
              nonzero block_size p,
              ◌>>=◌,
              to_int_small size l,
              to_u64_small (size + 16) (omega arith),
              wraps,
            )
            refl
    ]
