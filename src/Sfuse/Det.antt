-- ===== src/Sfuse/Det.antt =====
-- The codec of det_symmetric.c decodes what it encodes.
use safefs.Prelude.{
  ℕ, ◌+◌, ◌%◌, ◌^◌, ◌≤◌, ◌<◌, ◌≡◌, refl, sym, ap, subst, ◌∙◌, Bool, some, pos, arith, length, take,
  splice, uninit, length-uninit, length-take, splice-whole, ◌>>=◌,
}
use safefs.Layers.{FilePath, Buffer, FileInfo, FuseOperations}
use safefs.BlockAlign.Contract.{IsBlockFile}
use safefs.Sfuse.Codec.{sfuse_oper}
use safefs.Sfuse.Openssl.{Evp, get_cipher}
use safefs.Sfuse.Symmetric.{
  det_encode, det_decode, det_driver, det_get_file_size, det_get_cyphered_block_offset,
  det_get_truncate_size, symmetric_driver,
}
use safefs.Sfuse.Refine.{copy_read}
use safefs.Sfuse.Contract.{IsRawFile, IsCodec, Stored}
use safefs.Sfuse.Layout.{encoded_length}
use safefs.Sfuse.Cbc.{IsCbc, Encrypts, openssl_encode_lem, openssl_decode_lem}
use safefs.Sfuse.Encrypted.{symmetric_driver-IsBlockFile}

module _ {S : Type 0} (evp : Evp) (cbc : IsCbc evp) (key : Buffer) (key_size : ℕ) (junk : ℕ → ℕ)
    (iv : Buffer) where
  det_encode_lem :
      (s : S) (dest src e : Buffer) (n : ℕ)
      → Encrypts evp key key_size iv (take n src) e
      → n ≤ length src
      → length e ≡ length dest
      → det_encode evp key key_size junk iv dest src (pos n) s ≡ some ((pos (length e), e), s)
  unfolding det_encode
  det_encode_lem s dest src e n (encrypted, size, _) inside room =
      rw
        (
          openssl_encode_lem evp key key_size s iv (uninit junk (n + 16)) src e n encrypted inside
              (omega (arith, size, length-take n src, length-uninit junk (n + 16))),
          ◌>>=◌,
          copy_read e (uninit junk (n + 16)) dest (length e) refl (omega arith),
          splice-whole e dest room,
        )
        refl

  det_decode_lem :
      (s : S) (dest src d e : Buffer)
      → Encrypts evp key key_size iv d e
      → take (length e) src ≡ e
      → length d ≤ length dest
      → det_decode evp key key_size junk iv dest src (pos (length e)) s
        ≡ some ((pos (length d), splice 0 d dest), s)
  unfolding det_decode
  det_decode_lem s dest src d e (_, size, decrypted) front room =
      let inside : length (take (length e) src) ≡ length e = ap length front in
      rw
        (
          openssl_decode_lem evp key key_size s iv (uninit junk (length e + 0)) src d (length e)
              (ap (evp.decrypt (get_cipher key_size) key iv) front ∙ decrypted)
              (omega (arith, inside, length-take (length e) src))
              (omega (arith, size, length-uninit junk (length e + 0))),
          ◌>>=◌,
          copy_read d (uninit junk (length e + 0)) dest (length d) refl room,
        )
        refl

  pub det_encode-IsCodec :
      (Holds : S → Buffer → Type 0)
      → IsCodec 16 Holds
          (Encrypts evp key key_size iv)
          (det_encode evp key key_size junk iv)
          (det_decode evp key key_size junk iv)
  det_encode-IsCodec Holds = record {
    length_law = λ d e (_, size, _). size;
    encode_law = λ s p dest src n h inside room.
        let (e, encrypted, grown, decrypted) =
          cbc.cipher_law (get_cipher key_size) key iv (take n src) in
        let enc : Encrypts evp key key_size iv (take n src) e = (encrypted, grown, decrypted) in
        let size : length e ≡ encoded_length 16 n = omega (arith, grown, length-take n src) in
        (
          e,
          s,
          subst (λ m. det_encode evp key key_size junk iv dest src (pos n) s ≡ some ((pos m, e), s))
              size (det_encode_lem s dest src e n enc inside (size ∙ sym room)),
          enc,
          h,
        );
    decode_law = λ s d e dest src enc front room. det_decode_lem s dest src d e enc front room;
  }

-- sfuse with the codec of det_symmetric.c over a file that serves any range of bytes, as one of
-- multi_loopback does, is a layer of whole blocks: reads and writes of the plain blocks succeed and do
-- what they say, and the size it reports is the plain one. The EVP functions are CBC with padding,
-- blocks are units of 16 bytes, at least one, and shorter than 2 ^ 31 - 16 bytes.
pub det_driver-IsBlockFile :
    {S : Type 0} (errno : S → ℕ) (is_reg : ℕ → Bool) (junk : ℕ → ℕ) (junk_fh : ℕ) (evp : Evp)
    → IsCbc evp
    → (key : Buffer) (key_size : ℕ) (iv : Buffer) (block_size : ℕ) {path : FilePath} {fi : FileInfo}
      {next : FuseOperations S} {Holds : S → Buffer → Type 0}
    → IsRawFile is_reg path fi next Holds
    → block_size % 16 ≡ 0
    → 0 < block_size
    → block_size + 16 < 2 ^ 31
    → IsBlockFile block_size path fi
        (sfuse_oper errno is_reg junk (det_driver evp key key_size junk block_size iv junk_fh) next)
        (Stored (Encrypts evp key key_size iv) block_size Holds)
unfolding det_driver det_get_file_size det_get_cyphered_block_offset det_get_truncate_size
    symmetric_driver
det_driver-IsBlockFile errno is_reg junk junk_fh evp cbc key key_size iv block_size {Holds = Holds}
      raw whole positive small =
    symmetric_driver-IsBlockFile errno is_reg junk junk_fh raw
      (det_encode-IsCodec evp cbc key key_size junk iv Holds) whole positive (omega arith) small
