-- ===== src/Sfuse/Rand.antt =====
-- The codec of rand_symmetric.c decodes what it encodes, whatever initialisation vectors were drawn.
use safefs.Prelude.{
  ℕ, ◌+◌, ◌-◌, ◌%◌, ◌^◌, ◌≤◌, ◌<◌, ◌≡◌, refl, sym, ap, subst, ◌∙◌, Bool, some, pos, arith, length,
  take, drop, splice, ◌++◌, uninit, length-uninit, length-take, length-drop, splice-whole,
  splice-append, memcpy, memcpy-splice, take-all, take-drop, take-take, le→ltb, length-append,
  length-splice, max, min, take_eq, ◌>>=◌,
}
use safefs.Layers.{FilePath, Buffer, FileInfo, FuseOperations}
use safefs.BlockAlign.Contract.{IsBlockFile}
use safefs.Sfuse.Codec.{sfuse_oper}
use safefs.Sfuse.Openssl.{Evp, Libc, get_cipher, openssl_rand_str}
use safefs.Sfuse.Symmetric.{
  rand_encode, rand_decode, rand_driver, rand_get_file_size, rand_get_cyphered_block_offset,
  rand_get_truncate_size, symmetric_driver,
}
use safefs.Sfuse.Refine.{copy_read}
use safefs.Sfuse.Contract.{IsRawFile, IsCodec, Stored}
use safefs.Sfuse.Layout.{encoded_length, take_front, drop_front}
use safefs.Sfuse.RandomString.{length-random_chars}
use safefs.Sfuse.Cbc.{IsCbc, Encrypts, openssl_encode_lem, openssl_decode_lem}
use safefs.Sfuse.Encrypted.{symmetric_driver-IsBlockFile}

-- What encrypts `d`, and the initialisation vector behind it.
abbrev pub Carries : Evp → Buffer → ℕ → Buffer → Buffer → Type 0
Carries evp key key_size d e =
    (x : Buffer) × (iv : Buffer) × (length iv ≡ key_size)
    × (e ≡ x ++ iv)
    × Encrypts evp key key_size iv d x

carry :
    (x iv dest : Buffer) (n : ℕ)
    → length iv ≡ n
    → length dest ≡ length x + n
    → memcpy (splice 0 x dest) (length x) iv n ≡ some (x ++ iv)
carry x iv dest n size room =
    let grown : length (splice 0 x dest) ≡ max (length dest) (0 + length x) =
      length-splice 0 x dest (omega arith) in
    let written : splice (length x) iv (splice 0 x dest) ≡ x ++ iv =
      ap (λ at. splice at iv (splice 0 x dest)) {y = 0 + length x} (omega arith)
      ∙ splice-append 0 x iv dest (omega arith)
      ∙ splice-whole (x ++ iv) dest (omega (arith, length-append x iv, size, room)) in
    memcpy-splice (splice 0 x dest) (length x) iv n (omega (arith, grown, room))
      (omega (arith, size))
    ∙ ap (λ t. some (splice (length x) t (splice 0 x dest))) (take-all n iv (omega (arith, size)))
    ∙ ap some written

left_over : (a b c : ℕ) → a ≡ b + c → a - c ≡ b
left_over a b c h = omega (arith, h)

module _ {S : Type 0} (evp : Evp) (cbc : IsCbc evp) (key : Buffer) (key_size : ℕ) (junk : ℕ → ℕ)
    (libc : Libc S) (some_key : 0 < key_size) where
  openssl_rand_str_lem : (s : S) → length (openssl_rand_str libc key_size s).0 ≡ key_size
  unfolding openssl_rand_str
  openssl_rand_str_lem s = rw (le→ltb key_size 1 (omega arith)) (length-random_chars libc _ _ _)

  rand_encode_lem :
      (s : S) (dest src x : Buffer) (n : ℕ)
      → Encrypts evp key key_size (openssl_rand_str libc key_size s).0 (take n src) x
      → n ≤ length src
      → length dest ≡ length x + key_size
      → rand_encode evp key key_size junk libc dest src (pos n) s
        ≡ some (
          (pos (length x + key_size), x ++ (openssl_rand_str libc key_size s).0),
          (openssl_rand_str libc key_size s).1,
        )
  unfolding rand_encode
  rand_encode_lem s dest src x n (encrypted, size, _) inside room =
      let iv = (openssl_rand_str libc key_size s).0 in
      let t = (openssl_rand_str libc key_size s).1 in
      rw
        (
          openssl_encode_lem evp key key_size t iv (uninit junk (n + 16)) src x n encrypted inside
              (omega (arith, size, length-take n src, length-uninit junk (n + 16))),
          ◌>>=◌,
          copy_read x (uninit junk (n + 16)) dest (length x) refl (omega arith),
          carry x iv dest key_size (openssl_rand_str_lem s) room,
        )
        refl

  rand_decode_lem :
      (s : S) (dest src d e : Buffer)
      → Carries evp key key_size d e
      → take (length e) src ≡ e
      → length d ≤ length dest
      → rand_decode evp key key_size junk libc dest src (pos (length e)) s
        ≡ some ((pos (length d), splice 0 d dest), s)
  unfolding rand_decode
  rand_decode_lem s dest src d e (x, iv, iv_size, parts, (_, size, decrypted)) front room =
      let total : length e ≡ length x + key_size =
        omega (arith, length-append x iv, ap length parts, iv_size) in
      let inside : length (take (length e) src) ≡ length e = ap length front in
      let read_iv : take key_size (drop (length x) src) ≡ iv =
        take-drop key_size (length x) src
        ∙ ap (drop (length x))
            (take_eq (length x + key_size) (length e) src (omega (arith, total)) ∙ front ∙ parts)
        ∙ drop_front (length x) x iv refl in
      let read_x : take (length x) src ≡ x =
        take_eq (length x) (min (length x) (length e)) src (omega (arith, total))
        ∙ sym (take-take (length x) (length e) src)
        ∙ ap (take (length x)) (front ∙ parts)
        ∙ take_front (length x) x iv refl in
      rw
        (
          le→ltb (length e) key_size (omega (arith, total)),
          left_over (length e) (length x) key_size total,
          ◌>>=◌,
          memcpy-splice (uninit junk key_size) 0 (drop (length x) src) key_size
              (omega (arith, length-uninit junk key_size))
              (omega
                (arith, length-drop (length x) src, total, inside, length-take (length e) src)),
          splice-whole (take key_size (drop (length x) src)) (uninit junk key_size)
              (ap length read_iv ∙ iv_size ∙ sym (length-uninit junk key_size)),
          read_iv,
          left_over (length e) (length x) key_size total,
          openssl_decode_lem evp key key_size s iv (uninit junk (length e)) src d (length x)
              (ap (evp.decrypt (get_cipher key_size) key iv) read_x ∙ decrypted)
              (omega (arith, total, inside, length-take (length e) src))
              (omega (arith, size, total, length-uninit junk (length e))),
          copy_read d (uninit junk (length e)) dest (length d) refl room,
        )
        refl

  -- The initialisation vectors come from the state; `Holds` does not look at the generator's part.
  pub rand_encode-IsCodec :
      (Holds : S → Buffer → Type 0)
      → ((s : S) (p : Buffer) (seed : ℕ) → Holds s p → Holds (libc.set_my_seed seed s) p)
      → IsCodec
          (key_size + 16)
          Holds
          (Carries evp key key_size)
          (rand_encode evp key key_size junk libc)
          (rand_decode evp key key_size junk libc)
  unfolding openssl_rand_str
  rand_encode-IsCodec Holds frame = record {
    length_law = λ d e (x, iv, iv_size, parts, (_, size, _)).
        omega (arith, ap length parts, length-append x iv, iv_size, size);
    encode_law = λ s p dest src n h inside room.
        let iv = (openssl_rand_str libc key_size s).0 in
        let iv_size : length iv ≡ key_size = openssl_rand_str_lem s in
        let (x, encrypted, grown, decrypted) =
          cbc.cipher_law (get_cipher key_size) key iv (take n src) in
        let enc : Encrypts evp key key_size iv (take n src) x = (encrypted, grown, decrypted) in
        let size : length x + key_size ≡ encoded_length (key_size + 16) n =
          omega (arith, grown, length-take n src) in
        (
          x ++ iv,
          (openssl_rand_str libc key_size s).1,
          subst
              (λ m.
                rand_encode evp key key_size junk libc dest src (pos n) s
                ≡ some ((pos m, x ++ iv), (openssl_rand_str libc key_size s).1))
              size (rand_encode_lem s dest src x n enc inside (room ∙ sym size)),
          (x, iv, iv_size, refl, enc),
          frame s p (libc.my_seed s + 1) h,
        );
    decode_law = λ s d e dest src enc front room. rand_decode_lem s dest src d e enc front room;
  }

-- sfuse with the codec of rand_symmetric.c, which draws an initialisation vector for each block and
-- stores it behind the block, over a file that serves any range of bytes, as one of multi_loopback
-- does, is a layer of whole blocks, whatever the generator yields: reads and writes of the plain
-- blocks succeed and do what they say, and the size it reports is the plain one. The EVP functions
-- are CBC with padding, the key has at least a byte, blocks are units of 16 bytes, at least one, and
-- with what the codec adds shorter than 2 ^ 31 bytes; drawing a vector does not change the file.
pub rand_driver-IsBlockFile :
    {S : Type 0} (errno : S → ℕ) (is_reg : ℕ → Bool) (junk : ℕ → ℕ) (junk_fh : ℕ) (evp : Evp)
    → IsCbc evp
    → (key : Buffer) (key_size : ℕ) (libc : Libc S) (block_size : ℕ) {path : FilePath}
      {fi : FileInfo} {next : FuseOperations S} {Holds : S → Buffer → Type 0}
    → IsRawFile is_reg path fi next Holds
    → ((s : S) (p : Buffer) (seed : ℕ) → Holds s p → Holds (libc.set_my_seed seed s) p)
    → 0 < key_size
    → block_size % 16 ≡ 0
    → 0 < block_size
    → block_size + (key_size + 16) < 2 ^ 31
    → IsBlockFile block_size path fi
        (sfuse_oper errno is_reg junk
          (rand_driver evp key key_size junk libc block_size junk_fh)
          next)
        (Stored (Carries evp key key_size) block_size Holds)
unfolding rand_driver rand_get_file_size rand_get_cyphered_block_offset rand_get_truncate_size
    symmetric_driver
rand_driver-IsBlockFile errno is_reg junk junk_fh evp cbc key key_size libc block_size
      {Holds = Holds} raw frame some_key whole positive small =
    symmetric_driver-IsBlockFile errno is_reg junk junk_fh raw
      (rand_encode-IsCodec evp cbc key key_size junk libc some_key Holds frame) whole positive
      (omega arith) small
