-- ===== src/Sfuse/Openssl.antt =====
-- crypto/openssl/symmetric.c. The EVP functions of OpenSSL and the generator of the C library are
-- parameters; a failure of an EVP function aborts the program, which is a fault.
use safefs.Prelude.{
  ℕ, zero, suc, ◌+◌, ◌*◌, ◌%◌, ◌^◌, ◌==◌, ltb, leb, Option, none, some, ℤ, pos, negsuc,
  if◌then◌else◌, [], ◌∷◌, ◌++◌, length, take, get_elem?, Action, pure, lift, ◌>>=◌, memcpy,
}
use safefs.Layers.{Buffer}

-- `EVP_aes_128_cbc()` and the like.
pub data Cipher : Type 0 where
  aes_128_cbc aes_192_cbc aes_256_cbc : Cipher

-- A whole run of a cipher, from `Init_ex` to `Final_ex`, on a key, an initialisation vector and the
-- bytes: the bytes that came out, or `none` for an error.
pub record Evp : Type 0 where
  pub encrypt : Cipher → Buffer → Buffer → Buffer → Option Buffer
  pub decrypt : Cipher → Buffer → Buffer → Buffer → Option Buffer

-- `time`, the static `mySeed`, and the n-th result of `rand` after `srand`.
pub record Libc (S : Type 0) : Type 0 where
  pub time : S → ℕ
  pub my_seed : S → ℕ
  pub set_my_seed : ℕ → S → S
  pub rand : ℕ → ℕ → ℕ

-- `count` bytes from `first` on.
abbrev run : ℕ → ℕ → Buffer
run first zero = []
run first (suc count) = first ∷ run (first + 1) count

-- "abcdefghijklmnopqrstuvwxyzABCDEFGHIJKLMNOPQRSTUVWXYZ0123456789,.-#'?!"
abbrev pub charset : Buffer
charset = run 97 26 ++ run 65 26 ++ run 48 10 ++ 44 ∷ 46 ∷ 45 ∷ 35 ∷ 39 ∷ 63 ∷ 33 ∷ []

abbrev pub char_at : Buffer → ℕ → ℕ
char_at cs i = elim (get_elem? cs i) [ none ↦ 0 | some c ↦ c ]

module _ {S : Type 0} (libc : Libc S) where
  -- The loop of `openssl_rand_str`, from round `n` on.
  unfoldable pub random_chars : ℕ → ℕ → ℕ → Buffer
  random_chars seed n zero = []
  random_chars seed n (suc rounds) =
      char_at charset (libc.rand seed n % length charset) ∷ random_chars seed (n + 1) rounds

  -- The string, without its terminator.
  unfoldable pub openssl_rand_str : ℕ → S → Buffer × S
  unfolding random_chars
  openssl_rand_str len s =
      let s' = libc.set_my_seed (libc.my_seed s + 1) s in
      let seed = (libc.time s * len + libc.my_seed s') % 2 ^ 32 in
      (random_chars seed 0 (if ltb len 1 then 1 else len), s')

unfoldable pub get_cipher : ℕ → Cipher
get_cipher key_size =
    if key_size == 16 then aes_128_cbc else (if key_size == 24 then aes_192_cbc else aes_256_cbc)

-- KEY and KEYSIZE, which `openssl_init` sets, are parameters.
module _ {S : Type 0} (evp : Evp) (key : Buffer) (key_size : ℕ) where
  -- What `transform` makes of the first `size` bytes of `src`, copied to `dest`.
  abbrev transform_into :
      (Cipher → Buffer → Buffer → Buffer → Option Buffer)
      → Buffer
      → Buffer
      → Buffer
      → ℤ
      → Action S (ℤ × Buffer)
  transform_into transform iv dest src (negsuc n) s = none
  transform_into transform iv dest src (pos size) s =
      if leb size (length src)
      then (do
        out ← lift (transform (get_cipher key_size) key iv (take size src))
        dest' ← lift (memcpy dest 0 out (length out))
        pure (pos (length out), dest'))
          s
      else none

  unfoldable pub openssl_encode : Buffer → Buffer → Buffer → ℤ → Action S (ℤ × Buffer)
  openssl_encode = transform_into evp.encrypt

  unfoldable pub openssl_decode : Buffer → Buffer → Buffer → ℤ → Action S (ℤ × Buffer)
  openssl_decode = transform_into evp.decrypt
