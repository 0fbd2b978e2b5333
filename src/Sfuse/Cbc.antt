-- ===== src/Sfuse/Cbc.antt =====
-- What the codecs need of OpenSSL: CBC with the padding of PKCS 7, which the EVP functions use unless
-- they are told not to.
use safefs.Prelude.{
  ℕ, ◌+◌, ◌*◌, ◌/◌, ◌≤◌, ◌≡◌, refl, true, ◌∙◌, ap, some, pos, arith, length, take, splice, memcpy,
  memcpy-splice, take-all, leb, ◌>>=◌,
}
use safefs.Layers.{Buffer}
use safefs.Sfuse.Openssl.{Cipher, Evp, get_cipher, openssl_encode, openssl_decode}

-- An encryption fills whole units of 16 bytes, one more if there is no room for the padding, and
-- can be decrypted with the same key and initialisation vector.
pub record IsCbc (evp : Evp) : Type 0 where
  pub cipher_law :
      (cipher : Cipher) (key iv d : Buffer)
      → (e : Buffer) × (evp.encrypt cipher key iv d ≡ some e)
        × (length e ≡ length d / 16 * 16 + 16)
        × (evp.decrypt cipher key iv e ≡ some d)

-- The bytes of `d`, encrypted.
abbrev pub Encrypts : Evp → Buffer → ℕ → Buffer → Buffer → Buffer → Type 0
Encrypts evp key key_size iv d e =
    (evp.encrypt (get_cipher key_size) key iv d ≡ some e)
    × (length e ≡ length d / 16 * 16 + 16)
    × (evp.decrypt (get_cipher key_size) key iv e ≡ some d)

copy_all :
    (dest bytes : Buffer)
    → length bytes ≤ length dest
    → memcpy dest 0 bytes (length bytes) ≡ some (splice 0 bytes dest)
copy_all dest bytes room =
    memcpy-splice dest 0 bytes (length bytes) (omega arith) (omega arith)
    ∙ ap (λ t. some (splice 0 t dest)) (take-all (length bytes) bytes (omega arith))

within : (n : ℕ) (xs : Buffer) → n ≤ length xs → leb n (length xs) ≡ true
within n xs h = ground arith

module _ {S : Type 0} (evp : Evp) (key : Buffer) (key_size : ℕ) where
  pub openssl_encode_lem :
      (s : S) (iv dest src e : Buffer) (n : ℕ)
      → evp.encrypt (get_cipher key_size) key iv (take n src) ≡ some e
      → n ≤ length src
      → length e ≤ length dest
      → openssl_encode evp key key_size iv dest src (pos n) s
        ≡ some ((pos (length e), splice 0 e dest), s)
  unfolding openssl_encode
  openssl_encode_lem s iv dest src e n encrypted inside room =
      rw (within n src inside, ◌>>=◌, encrypted, copy_all dest e room) refl

  pub openssl_decode_lem :
      (s : S) (iv dest src d : Buffer) (n : ℕ)
      → evp.decrypt (get_cipher key_size) key iv (take n src) ≡ some d
      → n ≤ length src
      → length d ≤ length dest
      → openssl_decode evp key key_size iv dest src (pos n) s
        ≡ some ((pos (length d), splice 0 d dest), s)
  unfolding openssl_decode
  openssl_decode_lem s iv dest src d n decrypted inside room =
      rw (within n src inside, ◌>>=◌, decrypted, copy_all dest d room) refl
