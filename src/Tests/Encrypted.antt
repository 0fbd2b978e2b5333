-- ===== src/Tests/Encrypted.antt =====
-- sfuse with encryption, with blocks of 16 bytes and a cipher that only pads: a byte that counts
-- itself and the zeros behind it, and the plain bytes, over multi_loopback with two devices.
use safefs.Prelude.{
  ℕ, ◌+◌, ◌-◌, ◌%◌, ◌≡◌, refl, ap, ◌∙◌, Option, none, some, true, arith, [], ◌∷◌, ◌++◌, length,
  drop, replicate, length-append, length-replicate, drop-append_right, drop_eq,
}
use safefs.Layers.{Buffer}
use safefs.BlockAlign.Contract.{IsBlockFile}
use safefs.MultiLoopback.Wait.{IsIn, Every}
use safefs.Sfuse.RandomString.{openssl_rand_str-charset}
use safefs.Sfuse.{openssl_rand_str, charset, Evp, Libc, sfuse_oper, det_driver, rand_driver}
use safefs.Sfuse.Contract.{Stored}
use safefs.Sfuse.Cbc.{IsCbc, Encrypts}
use safefs.Sfuse.Det.{det_driver-IsBlockFile}
use safefs.Sfuse.Rand.{Carries, rand_driver-IsBlockFile}
use safefs.Tests.Blocks.{junk0}
use safefs.MultiLoopback.{xor}
use safefs.MultiLoopback.Xored.{xor_driver, xored}
use safefs.Tests.Spread.{path_f, fi_f, setup_of, rand0}
use safefs.Tests.Below.{spread0, Spread0, spread0-IsRawFile, libc1, libc1_quiet}

abbrev zeros : Buffer → ℕ
zeros d = 15 - length d % 16

abbrev unpad : Buffer → Option Buffer
unpad [] = none
unpad (n ∷ xs) = some (drop n xs)

abbrev pub padding : Evp
padding = record {
  encrypt = λ cipher key iv d. some (zeros d ∷ (replicate (zeros d) 0 ++ d));
  decrypt = λ cipher key iv e. unpad e;
}

unpadded : (n : ℕ) (d : Buffer) → drop n (replicate n 0 ++ d) ≡ d
unpadded n d =
    drop_eq n (length (replicate n 0) + 0) (replicate n 0 ++ d)
      (omega (arith, length-replicate {A = ℕ} n 0))
    ∙ drop-append_right 0 (replicate n 0) d

pub padding-IsCbc : IsCbc padding
padding-IsCbc = record {
  cipher_law = λ cipher key iv d. (
    zeros d ∷ (replicate (zeros d) 0 ++ d),
    refl,
    omega (arith, length-append (replicate (zeros d) 0) d, length-replicate {A = ℕ} (zeros d) 0),
    ap some (unpadded (zeros d) d),
  );
}

abbrev pub key0 : Buffer
key0 = replicate 16 7

-- A generator that starts again for every vector.
abbrev pub libc0 : Libc Buffer
libc0 = record {
  time = λ s. 3;
  my_seed = λ s. 0;
  set_my_seed = λ seed s. s;
  rand = λ seed n. seed + n;
}

det_driver-IsBlockFile_example :
    IsBlockFile 16 path_f fi_f
      (sfuse_oper (λ _. 5) (λ _. true) junk0 (det_driver padding key0 16 junk0 16 key0 9) spread0)
      (Stored (Encrypts padding key0 16 key0) 16 Spread0)
det_driver-IsBlockFile_example =
    det_driver-IsBlockFile (λ _. 5) (λ _. true) junk0 9 padding padding-IsCbc key0 16 key0 16
      spread0-IsRawFile refl (omega arith) (omega arith)

rand_driver-IsBlockFile_example :
    IsBlockFile 16 path_f fi_f
      (sfuse_oper (λ _. 5) (λ _. true) junk0 (rand_driver padding key0 16 junk0 libc1 16 9) spread0)
      (Stored (Carries padding key0 16) 16 Spread0)
rand_driver-IsBlockFile_example =
    rand_driver-IsBlockFile (λ _. 5) (λ _. true) junk0 9 padding padding-IsCbc key0 16 libc1 16
      spread0-IsRawFile (libc1_quiet (setup_of xor (xor_driver rand0)) xored) (omega arith) refl
      (omega arith) (omega arith)

openssl_rand_str-charset_example :
    (length (openssl_rand_str libc0 16 key0).0 ≡ 16)
    × Every (λ c. IsIn c charset) (openssl_rand_str libc0 16 key0).0
openssl_rand_str-charset_example = openssl_rand_str-charset libc0 16 key0
