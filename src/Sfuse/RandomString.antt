-- ===== src/Sfuse/RandomString.antt =====
-- `openssl_rand_str` of crypto/openssl/symmetric.c: how many characters, and which.
use safefs.Prelude.{
  ℕ, zero, suc, ◌+◌, ◌*◌, ◌%◌, ◌^◌, ◌<◌, max, ◌≡◌, refl, ◌∙◌, ap, inl, inr, arith, [], ◌∷◌, length,
  ltb, ltb→lt, ltb→le, Bool-cases,
}
use safefs.Layers.{Buffer}
use safefs.MultiLoopback.Wait.{IsIn, here, there, Every}
use safefs.Sfuse.Openssl.{Libc, charset, char_at, random_chars, openssl_rand_str}

pub length-random_chars :
    {S : Type 0} (libc : Libc S) (seed n rounds : ℕ)
    → length (random_chars libc seed n rounds) ≡ rounds
unfolding random_chars
length-random_chars libc seed n zero = refl
length-random_chars libc seed n (suc rounds) = ap suc (length-random_chars libc seed (n + 1) rounds)

char_at-IsIn : (cs : Buffer) (i : ℕ) → i < length cs → IsIn (char_at cs i) cs
char_at-IsIn [] i h = absurd (omega arith)
char_at-IsIn (c ∷ cs) zero h = here
char_at-IsIn (c ∷ cs) (suc i) h = there (char_at-IsIn cs i (omega arith))

random_chars-Every :
    {S : Type 0} (libc : Libc S) (seed n rounds : ℕ)
    → Every (λ c. IsIn c charset) (random_chars libc seed n rounds)
unfolding random_chars
random_chars-Every libc seed n zero = tt
random_chars-Every libc seed n (suc rounds) = (
  char_at-IsIn charset (libc.rand seed n % length charset) (omega arith),
  random_chars-Every libc seed (n + 1) rounds,
)

-- Whatever the generator of the C library yields, `openssl_rand_str` makes a string of the length asked
-- for, or of one character if that is 0, and never reads outside of its 69 characters: each of the
-- string is one of them.
pub openssl_rand_str-charset :
    {S : Type 0} (libc : Libc S) (len : ℕ) (s : S)
    → (length (openssl_rand_str libc len s).0 ≡ max 1 len)
      × Every (λ c. IsIn c charset) (openssl_rand_str libc len s).0
unfolding openssl_rand_str
openssl_rand_str-charset libc len s =
    (let seed =
        (libc.time s * len + libc.my_seed (libc.set_my_seed (libc.my_seed s + 1) s)) % 2 ^ 32 in
      elim (Bool-cases (ltb len 1)) [
        | inl short ↦
            (let one : 1 ≡ max 1 len = omega (arith, ltb→lt len 1 short) in
              rw short (length-random_chars libc seed 0 1 ∙ one, random_chars-Every libc seed 0 1))
        | inr long ↦
            (let all : len ≡ max 1 len = omega (arith, ltb→le len 1 long) in
              rw long
                (length-random_chars libc seed 0 len ∙ all, random_chars-Every libc seed 0 len))
      ])
