-- ===== src/Sfuse/Sizes.antt =====
-- The sizes of files under the padded codec, of nopcrypt_padded.c.
use native.Mathlib.Nat.{mul-add-div_right, mul-add-mod_self_right, div-eq_of_lt, mod-eq_of_lt}
use safefs.Prelude.{ℕ, ◌+◌, ◌*◌, ◌/◌, ◌%◌, ◌<◌, ◌≡◌, ◌∙◌, ap, arith}

pub quotient : (d q x t : ℕ) → x < d → t ≡ q * d + x → t / d ≡ q
quotient d q x t h e =
    ap (λ k. k / d) e ∙ mul-add-div_right (omega arith) q x ∙ omega (arith, div-eq_of_lt h)

pub remainder : (d q x t : ℕ) → x < d → t ≡ q * d + x → t % d ≡ x
remainder d q x t h e = ap (λ k. k % d) e ∙ mul-add-mod_self_right q d x ∙ mod-eq_of_lt h

module _ (block_size size : ℕ) where
  abbrev blocks : ℕ
  blocks = size / block_size

  abbrev extra : ℕ
  extra = size % block_size
