-- ===== src/Prelude/Fill.antt =====
-- Runs of one byte, and bytes at the end of a list.
use Prim.Native.Nat.{ℕ, zero, suc, ◌+◌, ◌-◌, ◌≤◌}
use mathlib.Core.Path.{◌≡◌, refl, ap, ap₂, ◌∙◌}
use mathlib.Core.List.{List, [], ◌∷◌, ◌++◌, append-nil, append_assoc}
use native.Mathlib.Omega.{arith}
use safefs.Prelude.Lists.{length, take, drop, replicate}
use safefs.Prelude.Splice.{splice}

module _ {ℓ} {A : Type ℓ} where
  replicate_eq : (m n : ℕ) (x : A) → m ≡ n → replicate m x ≡ replicate n x
  replicate_eq m n x e = ap (λ k. replicate k x) e

  pub take-replicate : (m n : ℕ) (x : A) → m ≤ n → take m (replicate n x) ≡ replicate m x
  take-replicate zero n x h = refl
  take-replicate (suc m) zero x h = absurd (omega arith)
  take-replicate (suc m) (suc n) x h = ap (λ t. x ∷ t) (take-replicate m n x (omega arith))

  pub replicate-add : (m n : ℕ) (x : A) → replicate m x ++ replicate n x ≡ replicate (m + n) x
  replicate-add zero n x = replicate_eq n (0 + n) x (omega arith)
  replicate-add (suc m) n x =
      ap (λ t. x ∷ t) (replicate-add m n x) ∙ replicate_eq (suc (m + n)) (suc m + n) x (omega arith)

  pub take-all : (n : ℕ) (xs : List A) → length xs ≤ n → take n xs ≡ xs
  take-all zero [] h = refl
  take-all zero (x ∷ xs) h = absurd (omega arith)
  take-all (suc n) [] h = refl
  take-all (suc n) (x ∷ xs) h = ap (λ t. x ∷ t) (take-all n xs (omega arith))

  drop-past : (n : ℕ) (xs : List A) → length xs ≤ n → drop n xs ≡ []
  drop-past zero [] h = refl
  drop-past zero (x ∷ xs) h = absurd (omega arith)
  drop-past (suc n) [] h = refl
  drop-past (suc n) (x ∷ xs) h = drop-past n xs (omega arith)

  -- Bytes written at the end are appended.
  pub splice-end : (bytes xs : List A) → splice (length xs) bytes xs ≡ xs ++ bytes
  splice-end bytes xs = ap₂ ◌++◌ (take-all (length xs) xs (omega arith)) (
      ap (λ t. bytes ++ t) (drop-past (length xs + length bytes) xs (omega arith))
      ∙ append-nil bytes)

  pub append-replicate :
      (m n : ℕ) (x : A) (xs : List A)
      → m ≤ n
      → (xs ++ replicate m x) ++ replicate (n - m) x ≡ xs ++ replicate n x
  append-replicate m n x xs h =
      append_assoc xs (replicate m x) (replicate (n - m) x)
      ∙ ap (λ t. xs ++ t) (replicate-add m (n - m) x ∙ replicate_eq (m + (n - m)) n x (omega arith))

  -- Bytes that cover all of a list replace it.
  pub splice-whole : (bytes xs : List A) → length bytes ≡ length xs → splice 0 bytes xs ≡ bytes
  splice-whole bytes xs h =
      ap (λ t. bytes ++ t) (drop-past (0 + length bytes) xs (omega (arith, h))) ∙ append-nil bytes
