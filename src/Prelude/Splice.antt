-- ===== src/Prelude/Splice.antt =====
-- A run of bytes written over a list, which may reach past its end.
use Prim.Native.Nat.{ℕ, zero, suc, ◌+◌, ◌≤◌, max, min}
use mathlib.Core.Path.{◌≡◌, refl, sym, ap, ap₂, ◌∙◌}
use mathlib.Core.List.{List, [], ◌∷◌, ◌++◌, append_assoc}
use native.Mathlib.Omega.{arith}
use safefs.Prelude.Lists.{
  length, take, drop, length-append, length-take, length-drop, take-append_right, drop-append_right,
  take-append-drop, drop-drop, take-nil,
}

module _ {ℓ} {A : Type ℓ} where
  abbrev pub splice : ℕ → List A → List A → List A
  splice at bytes xs = take at xs ++ (bytes ++ drop (at + length bytes) xs)

  pub take_eq : (m n : ℕ) (xs : List A) → m ≡ n → take m xs ≡ take n xs
  take_eq m n xs e = ap (λ k. take k xs) e

  pub take-min : (n : ℕ) (xs : List A) → take (min n (length xs)) xs ≡ take n xs
  take-min zero xs = take_eq (min 0 (length xs)) 0 xs (omega arith)
  take-min (suc n) [] = take-nil (min (suc n) 0)
  take-min (suc n) (x ∷ xs) =
      take_eq (min (suc n) (suc (length xs))) (suc (min n (length xs))) (x ∷ xs) (omega arith)
      ∙ ap (λ t. x ∷ t) (take-min n xs)

  pub drop_eq : (m n : ℕ) (xs : List A) → m ≡ n → drop m xs ≡ drop n xs
  drop_eq m n xs e = ap (λ k. drop k xs) e

  pub take_add : (m n : ℕ) (xs : List A) → take (m + n) xs ≡ take m xs ++ take n (drop m xs)
  take_add zero n xs = take_eq (0 + n) n xs (omega arith)
  take_add (suc m) n [] = take-nil (suc m + n) ∙ sym (take-nil n)
  take_add (suc m) n (x ∷ xs) =
      take_eq (suc m + n) (suc (m + n)) (x ∷ xs) (omega arith) ∙ ap (λ t. x ∷ t) (take_add m n xs)

  pub take-prefix :
      (at n : ℕ) (xs ys : List A)
      → at ≤ length xs
      → take (at + n) (take at xs ++ ys) ≡ take at xs ++ take n ys
  take-prefix at n xs ys h =
      let e : length (take at xs) ≡ at = omega (arith, length-take at xs) in
      ap (λ k. take (k + n) (take at xs ++ ys)) (sym e) ∙ take-append_right n (take at xs) ys

  drop-prefix :
      (at n : ℕ) (xs ys : List A) → at ≤ length xs → drop (at + n) (take at xs ++ ys) ≡ drop n ys
  drop-prefix at n xs ys h =
      let e : length (take at xs) ≡ at = omega (arith, length-take at xs) in
      ap (λ k. drop (k + n) (take at xs ++ ys)) (sym e) ∙ drop-append_right n (take at xs) ys

  take-length : (xs ys : List A) → take (length xs) (xs ++ ys) ≡ xs
  take-length [] ys = refl
  take-length (x ∷ xs) ys = ap (λ t. x ∷ t) (take-length xs ys)

  pub length-splice :
      (at : ℕ) (bytes xs : List A)
      → at ≤ length xs
      → length (splice at bytes xs) ≡ max (length xs) (at + length bytes)
  length-splice at bytes xs h = omega (
    arith,
    length-append (take at xs) (bytes ++ drop (at + length bytes) xs),
    length-append bytes (drop (at + length bytes) xs),
    length-take at xs,
    length-drop (at + length bytes) xs,
  )

  -- What lies behind the written run is kept.
  pub drop-splice :
      (at : ℕ) (bytes xs : List A) (n : ℕ)
      → at ≤ length xs
      → drop (at + (length bytes + n)) (splice at bytes xs) ≡ drop (at + (length bytes + n)) xs
  drop-splice at bytes xs n h =
      drop-prefix at (length bytes + n) xs (bytes ++ drop (at + length bytes) xs) h
      ∙ drop-append_right n bytes (drop (at + length bytes) xs)
      ∙ drop-drop n (at + length bytes) xs
      ∙ drop_eq (at + length bytes + n) (at + (length bytes + n)) xs (omega arith)

  -- Two runs, the second behind the first, are one run.
  pub splice-append :
      (at : ℕ) (a b xs : List A)
      → at ≤ length xs
      → splice (at + length a) b (splice at a xs) ≡ splice at (a ++ b) xs
  splice-append at a b xs h = ap₂ ◌++◌ front (ap (λ t. b ++ t) back) ∙ regroup
    where
      rest : List A
      rest = drop (at + length (a ++ b)) xs

      front : take (at + length a) (splice at a xs) ≡ take at xs ++ a
      front =
          take-prefix at (length a) xs (a ++ drop (at + length a) xs) h
          ∙ ap (λ t. take at xs ++ t) (take-length a (drop (at + length a) xs))

      back : drop (at + length a + length b) (splice at a xs) ≡ rest
      back =
          drop_eq (at + length a + length b) (at + (length a + length b)) (splice at a xs)
            (omega arith)
          ∙ drop-splice at a xs (length b) h
          ∙ drop_eq (at + (length a + length b)) (at + length (a ++ b)) xs
              (omega (arith, length-append a b))

      regroup : (take at xs ++ a) ++ (b ++ rest) ≡ take at xs ++ ((a ++ b) ++ rest)
      regroup = simp append_assoc

  rejoin : (n : ℕ) (xs : List A) → take n xs ++ drop (length (take n xs)) xs ≡ xs
  rejoin zero xs = refl
  rejoin (suc n) [] = refl
  rejoin (suc n) (x ∷ xs) = ap (λ t. x ∷ t) (rejoin n xs)

  -- Writing back what stands there changes nothing.
  pub splice_self :
      (at n : ℕ) (xs : List A) → at ≤ length xs → splice at (take n (drop at xs)) xs ≡ xs
  splice_self at n xs h =
      ap (λ t. take at xs ++ (take n (drop at xs) ++ t))
        (sym (drop-drop (length (take n (drop at xs))) at xs))
      ∙ ap (λ t. take at xs ++ t) (rejoin n (drop at xs))
      ∙ take-append-drop at xs

  -- What was written is read back.
  pub take-splice :
      (at : ℕ) (bytes xs : List A)
      → at ≤ length xs
      → take (length bytes) (drop at (splice at bytes xs)) ≡ bytes
  take-splice at bytes xs h =
      ap (take (length bytes)) (
        drop_eq at (at + 0) (splice at bytes xs) (omega arith)
        ∙ drop-prefix at 0 xs (bytes ++ drop (at + length bytes) xs) h)
      ∙ take-length bytes (drop (at + length bytes) xs)
