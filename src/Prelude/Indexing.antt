-- ===== src/Prelude/Indexing.antt =====
-- Lists by their elements: which indices have one, and two lists that agree at each index.
use Prim.Native.Nat.{ℕ, zero, suc, ◌<◌}
use mathlib.Core.Path.{◌≡◌, refl, sym, ap, ap₂, ◌∙◌}
use mathlib.Core.Logic.{◌≢◌}
use mathlib.Core.List.{List, [], ◌∷◌, map}
use mathlib.Core.Option.{some, some-injective, none-ne-some}
use native.Mathlib.Omega.{arith}
use safefs.Prelude.Lists.{length, get_elem?, set}

module _ {ℓ} {A : Type ℓ} where
  pub get_elem?-in : (xs : List A) (i : ℕ) → i < length xs → (x : A) × (get_elem? xs i ≡ some x)
  get_elem?-in [] i h = absurd (omega arith)
  get_elem?-in (x ∷ xs) zero h = (x, refl)
  get_elem?-in (x ∷ xs) (suc i) h = get_elem?-in xs i (omega arith)

  pub get_elem?-lt : (xs : List A) (i : ℕ) (x : A) → get_elem? xs i ≡ some x → i < length xs
  get_elem?-lt [] i x e = absurd (none-ne-some x e)
  get_elem?-lt (y ∷ ys) zero x e = omega arith
  get_elem?-lt (y ∷ ys) (suc i) x e = omega (arith, get_elem?-lt ys i x e)

  pub some_injective : {x y : A} → some x ≡ some y → x ≡ y
  some_injective {x} {y} e = some-injective x y e

  pub get_elem?-functional :
      (xs : List A) (i : ℕ) {x y : A} → get_elem? xs i ≡ some x → get_elem? xs i ≡ some y → x ≡ y
  get_elem?-functional xs i {x} {y} p q = some-injective x y (sym p ∙ q)

  pub length-set : (xs : List A) (i : ℕ) (v : A) → length (set xs i v) ≡ length xs
  length-set [] i v = refl
  length-set (x ∷ xs) zero v = refl
  length-set (x ∷ xs) (suc i) v = ap suc (length-set xs i v)

  pub get_elem?-set_same :
      (xs : List A) (i : ℕ) (v : A) → i < length xs → get_elem? (set xs i v) i ≡ some v
  get_elem?-set_same [] i v h = absurd (omega arith)
  get_elem?-set_same (x ∷ xs) zero v h = refl
  get_elem?-set_same (x ∷ xs) (suc i) v h = get_elem?-set_same xs i v (omega arith)

  pub get_elem?-set_other :
      (xs : List A) (i j : ℕ) (v : A) → j ≢ i → get_elem? (set xs i v) j ≡ get_elem? xs j
  get_elem?-set_other [] i j v h = refl
  get_elem?-set_other (x ∷ xs) zero zero v h = absurd (h refl)
  get_elem?-set_other (x ∷ xs) zero (suc j) v h = refl
  get_elem?-set_other (x ∷ xs) (suc i) zero v h = refl
  get_elem?-set_other (x ∷ xs) (suc i) (suc j) v h =
      get_elem?-set_other xs i j v (λ e. h (ap suc e))

  pub get_elem?-ext :
      (xs ys : List A)
      → length xs ≡ length ys
      → ((i : ℕ) (x y : A) → get_elem? xs i ≡ some x → get_elem? ys i ≡ some y → x ≡ y)
      → xs ≡ ys
  get_elem?-ext [] [] h same = refl
  get_elem?-ext [] (y ∷ ys) h same = absurd (omega arith)
  get_elem?-ext (x ∷ xs) [] h same = absurd (omega arith)
  get_elem?-ext (x ∷ xs) (y ∷ ys) h same =
      ap₂ ◌∷◌ (same 0 x y refl refl)
        (get_elem?-ext xs ys (omega arith) (λ i a b p q. same (suc i) a b p q))

  pub length-map {κ} : {B : Type κ} (f : A → B) (xs : List A) → length (map f xs) ≡ length xs
  length-map f [] = refl
  length-map f (x ∷ xs) = ap suc (length-map f xs)

  pub get_elem?-map {κ} :
      {B : Type κ} (f : A → B) (xs : List A) (i : ℕ) (y : B)
      → get_elem? (map f xs) i ≡ some y
      → (x : A) × (get_elem? xs i ≡ some x) × (y ≡ f x)
  get_elem?-map f [] i y e = absurd (none-ne-some y e)
  get_elem?-map f (x ∷ xs) zero y e = (x, refl, some-injective y (f x) (sym e))
  get_elem?-map f (x ∷ xs) (suc i) y e = get_elem?-map f xs i y e
