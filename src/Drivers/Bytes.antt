-- ===== src/Drivers/Bytes.antt =====
-- Exclusive or on numbers and on arrays: what cancels when a block is decoded.
use Prim.Native.Nat.{digits, differ, bit_xor-bitwise}
use native.Mathlib.Nat.{le_refl}
use safefs.Prelude.{
  ℕ, zero, suc, ◌+◌, ◌*◌, ◌/◌, ◌%◌, ◌≤◌, ◌<◌, bit_xor, ◌≡◌, refl, sym, ap, ◌∙◌, [], ◌∷◌, ◌++◌,
  length, take, drop, take_eq, drop_eq, splice, append-nil, arith, some, memcpy, memcpy-splice,
}
use safefs.Layers.{Buffer}
use safefs.Drivers.Defs.{xor_blocks}

fuel_enough :
    (n m a b : ℕ) → a ≤ n → a ≤ m → digits (λ y. y) differ n a b ≡ digits (λ y. y) differ m a b
fuel_enough zero zero a b p q = refl
fuel_enough zero (suc m) zero b p q = refl
fuel_enough zero (suc m) (suc a) b p q = absurd (omega arith)
fuel_enough (suc n) zero zero b p q = refl
fuel_enough (suc n) zero (suc a) b p q = absurd (omega arith)
fuel_enough (suc n) (suc m) zero b p q = refl
fuel_enough (suc n) (suc m) (suc a) b p q =
    rw (fuel_enough n m (suc a / 2) (b / 2) (omega arith) (omega arith))

-- Exclusive or of two digits is their sum, without the carry.
differ_digits : (a b : ℕ) → differ (a % 2) (b % 2) ≡ (a + b) % 2
differ_digits a b = digit (a % 2) (b % 2) (omega arith) (omega arith) ∙ omega arith
  where
    digit : (x y : ℕ) → x < 2 → y < 2 → differ x y ≡ (x + y) % 2
    digit zero zero p q = refl
    digit zero (suc zero) p q = refl
    digit (suc zero) zero p q = refl
    digit (suc zero) (suc zero) p q = refl
    digit (suc (suc x)) y p q = absurd (omega arith)
    digit zero (suc (suc y)) p q = absurd (omega arith)
    digit (suc zero) (suc (suc y)) p q = absurd (omega arith)

-- One equation for the lowest digit.
bit_xor_step : (a b : ℕ) → bit_xor a b ≡ bit_xor (a / 2) (b / 2) * 2 + (a + b) % 2
bit_xor_step zero b = simp bit_xor-bitwise (omega arith)
bit_xor_step (suc a) b = simp bit_xor-bitwise (
    omega (
      arith,
      fuel_enough a (suc a / 2) (suc a / 2) (b / 2) (omega arith) (le_refl _),
      differ_digits (suc a) b,
    ))

bit_xor_half : (a b : ℕ) → bit_xor a b / 2 ≡ bit_xor (a / 2) (b / 2)
bit_xor_half a b = omega (arith, bit_xor_step a b)

bit_xor_parity : (a b : ℕ) → bit_xor a b % 2 ≡ (a + b) % 2
bit_xor_parity a b = omega (arith, bit_xor_step a b)

-- A number is its half and its parity.
same_digits : (a b : ℕ) → a / 2 ≡ b / 2 → a % 2 ≡ b % 2 → a ≡ b
same_digits a b h k = omega arith

cancel_below :
    (n x y m : ℕ) → x ≤ n → y ≤ n → m ≤ n → bit_xor (bit_xor x m) (bit_xor y m) ≡ bit_xor x y
cancel_below zero x y m p q r =
    let ex : x ≡ 0 = omega arith in
    let ey : y ≡ 0 = omega arith in let em : m ≡ 0 = omega arith in rw (ex, ey, em) refl
cancel_below (suc n) x y m p q r =
    let ih = cancel_below n (x / 2) (y / 2) (m / 2) (omega arith) (omega arith) (omega arith) in
    let halves : bit_xor (bit_xor x m) (bit_xor y m) / 2 ≡ bit_xor x y / 2 =
      rw (bit_xor_half, bit_xor_half, bit_xor_half, bit_xor_half) ih in
    same_digits _ _ halves (
      omega (
        arith,
        bit_xor_parity (bit_xor x m) (bit_xor y m),
        bit_xor_parity x m,
        bit_xor_parity y m,
        bit_xor_parity x y,
      ))

-- What is exclusive-ored into both sides cancels.
pub bit_xor_cancel : (x y m : ℕ) → bit_xor (bit_xor x m) (bit_xor y m) ≡ bit_xor x y
bit_xor_cancel x y m = cancel_below (x + y + m) x y m (omega arith) (omega arith) (omega arith)

undo_below : (n m b : ℕ) → m ≤ n → b ≤ n → bit_xor m (bit_xor b m) ≡ b
undo_below zero m b p q =
    let em : m ≡ 0 = omega arith in let eb : b ≡ 0 = omega arith in rw (em, eb) refl
undo_below (suc n) m b p q =
    let ih = undo_below n (m / 2) (b / 2) (omega arith) (omega arith) in
    let halves : bit_xor m (bit_xor b m) / 2 ≡ b / 2 = rw (bit_xor_half, bit_xor_half) ih in
    same_digits _ _ halves (omega (arith, bit_xor_parity m (bit_xor b m), bit_xor_parity b m))

pub bit_xor_undo : (m b : ℕ) → bit_xor m (bit_xor b m) ≡ b
bit_xor_undo m b = undo_below (m + b) m b (omega arith) (omega arith)

-- Exclusive or of two arrays of one length.
abbrev pub zip_xor : Buffer → Buffer → Buffer
zip_xor (x ∷ xs) (y ∷ ys) = bit_xor x y ∷ zip_xor xs ys
zip_xor _ _ = []

pub length-zip_xor : (xs ys : Buffer) → length xs ≡ length ys → length (zip_xor xs ys) ≡ length xs
length-zip_xor [] ys h = refl
length-zip_xor (x ∷ xs) [] h = absurd (omega arith)
length-zip_xor (x ∷ xs) (y ∷ ys) h = ap suc (length-zip_xor xs ys (omega arith))

pub zip_xor_cancel :
    (xs ys ms : Buffer)
    → length xs ≡ length ms
    → length ys ≡ length ms
    → zip_xor (zip_xor xs ms) (zip_xor ys ms) ≡ zip_xor xs ys
zip_xor_cancel [] ys ms h k = refl
zip_xor_cancel (x ∷ xs) [] [] h k = refl
zip_xor_cancel (x ∷ xs) [] (m ∷ ms) h k = refl
zip_xor_cancel (x ∷ xs) (y ∷ ys) [] h k = absurd (omega arith)
zip_xor_cancel (x ∷ xs) (y ∷ ys) (m ∷ ms) h k =
    rw (bit_xor_cancel x y m, zip_xor_cancel xs ys ms (omega arith) (omega arith)) refl

pub zip_xor_undo : (ms bs : Buffer) → length ms ≡ length bs → zip_xor ms (zip_xor bs ms) ≡ bs
zip_xor_undo [] [] h = refl
zip_xor_undo [] (b ∷ bs) h = absurd (omega arith)
zip_xor_undo (m ∷ ms) [] h = absurd (omega arith)
zip_xor_undo (m ∷ ms) (b ∷ bs) h = rw (bit_xor_undo m b, zip_xor_undo ms bs (omega arith)) refl

xor_prefix :
    (xs ys rest : Buffer)
    → length xs ≡ length ys
    → xor_blocks (xs ++ rest) ys (xs ++ rest) (length xs) ≡ some (zip_xor xs ys ++ rest)
unfolding xor_blocks
xor_prefix [] ys rest h = refl
xor_prefix (x ∷ xs) [] rest h = absurd (omega arith)
xor_prefix (x ∷ xs) (y ∷ ys) rest h = rw (xor_prefix xs ys rest (omega arith)) refl

-- `xor_blocks` into its first argument, which may be longer than the part it changes.
pub xor_blocks_lem :
    (xs ys rest : Buffer) (size : ℕ)
    → length xs ≡ size
    → length ys ≡ size
    → xor_blocks (xs ++ rest) ys (xs ++ rest) size ≡ some (zip_xor xs ys ++ rest)
xor_blocks_lem xs ys rest size h k = rw (sym h) (xor_prefix xs ys rest (h ∙ sym k))

pub xor_in_place :
    (b m : Buffer) (size : ℕ)
    → length b ≡ size
    → length m ≡ size
    → xor_blocks b m b size ≡ some (zip_xor b m)
xor_in_place b m size h k =
    rw (append-nil b, append-nil (zip_xor b m)) at (xor_blocks_lem b m [] size h k)

drop-length : (xs : Buffer) → drop (length xs) xs ≡ []
drop-length [] = refl
drop-length (x ∷ xs) = drop-length xs

pub drop_end : (xs : Buffer) (n : ℕ) → length xs ≡ n → drop n xs ≡ []
drop_end xs n h = rw (sym h) (drop-length xs)

take-all : (xs : Buffer) → take (length xs) xs ≡ xs
take-all [] = refl
take-all (x ∷ xs) = ap (λ t. x ∷ t) (take-all xs)

-- A copy of a whole array to the start of one that has the room.
pub whole_copy :
    (dst src : Buffer) (n : ℕ)
    → length src ≡ n
    → n ≤ length dst
    → memcpy dst 0 src n ≡ some (src ++ drop n dst)
whole_copy dst src n e h =
    memcpy-splice dst 0 src n (omega arith) (omega arith)
    ∙ ap (λ t. some (splice 0 t dst)) (take_eq n (length src) src (sym e) ∙ take-all src)
    ∙ ap (λ t. some (src ++ t)) (drop_eq (0 + length src) n dst (omega arith))
