-- ===== src/BlockAlign/Edit.antt =====
-- The bytes of a block that is read, changed in part and written back.
use safefs.Prelude.{
  ℕ, ◌+◌, ◌-◌, ◌≤◌, min, ◌≡◌, sym, ap, ◌∙◌, ◌⊎◌, inl, inr, arith, ◌++◌, length, take, drop, splice,
  splice-append, splice_self, drop-splice, length-splice, take-append_left, take-drop, take-take,
  take_eq, drop_eq, take-prefix, take-append_right, take_add, length-take, length-drop,
  length-append, drop-drop,
}
use safefs.Layers.{Buffer}

-- A part of what was read into a buffer is a part of the file.
pub slice_of_read :
    (n e m : ℕ) (xs buf : Buffer)
    → e + m ≤ min n (length xs)
    → take m (drop e (splice 0 (take n xs) buf)) ≡ take m (drop e xs)
slice_of_read n e m xs buf h =
    take-drop m e (take n xs ++ rest)
    ∙ ap (drop e) (take-append_left (e + m) (take n xs) rest (omega (arith, length-take n xs)))
    ∙ ap (drop e) (take-take (e + m) n xs)
    ∙ ap (λ k. drop e (take k xs)) shorter
    ∙ sym (take-drop m e xs)
  where
    rest : Buffer
    rest = drop (0 + length (take n xs)) buf

    shorter : min (e + m) n ≡ e + m
    shorter = omega arith

-- What one round copies, behind what the rounds before it copied.
pub splice_rest :
    (p : ℕ) (bytes buf : Buffer) → take p buf ++ splice 0 bytes (drop p buf) ≡ splice p bytes buf
splice_rest p bytes buf =
    ap (λ t. take p buf ++ (bytes ++ t)) (drop-drop (0 + length bytes) p buf)
    ∙ ap (λ k. take p buf ++ (bytes ++ drop k buf)) shift
  where
    shift : p + (0 + length bytes) ≡ p + length bytes
    shift = omega arith

-- Two neighbouring ranges of the file, copied one behind the other.
pub splice_ranges :
    (p n m at : ℕ) (c buf : Buffer)
    → p ≤ length buf
    → n ≤ length c - at
    → splice (p + n) (take m (drop (at + n) c)) (splice p (take n (drop at c)) buf)
      ≡ splice p (take (n + m) (drop at c)) buf
splice_ranges p n m at c buf h k =
    ap (λ t. splice (p + t) (take m (drop (at + n) c)) (splice p first buf)) (sym first_length)
    ∙ splice-append p first (take m (drop (at + n) c)) buf h
    ∙ ap (λ t. splice p t buf)
        (ap (λ t. first ++ take m t) (sym (drop-drop n at c)) ∙ sym (take_add n m (drop at c)))
  where
    first : Buffer
    first = take n (drop at c)

    first_length : length first ≡ n
    first_length = omega (arith, length-take n (drop at c), length-drop at c)

-- Writing `d` at `e` into a copy of the file's bytes from `offset` on, and writing back a part of
-- the copy that holds all of `d`, writes `d` into the file.
module _ (c d aux : Buffer) (offset e n : ℕ) (start : offset ≤ length c)
    (inside : e ≤ length c - offset) (fits : e + length d ≤ n)
    (covered : (n ≤ length c - offset) ⊎ (n ≡ e + length d)) where
  abbrev bytes : Buffer
  bytes = drop offset c

  abbrev copy : Buffer
  copy = splice 0 (take n bytes) aux

  abbrev left : ℕ
  left = n - (e + length d)

  front : take e copy ≡ take e bytes
  front = slice_of_read n 0 e bytes aux (omega (arith, length-drop offset c))

  tail : take left (drop (e + length d) copy) ≡ take left (drop (e + length d) bytes)
  tail = elim covered [
    | inl some_left ↦
        slice_of_read n (e + length d) left bytes aux (omega (arith, length-drop offset c))
    | inr none_left ↦
        take_eq left 0 (drop (e + length d) copy) (omega arith)
        ∙ sym (take_eq left 0 (drop (e + length d) bytes) (omega arith))
  ]

  edited : take n (splice e d copy) ≡ take e bytes ++ (d ++ take left (drop (e + length d) bytes))
  edited =
      take_eq n (e + (length d + left)) (splice e d copy) (omega arith)
      ∙ take-prefix e (length d + left) copy (d ++ drop (e + length d) copy) (
          omega
            (arith, length-append (take n bytes) rest, length-take n bytes, length-drop offset c))
      ∙ ap (λ t. take e copy ++ t) (take-append_right left d (drop (e + length d) copy))
      ∙ ap (λ t. t ++ (d ++ take left (drop (e + length d) copy))) front
      ∙ ap (λ t. take e bytes ++ (d ++ t)) tail
    where
      rest : Buffer
      rest = drop (0 + length (take n bytes)) aux

  pub splice_edited : splice offset (take n (splice e d copy)) c ≡ splice (offset + e) d c
  splice_edited =
      ap (λ t. splice offset t c) edited
      ∙ sym (splice-append offset (take e bytes) rest c start)
      ∙ ap (λ t. splice (offset + length (take e bytes)) rest t) (splice_self offset e c start)
      ∙ ap (λ k. splice (offset + k) rest c) front_length
      ∙ sym (splice-append (offset + e) d (take left (drop (e + length d) bytes)) c (omega arith))
      ∙ ap (λ t. splice (offset + e + length d) (take left t) written) same
      ∙ splice_self (offset + e + length d) left written
          (omega (arith, length-splice (offset + e) d c))
    where
      rest : Buffer
      rest = d ++ take left (drop (e + length d) bytes)

      written : Buffer
      written = splice (offset + e) d c

      front_length : length (take e bytes) ≡ e
      front_length = omega (arith, length-take e bytes, length-drop offset c)

      same : drop (e + length d) bytes ≡ drop (offset + e + length d) written
      same =
          drop-drop (e + length d) offset c
          ∙ drop_eq (offset + (e + length d)) (offset + e + (length d + 0)) c (omega arith)
          ∙ sym (drop-splice (offset + e) d c 0 (omega arith))
          ∙ drop_eq (offset + e + (length d + 0)) (offset + e + length d) written (omega arith)
