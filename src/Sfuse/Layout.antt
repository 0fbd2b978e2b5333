-- ===== src/Sfuse/Layout.antt =====
-- How sfuse lays the blocks of a file out in the file below: each is encoded on its own, and the
-- encoded blocks follow each other.
use safefs.Prelude.{
  ℕ, zero, suc, ◌+◌, ◌-◌, ◌*◌, ◌/◌, ◌%◌, ◌≤◌, ◌<◌, min, ◌≡◌, refl, sym, ap, ap₂, subst, ◌∙◌, ◌⊎◌,
  inl, inr, arith, List, [], ◌++◌, length, take, drop, splice, length-append, take-append_left,
  take-append_right, drop-append_right, append_assoc, append-nil, take-all, drop_of_le, take_eq,
  drop_eq,
}
use safefs.Layers.{Buffer}

-- The length of what encodes `n` bytes: whole units of 16 bytes, and `pad` bytes.
abbrev pub encoded_length : ℕ → ℕ → ℕ
encoded_length pad n = n / 16 * 16 + pad

-- `Layout Encodes block_size c p`: the file of the bytes `c` is stored as the bytes `p`. All blocks
-- but the last have `block_size` bytes.
pub data Layout (Encodes : Buffer → Buffer → Type 0) (block_size : ℕ)
    : Buffer → Buffer → Type 0 where
  nothing : Layout Encodes block_size [] []
  last :
      (d e : Buffer)
      → 0 < length d
      → length d < block_size
      → Encodes d e
      → Layout Encodes block_size d e
  block :
      (d e : Buffer) {c p : Buffer}
      → length d ≡ block_size
      → Encodes d e
      → Layout Encodes block_size c p
      → Layout Encodes block_size (d ++ c) (e ++ p)

abbrev pub HasLength : (Buffer → Buffer → Type 0) → ℕ → Type 0
HasLength Encodes pad = (d e : Buffer) → Encodes d e → length e ≡ encoded_length pad (length d)

pub next_block : (k b : ℕ) → suc k * b ≡ b + k * b
next_block k b = grind arith

module _ {A : Type 0} where
  pub drop_behind : (n m : ℕ) (xs ys : List A) → n ≡ length xs + m → drop n (xs ++ ys) ≡ drop m ys
  drop_behind n m xs ys e = drop_eq n (length xs + m) (xs ++ ys) e ∙ drop-append_right m xs ys

  pub take_front : (n : ℕ) (xs ys : List A) → n ≡ length xs → take n (xs ++ ys) ≡ xs
  take_front n xs ys e =
      take-append_left n xs ys (omega (arith, e)) ∙ take-all n xs (omega (arith, e))

  pub drop_front : (n : ℕ) (xs ys : List A) → n ≡ length xs → drop n (xs ++ ys) ≡ ys
  drop_front n xs ys e = drop_behind n 0 xs ys (omega (arith, e))

  pub splice_behind :
      (n m : ℕ) (bytes xs ys : List A)
      → n ≡ length xs + m
      → splice n bytes (xs ++ ys) ≡ xs ++ splice m bytes ys
  splice_behind n m bytes xs ys e =
      ap₂ (λ s t. s ++ (bytes ++ t))
        (take_eq n (length xs + m) (xs ++ ys) e ∙ take-append_right m xs ys)
        (drop_behind (n + length bytes) (m + length bytes) xs ys (omega (arith, e)))
      ∙ append_assoc xs (take m ys) (bytes ++ drop (m + length bytes) ys)

module _ {Encodes : Buffer → Buffer → Type 0} {block_size : ℕ} where
  pub Layout-eq :
      {c c' p p' : Buffer}
      → c ≡ c'
      → p ≡ p'
      → Layout Encodes block_size c p
      → Layout Encodes block_size c' p'
  Layout-eq {c} {c'} {p} {p'} e f lay =
      subst (λ x. Layout Encodes block_size x p') e
        (subst (λ x. Layout Encodes block_size c x) f lay)

  -- A block in front of a file with whole blocks, or alone.
  Layout-front :
      (d e : Buffer) {c p : Buffer}
      → 0 < length d
      → length d ≤ block_size
      → Encodes d e
      → ((length d ≡ block_size) × Layout Encodes block_size c p) ⊎ ((c ≡ []) × (p ≡ []))
      → Layout Encodes block_size (d ++ c) (e ++ p)
  Layout-front d e some_bytes le enc (inl (l, rest)) = block d e l enc rest
  Layout-front d e {c} {p} some_bytes le enc (inr (no_c, no_p)) =
      elim (cmp (length d) block_size le) [
        | inl l ↦ block d e l enc (Layout-eq (sym no_c) (sym no_p) nothing)
        | inr few ↦
            Layout-eq (sym (append-nil d) ∙ ap (λ t. d ++ t) (sym no_c))
              (sym (append-nil e) ∙ ap (λ t. e ++ t) (sym no_p)) (last d e some_bytes few enc)
      ]
    where
      cmp : (m n : ℕ) → m ≤ n → (m ≡ n) ⊎ (m < n)
      cmp m n h = omega arith

module _ {Encodes : Buffer → Buffer → Type 0} (pad block_size : ℕ) (sized : HasLength Encodes pad)
    (whole : block_size % 16 ≡ 0) (positive : 0 < block_size) where
  pub full_length :
      (d e : Buffer) → length d ≡ block_size → Encodes d e → length e ≡ block_size + pad
  full_length d e l enc = omega (arith, sized d e enc, l, whole)

  -- From a block on, the file is stored in what follows the blocks before.
  pub Layout-drop :
      (k : ℕ) {c p : Buffer}
      → Layout Encodes block_size c p
      → k * block_size ≤ length c
      → (k * (block_size + pad) ≤ length p)
        × Layout Encodes block_size (drop (k * block_size) c) (drop (k * (block_size + pad)) p)
  Layout-drop zero {c} {p} lay h = (
    omega arith,
    Layout-eq (drop_eq 0 (0 * block_size) c (omega arith))
        (drop_eq 0 (0 * (block_size + pad)) p (omega arith)) lay,
  )
  Layout-drop (suc k) nothing h = absurd (omega (arith, next_block k block_size))
  Layout-drop (suc k) (last d e some_bytes few enc) h =
      absurd (omega (arith, next_block k block_size))
  Layout-drop (suc k) (block d e {c} {p} l enc rest) h =
      let dist = next_block k block_size in
      let dist' = next_block k (block_size + pad) in
      let l' = full_length d e l enc in
      let (le, lay) = Layout-drop k rest (omega (arith, length-append d c, dist)) in
      (
        omega (arith, length-append e p, dist'),
        Layout-eq
            (sym (drop_behind (suc k * block_size) (k * block_size) d c (omega (arith, dist))))
            (sym (
              drop_behind (suc k * (block_size + pad)) (k * (block_size + pad)) e p
                (omega (arith, dist'))))
            lay,
      )

  pub Layout-nothing : {c p : Buffer} → Layout Encodes block_size c p → length c ≡ 0 → p ≡ []
  Layout-nothing nothing h = refl
  Layout-nothing (last d e some_bytes few enc) h = absurd (omega arith)
  Layout-nothing (block d e {c} {p} l enc rest) h = absurd (omega (arith, length-append d c))

  -- What encodes the first block.
  pub Layout-take :
      (n : ℕ) {c p : Buffer}
      → Layout Encodes block_size c p
      → 0 < length c
      → n ≤ block_size
      → min block_size (length c) ≤ n
      → Encodes (take n c) (take (encoded_length pad n) p)
  Layout-take n nothing some_bytes le covers = absurd (omega arith)
  Layout-take n (last d e some_bytes few enc) _ le covers =
      subst (λ x. Encodes x (take (encoded_length pad n) e)) (sym (take-all n d (omega arith)))
        (subst (Encodes d) (sym (take-all (encoded_length pad n) e (omega (arith, sized d e enc))))
          enc)
  Layout-take n (block d e {c} {p} l enc rest) _ le covers =
      let same : n ≡ length d = omega (arith, length-append d c) in
      subst (λ x. Encodes x (take (encoded_length pad n) (e ++ p))) (sym (take_front n d c same))
        (subst (Encodes d)
          (sym (take_front (encoded_length pad n) e p (omega (arith, sized d e enc, same)))) enc)

  -- What is left behind the first block.
  Layout-rest :
      (n : ℕ) {c p : Buffer}
      → Layout Encodes block_size c p
      → n ≤ block_size
      → min block_size (length c) ≤ n
      → ((n ≡ block_size) × Layout Encodes block_size (drop n c) (drop (encoded_length pad n) p))
        ⊎ ((drop n c ≡ []) × (drop (encoded_length pad n) p ≡ []))
  Layout-rest n nothing le covers = inr (
    drop_of_le {A = ℕ} n [] (omega arith),
    drop_of_le {A = ℕ} (encoded_length pad n) [] (omega arith),
  )
  Layout-rest n (last d e some_bytes few enc) le covers = inr (
    drop_of_le n d (omega arith),
    drop_of_le (encoded_length pad n) e (omega (arith, sized d e enc)),
  )
  Layout-rest n (block d e {c} {p} l enc rest) le covers =
      let same : n ≡ length d = omega (arith, length-append d c) in
      inl (
        omega arith,
        Layout-eq (sym (drop_front n d c same))
            (sym (drop_front (encoded_length pad n) e p (omega (arith, sized d e enc, same)))) rest,
      )

  Layout-rewrite :
      (d e : Buffer) {c p : Buffer}
      → Layout Encodes block_size c p
      → Encodes d e
      → 0 < length d
      → length d ≤ block_size
      → min block_size (length c) ≤ length d
      → Layout Encodes block_size (splice 0 d c) (splice 0 e p)
  Layout-rewrite d e {c} {p} lay enc some_bytes le covers =
      Layout-front d e some_bytes le enc (elim (Layout-rest (length d) lay le covers) [
        | inl (l, rest) ↦
            inl (l, Layout-eq (drop_eq (length d) (0 + length d) c (omega arith)) behind rest)
        | inr (no_c, no_p) ↦
            inr (drop_eq (0 + length d) (length d) c (omega arith) ∙ no_c, sym behind ∙ no_p)
      ])
    where
      behind : drop (encoded_length pad (length d)) p ≡ drop (0 + length e) p
      behind =
          drop_eq (encoded_length pad (length d)) (0 + length e) p (omega (arith, sized d e enc))

  -- A block that is encoded and written in its place, and covers what stood there, is stored.
  pub Layout-splice :
      (k : ℕ) (d e : Buffer) {c p : Buffer}
      → Layout Encodes block_size c p
      → Encodes d e
      → k * block_size ≤ length c
      → 0 < length d
      → length d ≤ block_size
      → min block_size (length c - k * block_size) ≤ length d
      → Layout Encodes block_size
          (splice (k * block_size) d c)
          (splice (k * (block_size + pad)) e p)
  Layout-splice zero d e {c} {p} lay enc h some_bytes le covers =
      Layout-eq (ap (λ at. splice at d c) {x = 0} (omega arith))
        (ap (λ at. splice at e p) {x = 0} (omega arith))
        (Layout-rewrite d e lay enc some_bytes le (omega arith))
  Layout-splice (suc k) d e nothing enc h some_bytes le covers =
      absurd (omega (arith, next_block k block_size))
  Layout-splice (suc k) d e (last d0 e0 _ few enc0) enc h some_bytes le covers =
      absurd (omega (arith, next_block k block_size))
  Layout-splice (suc k) d e (block d0 e0 {c} {p} l enc0 rest) enc h some_bytes le covers =
      let dist = next_block k block_size in
      let dist' = next_block k (block_size + pad) in
      let l' = full_length d0 e0 l enc0 in
      let size = length-append d0 c in
      Layout-eq
        (sym (splice_behind (suc k * block_size) (k * block_size) d d0 c (omega (arith, dist))))
        (sym (
          splice_behind (suc k * (block_size + pad)) (k * (block_size + pad)) e e0 p
            (omega (arith, dist'))))
        (block d0 e0 l enc0 (
          Layout-splice k d e rest enc (omega (arith, dist, size)) some_bytes le
            (omega (arith, dist, size))))

  -- The sizes of the file and of the file that stores it.
  pub Layout-length :
      {c p : Buffer}
      → Layout Encodes block_size c p
      → (q : ℕ) × (m : ℕ) × (length c ≡ q * block_size + m)
        × (m < block_size)
        × (((m ≡ 0) × (length p ≡ q * (block_size + pad)))
            ⊎ ((0 < m) × (length p ≡ q * (block_size + pad) + encoded_length pad m)))
  Layout-length nothing = (0, 0, omega arith, positive, inl (refl, omega arith))
  Layout-length (last d e some_bytes few enc) =
      (0, length d, omega arith, few, inr (some_bytes, omega (arith, sized d e enc)))
  Layout-length (block d e {c} {p} l enc rest) =
      let (q, m, size, few, stored) = Layout-length rest in
      let dist = next_block q block_size in
      let dist' = next_block q (block_size + pad) in
      let l' = full_length d e l enc in
      (
        suc q,
        m,
        omega (arith, length-append d c, dist),
        few,
        elim stored [
          | inl (none_left, size') ↦ inl (none_left, omega (arith, length-append e p, dist'))
          | inr (some_left, size') ↦ inr (some_left, omega (arith, length-append e p, dist'))
        ],
      )
