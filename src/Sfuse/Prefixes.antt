-- ===== src/Sfuse/Prefixes.antt =====
-- The first blocks of a file and of what stores it, and blocks added behind them.
use safefs.Prelude.{
  ℕ, zero, suc, ◌+◌, ◌*◌, ◌%◌, ◌≤◌, ◌<◌, ◌≡◌, sym, ap, ◌∙◌, arith, [], ◌++◌, length, take, drop,
  splice, length-append, length-drop, take-append_right, take_eq, splice-end,
}
use safefs.Layers.{Buffer}
use safefs.Sfuse.Layout.{
  Layout, nothing, last, block, HasLength, encoded_length, next_block, Layout-eq, full_length,
  Layout-drop, Layout-nothing, Layout-splice,
}

module _ {Encodes : Buffer → Buffer → Type 0} (pad block_size : ℕ) (sized : HasLength Encodes pad)
    (whole : block_size % 16 ≡ 0) (positive : 0 < block_size) where
  pub Layout-prefix :
      (k : ℕ) {c p : Buffer}
      → Layout Encodes block_size c p
      → k * block_size ≤ length c
      → Layout Encodes block_size (take (k * block_size) c) (take (k * (block_size + pad)) p)
  Layout-prefix zero {c} {p} lay h =
      Layout-eq (take_eq 0 (0 * block_size) c (omega arith))
        (take_eq 0 (0 * (block_size + pad)) p (omega arith)) nothing
  Layout-prefix (suc k) nothing h = absurd (omega (arith, next_block k block_size))
  Layout-prefix (suc k) (last d e some_bytes few enc) h =
      absurd (omega (arith, next_block k block_size))
  Layout-prefix (suc k) (block d e {c} {p} l enc rest) h =
      let dist = next_block k block_size in
      let dist' = next_block k (block_size + pad) in
      let l' = full_length pad block_size sized whole positive d e l enc in
      Layout-eq
        (sym (
          take_eq (suc k * block_size) (length d + k * block_size) (d ++ c) (omega (arith, dist))
          ∙ take-append_right (k * block_size) d c))
        (sym (
          take_eq (suc k * (block_size + pad)) (length e + k * (block_size + pad)) (e ++ p)
            (omega (arith, dist'))
          ∙ take-append_right (k * (block_size + pad)) e p))
        (block d e l enc (Layout-prefix k rest (omega (arith, length-append d c, dist))))

  -- Whole blocks are stored in whole blocks.
  pub Layout-whole :
      (k : ℕ) {c p : Buffer}
      → Layout Encodes block_size c p
      → length c ≡ k * block_size
      → length p ≡ k * (block_size + pad)
  Layout-whole k {c} {p} lay e =
      let (inside, rest) =
        Layout-drop pad block_size sized whole positive k lay (omega (arith, e)) in
      let none_left : drop (k * (block_size + pad)) p ≡ [] =
        Layout-nothing pad block_size sized whole positive rest
          (length-drop (k * block_size) c ∙ omega (arith, e)) in
      let gone : length (drop (k * (block_size + pad)) p) ≡ 0 = ap length none_left in
      omega (arith, length-drop (k * (block_size + pad)) p, gone, inside)

  pub Layout-append :
      (k : ℕ) (d e : Buffer) {c p : Buffer}
      → Layout Encodes block_size c p
      → Encodes d e
      → length c ≡ k * block_size
      → 0 < length d
      → length d ≤ block_size
      → Layout Encodes block_size (c ++ d) (p ++ e)
  Layout-append k d e {c} {p} lay enc size some_bytes le =
      Layout-eq (ap (λ at. splice at d c) (sym size) ∙ splice-end d c)
        (ap (λ at. splice at e p) (sym (Layout-whole k lay size)) ∙ splice-end e p)
        (Layout-splice pad block_size sized whole positive k d e lay enc (omega (arith, size))
          some_bytes le (omega (arith, size)))

  -- More bytes than `x` of a block are stored in as many as encode `x`.
  pub Layout-room :
      (x : ℕ) {c p : Buffer}
      → Layout Encodes block_size c p
      → 0 < x
      → x ≤ length c
      → x < block_size
      → encoded_length pad x ≤ length p
  Layout-room x nothing some_bytes inside few = absurd (omega arith)
  Layout-room x (last d e _ _ enc) some_bytes inside few = omega (arith, sized d e enc)
  Layout-room x (block d e {c} {p} l enc rest) some_bytes inside few =
      omega (arith, sized d e enc, length-append e p, l, few)
