-- ===== src/EcLayer/Contents.antt =====
-- What `ec_write` of ec_layer encodes: the file with the bytes that are written.
use safefs.Prelude.{
  ℕ, ◌+◌, ◌≤◌, ◌≡◌, ◌⊎◌, inl, inr, refl, ap, ap₂, sym, ◌∙◌, Bool-cases, ◌==◌, ==_iff, some,
  if◌then◌else◌, leb, [], ◌∷◌, ◌++◌, length, take, drop, splice, take_of_le, drop_of_le,
  length-take, length-splice, append-nil, leb→le, length-append, take-append_left, uninit,
  length-uninit, memcpy, memcpy-splice, max, arith,
}
use safefs.Layers.{FilePath, Buffer}
use safefs.Erasure.{Liberasurecode}
use safefs.MultiLoopback.Posix.{Posix}
use safefs.EcLayer.Blocks.{EncodedFile, Stdio}
use safefs.EcLayer.Defs.{new_contents}
use safefs.EcLayer.Kept.{IsKept, load_decode}

nothing : (xs : Buffer) → length xs ≡ 0 → xs ≡ []
nothing [] h = refl
nothing (x ∷ xs) h = absurd (omega arith)

larger : (a b : ℕ) → (if leb a b then b else a) ≡ max b a
larger a b = elim (Bool-cases (leb a b)) [
  | inl e ↦ rw e (omega (arith, leb→le a b e))
  | inr e ↦ rw e (ground (arith, e))
]

-- Room behind a file that a write fills makes no difference.
splice-grow :
    (offset : ℕ) (b c rest : Buffer)
    → offset ≤ length c
    → length (c ++ rest) ≡ max (length c) (offset + length b)
    → splice offset b (c ++ rest) ≡ splice offset b c
splice-grow offset b c rest h len =
    let total = length-append c rest in
    ap₂ (λ x y. x ++ (b ++ y)) (take-append_left offset c rest h)
      (elim (Bool-cases (leb (offset + length b) (length c))) [
        | inl e ↦
            let nil : rest ≡ [] = nothing rest (omega (arith, total, len, leb→le _ _ e)) in
            rw (nil, append-nil c) refl
        | inr e ↦
            drop_of_le (offset + length b) (c ++ rest) (ground (arith, len, e))
            ∙ sym (drop_of_le (offset + length b) c (ground (arith, e)))
      ])

module _ {W : Type 0} (os : Posix W) (io : Stdio W) (lib : Liberasurecode) (k m : ℕ) (junk : ℕ → ℕ)
    (path : FilePath) where
  first_contents :
      (ef : EncodedFile) (w : W) (c buf : Buffer) (n offset : ℕ)
      → ef.size ≡ 0
      → c ≡ []
      → offset ≤ length c
      → n ≤ length buf
      → (bytes : Buffer) × (size : ℕ) × (new_contents os io lib k m junk ef buf n offset w
          ≡ some (bytes, size))
        × (size ≤ length bytes)
        × (take size bytes ≡ splice offset (take n buf) c)
  unfolding new_contents
  first_contents ef w c buf n offset zero_size nil h room =
      let at : offset ≡ 0 = omega (arith, h, ap length nil) in
      (
        buf,
        n,
        rw (new_contents, (==_iff ef.size 0).1 zero_size) refl,
        room,
        rw (nil, at)
            (sym (append-nil (take n buf))
              ∙ ap (λ t. take n buf ++ t)
                  (sym (drop_of_le (0 + length (take n buf)) [] (omega arith)))),
      )

  -- What a write encodes.
  pub new_contents_lem :
      (ef : EncodedFile) (w : W) (c buf : Buffer) (n offset : ℕ)
      → ((ef.size ≡ 0) × (c ≡ [])) ⊎ IsKept io lib k m path w ef c
      → offset ≤ length c
      → n ≤ length buf
      → (bytes : Buffer) × (size : ℕ) × (new_contents os io lib k m junk ef buf n offset w
          ≡ some (bytes, size))
        × (size ≤ length bytes)
        × (take size bytes ≡ splice offset (take n buf) c)
  unfolding new_contents
  new_contents_lem ef w c buf n offset (inl (zero_size, nil)) h room =
      first_contents ef w c buf n offset zero_size nil h room
  new_contents_lem ef w c buf n offset (inr kept) h room = elim (Bool-cases (ef.size == 0)) [
    | inl none_yet ↦
        let zero_size = (==_iff ef.size 0).0 none_yet in
        first_contents ef w c buf n offset zero_size (nothing c (sym kept.whole ∙ zero_size)) h room
    | inr some_yet ↦
        let (loaded, e, d) = load_decode io lib k m junk path w ef c kept in
        let size = max (length c) (offset + n) in
        let same_size : (if leb (offset + n) ef.size then ef.size else offset + n) ≡ size =
          rw kept.whole (larger (offset + n) (length c)) in
        let fresh = uninit junk size in
        let fresh_length = length-uninit junk size in
        let copied = splice 0 (take (length c) c) fresh in
        let copied_length : length copied ≡ size = omega (
          arith,
          length-splice 0 (take (length c) c) fresh (omega arith),
          length-take (length c) c,
          fresh_length,
        ) in
        let first : memcpy fresh 0 c ef.size ≡ some copied =
          ap (memcpy fresh 0 c) kept.whole
          ∙ memcpy-splice fresh 0 c (length c) (omega (arith, fresh_length)) (omega arith) in
        let second = memcpy-splice copied offset buf n (omega (arith, copied_length)) room in
        let block = take n buf in
        let hb : length block ≡ n = omega (arith, length-take n buf) in
        let whole : copied ≡ c ++ drop (0 + length (take (length c) c)) fresh =
          ap (λ t. t ++ drop (0 + length (take (length c) c)) fresh)
            (take_of_le (length c) c (omega arith)) in
        let rest = drop (0 + length (take (length c) c)) fresh in
        let done_length = length-splice offset block copied (omega (arith, copied_length, h)) in
        (
          splice offset block copied,
          size,
          rw (new_contents, some_yet, e, d, same_size, first, second, same_size) refl,
          omega (arith, done_length, copied_length, hb),
          take_of_le size (splice offset block copied)
                (omega (arith, done_length, copied_length, hb))
              ∙ ap (splice offset block) whole
              ∙ splice-grow offset block c rest h (
                  sym (ap length whole)
                  ∙ copied_length
                  ∙ ap (λ j. max (length c) (offset + j)) (sym hb)),
        )
  ]
