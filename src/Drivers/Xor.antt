-- ===== src/Drivers/Xor.antt =====
-- encode_xor and decode_xor are inverse: the devices together have the block.
use safefs.Prelude.{
  ℕ, zero, suc, ◌-◌, ◌≤◌, ◌≡◌, refl, sym, ap, ◌∙◌, some, List, [], ◌∷◌, ◌++◌, length, drop,
  append-nil, arith, ◌>>=◌,
}
use safefs.Layers.{FilePath, Buffer}
use safefs.Drivers.Defs.{
  decode_rounds, decode_xor, generate_random_block, encode_rounds, encode_xor,
}
use safefs.Drivers.Bytes.{
  zip_xor, length-zip_xor, zip_xor_cancel, zip_xor_undo, xor_blocks_lem, xor_in_place, whole_copy,
  drop_end,
}

-- All arrays have `size` bytes.
abbrev pub HaveSize : ℕ → List Buffer → Type 0
HaveSize size [] = Unit {0}
HaveSize size (m ∷ ms) = (length m ≡ size) × HaveSize size ms

one_less : (n : ℕ) → suc n - 1 ≡ n
one_less n = omega arith

module _ {ℓ} {W : Type ℓ} (rand_pseudo_bytes : Buffer → ℕ → W → Buffer × W)
    (fills : (b : Buffer) (n : ℕ) (w : W)
      → length b ≡ n
      → length (rand_pseudo_bytes b n w).0 ≡ n) where
  rounds_lem :
      (n : ℕ) (w : W) (ms : List Buffer) (d b rest : Buffer) (size : ℕ)
      → length ms ≡ suc n
      → HaveSize size ms
      → length d ≡ size
      → length b ≡ size
      → (ms' : List Buffer) × (w' : W) × (encode_rounds rand_pseudo_bytes ms b size n w
          ≡ some (ms', w'))
        × HaveSize size ms'
        × (length ms' ≡ suc n)
        × (decode_rounds (d ++ rest) ms' size (suc n) ≡ some (zip_xor d b ++ rest))
  unfolding encode_rounds decode_rounds generate_random_block
  rounds_lem n w [] d b rest size h all hd hb = absurd (omega arith)
  rounds_lem zero w (m ∷ m' ∷ ms) d b rest size h all hd hb = absurd (omega arith)
  rounds_lem zero w (m ∷ []) d b rest size h (hm, _) hd hb = (
    b ∷ [],
    w,
    rw (whole_copy m b size hb (omega arith), drop_end m size hm, append-nil b) refl,
    (hb, tt),
    refl,
    rw (decode_rounds, xor_blocks_lem d b rest size hd hb) refl,
  )
  rounds_lem (suc n) w (m ∷ ms) d b rest size h (hm, all) hd hb =
      let (m', w') = rand_pseudo_bytes m size w in
      let hm' = fills m size w hm in
      let (ms', v, e, all', len, back) =
        rounds_lem n w' ms (zip_xor d m') (zip_xor b m') rest size (omega arith) all
          (length-zip_xor d m' (hd ∙ sym hm') ∙ hd) (length-zip_xor b m' (hb ∙ sym hm') ∙ hb) in
      (
        m' ∷ ms',
        v,
        rw (xor_in_place b m' size hb hm', ◌>>=◌, e) refl,
        (hm', all'),
        omega (arith, len),
        rw (decode_rounds, xor_blocks_lem d m' rest size hd hm')
            (back
              ∙ ap (λ t. some (t ++ rest)) (zip_xor_cancel d b m' (hd ∙ sym hm') (hb ∙ sym hm'))),
      )

  -- After `encode_xor` has spread a block over any number of devices, `decode_xor` of what they
  -- hold puts the block at the start of the buffer and keeps the rest of the buffer, whatever the
  -- random bytes were, and every device has as many bytes as the block. There is at least one
  -- device, each array that the devices' bytes go to has the block's size, and the generator fills
  -- the array that it is given.
  pub decode_xor-encode_xor :
      (path : FilePath) (w : W) (magicblocks : List Buffer) (block buf : Buffer)
      (offset size ndevs : ℕ)
      → length magicblocks ≡ ndevs
      → 1 ≤ ndevs
      → HaveSize size magicblocks
      → length block ≡ size
      → size ≤ length buf
      → (ms : List Buffer) × (w' : W) × (encode_xor rand_pseudo_bytes path magicblocks block offset
            size ndevs w
          ≡ some (ms, w'))
        × HaveSize size ms
        × (length ms ≡ ndevs)
        × ((v : W) → decode_xor buf ms size ndevs v ≡ some (block ++ drop size buf, v))
  unfolding encode_xor decode_xor encode_rounds decode_rounds generate_random_block
  decode_xor-encode_xor path w [] block buf offset size ndevs h some_device all hb room =
      absurd (omega arith)
  decode_xor-encode_xor path w (m ∷ ms) block buf offset size zero h some_device all hb room =
      absurd (omega arith)
  decode_xor-encode_xor path w (m ∷ ms) block buf offset size (suc zero) h some_device (hm, all) hb
        room =
      let none_left : 1 - 1 ≡ 0 = omega arith in
      (
        block ∷ ms,
        w,
        rw
            (
              none_left,
              encode_rounds,
              whole_copy m block size hb (omega arith),
              drop_end m size hm,
              append-nil block,
            )
            refl,
        (hb, all),
        h,
        λ v. rw (whole_copy buf block size hb room) refl,
      )
  decode_xor-encode_xor path w (m ∷ ms) block buf offset size (suc (suc n)) h some_device (hm, all)
        hb room =
      let (m', w') = rand_pseudo_bytes m size w in
      let hm' = fills m size w hm in
      let (ms', v, e, all', len, back) =
        rounds_lem n w' ms m' (zip_xor block m') (drop size buf) size (omega arith) all hm'
          (length-zip_xor block m' (hb ∙ sym hm') ∙ hb) in
      (
        m' ∷ ms',
        v,
        rw (one_less (suc n), xor_in_place block m' size hb hm', ◌>>=◌, e) refl,
        (hm', all'),
        omega (arith, len),
        λ u.
            rw
              (
                whole_copy buf m' size hm' room,
                one_less (suc n),
                back,
                zip_xor_undo m' block (hm' ∙ sym hb),
              )
              refl,
      )
