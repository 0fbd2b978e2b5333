-- ===== src/Erasure/Code.antt =====
-- The fragments that the erasure driver gives to the devices are decoded to the block.
use safefs.Prelude.{
  ℕ, zero, suc, ◌+◌, ◌≤◌, ◌<◌, ◌^◌, ◌≡◌, refl, sym, ap, ◌∙◌, some, arith, List, [], ◌∷◌, ◌++◌,
  length, take, replicate, splice, uninit, length-uninit, memcpy, memcpy-splice, take-all,
  splice-whole, to_int_small, length-take, length-append, length-replicate, take-take, take_eq, min,
  replicate-add, append-nil,
}
use safefs.Sfuse.Layout.{take_front, drop_front}
use safefs.Layers.{FilePath, Buffer}
use safefs.Erasure.Map.{Table}
use safefs.Erasure.Defs.{
  OffsetKey, Erasure, Liberasurecode, copy_fragments, fragments, erasure_decode,
}

abbrev pub HaveLength : ℕ → List Buffer → Type 0
HaveLength len [] = Unit
HaveLength len (e ∷ es) = (length e ≡ len) × HaveLength len es

-- What liberasurecode documents: `k` data and `m` parity fragments of one length, and the bytes again
-- from all of them.
pub record IsErasureCode (lib : Liberasurecode) (k m : ℕ) : Type 0 where
  pub data_law : (block : Buffer) (n : ℕ) → length (lib.encode block n).0 ≡ k
  pub parity_law : (block : Buffer) (n : ℕ) → length (lib.encode block n).1 ≡ m
  pub data_length_law :
      (block : Buffer) (n : ℕ) → HaveLength (lib.encode block n).2 (lib.encode block n).0
  pub parity_length_law :
      (block : Buffer) (n : ℕ) → HaveLength (lib.encode block n).2 (lib.encode block n).1
  pub decode_law :
      (block : Buffer) (n : ℕ)
      → n ≤ length block
      → lib.decode ((lib.encode block n).0 ++ (lib.encode block n).1) (k + m) (lib.encode block n).2
        ≡ (take n block, n)

copy_whole : (b e : Buffer) (n : ℕ) → length b ≡ n → length e ≡ n → memcpy b 0 e n ≡ some e
copy_whole b e n hb he =
    memcpy-splice b 0 e n (omega (arith, hb)) (omega (arith, he))
    ∙ ap (λ t. some (splice 0 t b)) (take-all n e (omega (arith, he)))
    ∙ ap some (splice-whole e b (he ∙ sym hb))

-- The loop puts its fragments on the first blocks.
copy_fragments_lem :
    (bs es rest : List Buffer) (len n : ℕ)
    → HaveLength len bs
    → HaveLength len es
    → length es ≡ n
    → length bs ≡ n
    → copy_fragments (bs ++ rest) es len n ≡ some (es ++ rest)
unfolding copy_fragments
copy_fragments_lem [] [] rest len zero hb he el bl = refl
copy_fragments_lem (b ∷ bs) (e ∷ es) rest len (suc n) hb he el bl =
    rw
      (
        copy_fragments,
        copy_whole b e len hb.0 he.0,
        copy_fragments_lem bs es rest len n hb.1 he.1 (omega (arith, el)) (omega (arith, bl)),
      )
      refl
copy_fragments_lem [] es rest len (suc n) hb he el bl = absurd (omega (arith, bl))
copy_fragments_lem (b ∷ bs) es rest len zero hb he el bl = absurd (omega (arith, bl))
copy_fragments_lem bs [] rest len (suc n) hb he el bl = absurd (omega (arith, el))
copy_fragments_lem bs (e ∷ es) rest len zero hb he el bl = absurd (omega (arith, el))

HaveLength-replicate : (u : Buffer) (len n : ℕ) → length u ≡ len → HaveLength len (replicate n u)
HaveLength-replicate u len zero h = tt
HaveLength-replicate u len (suc n) h = (h, HaveLength-replicate u len n h)

module _ {P O : Type 0} (paths : Table P FilePath) (offsets : Table O OffsetKey)
    (lib : Liberasurecode) (k m : ℕ) (junk : ℕ → ℕ) (code : IsErasureCode lib k m) where
  pub fragments_lem :
      (block : Buffer) (n : ℕ)
      → fragments paths offsets lib k m junk block n (k + m)
        ≡ some ((lib.encode block n).0 ++ (lib.encode block n).1)
  unfolding fragments
  fragments_lem block n =
      rw
        (
          fragments,
          sym (replicate-add k m u),
          copy_fragments_lem (replicate k u) data_part (replicate m u) len k
              (HaveLength-replicate u len k (length-uninit junk len)) (code.data_length_law block n)
              (code.data_law block n) (length-replicate k u),
          drop_front k data_part (replicate m u) (sym (code.data_law block n)),
          sym (append-nil (replicate m u)),
          copy_fragments_lem (replicate m u) parity_part [] len m
              (HaveLength-replicate u len m (length-uninit junk len))
              (code.parity_length_law block n) (code.parity_law block n) (length-replicate m u),
          take_front k data_part (replicate m u) (sym (code.data_law block n)),
          append-nil parity_part,
        )
        refl
    where
      len : ℕ
      len = (lib.encode block n).2

      u : Buffer
      u = uninit junk len

      data_part : List Buffer
      data_part = (lib.encode block n).0

      parity_part : List Buffer
      parity_part = (lib.encode block n).1

  -- With as many devices as fragments, `erasure_encode` gives each a fragment of the block, and
  -- `erasure_decode` of the fragments puts the bytes of the block where it is told. The erasure code
  -- yields its block again, of less than 2 ^ 31 bytes, for which there is room.
  pub erasure_decode-fragments :
      (s : Erasure P O) (dest block : Buffer) (n : ℕ)
      → n ≤ length block
      → n ≤ length dest
      → n < 2 ^ 31
      → (shares : List Buffer) × (fragments paths offsets lib k m junk block n (k + m)
          ≡ some shares)
        × (length shares ≡ k + m)
        × (erasure_decode paths offsets lib k m junk dest shares (lib.encode block n).2 (k + m) s
            ≡ some (splice 0 (take n block) dest, s))
  unfolding erasure_decode
  erasure_decode-fragments s dest block n inside room small = (
    (lib.encode block n).0 ++ (lib.encode block n).1,
    fragments_lem block n,
    omega (
      arith,
      length-append (lib.encode block n).0 (lib.encode block n).1,
      code.data_law block n,
      code.parity_law block n,
    ),
    rw
        (
          erasure_decode,
          code.decode_law block n inside,
          to_int_small n small,
          code.decode_law block n inside,
          memcpy-splice dest 0 (take n block) n (omega arith) (omega (arith, length-take n block)),
          take-take n n block,
          take_eq (min n n) n block (omega arith),
        )
        refl,
  )
