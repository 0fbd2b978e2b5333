-- ===== src/Drivers/Defs.antt =====
-- The functions of multi_loop_drivers/xor.c and multi_loop_drivers/rep.c, and
-- `generate_random_block` of utils.c. An array that a loop walks is a list of which each round sees
-- the rest.
use safefs.Prelude.{
  ℕ, zero, suc, ◌-◌, bit_xor, Option, none, some, List, [], ◌∷◌, Action, pure, fault, lift, ◌>>=◌,
  memcpy,
}
use safefs.Layers.{FilePath, Buffer}

-- `xor_blocks(b1, b2, r, len)` yields `r`; `none` when it leaves an array. Where `r` is `b1` itself,
-- each of its bytes is read before it is written.
unfoldable pub xor_blocks : Buffer → Buffer → Buffer → ℕ → Option Buffer
xor_blocks b1 b2 r zero = some r
xor_blocks (x ∷ b1) (y ∷ b2) (_ ∷ r) (suc len) = elim (xor_blocks b1 b2 r len) [
  | none ↦ none
  | some r' ↦ some (bit_xor x y ∷ r')
]
xor_blocks b1 b2 r (suc len) = none

-- The loop of `decode_xor` behind device 0.
unfoldable pub decode_rounds : Buffer → List Buffer → ℕ → ℕ → Option Buffer
decode_rounds block magicblocks size zero = some block
decode_rounds block [] size (suc n) = none
decode_rounds block (m ∷ magicblocks) size (suc n) = elim (xor_blocks block m block size) [
  | none ↦ none
  | some block' ↦ decode_rounds block' magicblocks size n
]

unfoldable pub decode_xor {ℓ} : {W : Type ℓ} → Buffer → List Buffer → ℕ → ℕ → Action W Buffer
unfolding decode_rounds xor_blocks
decode_xor block [] size ndevs = fault
decode_xor block (m ∷ magicblocks) size ndevs = do
  block' ← lift (memcpy block 0 m size)
  lift (decode_rounds block' magicblocks size (ndevs - 1))

unfoldable pub rep_decode {ℓ} : {W : Type ℓ} → Buffer → List Buffer → ℕ → ℕ → Action W Buffer
rep_decode block [] size ndevs = fault
rep_decode block (m ∷ magicblocks) size ndevs = lift (memcpy block 0 m size)

-- The loop of `rep_encode`.
unfoldable pub rep_rounds : List Buffer → Buffer → ℕ → ℕ → Option (List Buffer)
rep_rounds magicblocks block size zero = some magicblocks
rep_rounds [] block size (suc n) = none
rep_rounds (m ∷ magicblocks) block size (suc n) = elim (memcpy m 0 block size) [
  | none ↦ none
  | some m' ↦ elim (rep_rounds magicblocks block size n) [ none ↦ none | some ms ↦ some (m' ∷ ms) ]
]

unfoldable pub rep_encode {ℓ} :
    {W : Type ℓ} → FilePath → List Buffer → Buffer → ℕ → ℕ → ℕ → Action W (List Buffer)
unfolding rep_rounds
rep_encode path magicblocks block offset size ndevs = lift (rep_rounds magicblocks block size ndevs)

-- `rand_pseudo_bytes` is the function of OpenSSL that fills an array with random bytes.
module _ {ℓ} {W : Type ℓ} (rand_pseudo_bytes : Buffer → ℕ → W → Buffer × W) where
  unfoldable pub generate_random_block : Buffer → ℕ → Action W Buffer
  generate_random_block str size w = some (rand_pseudo_bytes str size w)

  -- The loop of `encode_xor` for `n` devices and the copy to the device behind them. The block,
  -- which the loop overwrites, is a copy that the caller drops.
  unfoldable pub encode_rounds : List Buffer → Buffer → ℕ → ℕ → Action W (List Buffer)
  unfolding generate_random_block xor_blocks
  encode_rounds [] block size n = fault
  encode_rounds (m ∷ magicblocks) block size zero = do
    m' ← lift (memcpy m 0 block size)
    pure (m' ∷ magicblocks)
  encode_rounds (m ∷ magicblocks) block size (suc n) = do
    m' ← generate_random_block m size
    block' ← lift (xor_blocks block m' block size)
    ms ← encode_rounds magicblocks block' size n
    pure (m' ∷ ms)

  unfoldable pub encode_xor : FilePath → List Buffer → Buffer → ℕ → ℕ → ℕ → Action W (List Buffer)
  unfolding encode_rounds
  encode_xor path magicblocks block offset size ndevs =
      encode_rounds magicblocks block size (ndevs - 1)
