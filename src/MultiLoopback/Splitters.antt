-- ===== src/MultiLoopback/Splitters.antt =====
-- The drivers of multi_loop_drivers/xor.c and multi_loop_drivers/rep.c under multi_loopback.
use safefs.Prelude.{
  ℕ, zero, suc, ◌-◌, ◌≤◌, ◌≡◌, refl, ap, sym, ◌∙◌, Option, some, List, [], ◌∷◌, ◌++◌, length, map,
  take, drop, splice, replicate, length-replicate, arith, append-nil, drop_of_le, bind_inv,
  pure_inv, lift_inv, Action, pure, lift, fault, ◌>>=◌, memcpy,
}
use safefs.Layers.{FilePath, Buffer, MultiDriver}
use safefs.Drivers.{
  encode_xor, encode_rounds, generate_random_block, xor_blocks, rep_encode, rep_decode,
}
use safefs.Drivers.Bytes.{whole_copy}
use safefs.Drivers.Xor.{HaveSize, decode_xor-encode_xor}
use safefs.Drivers.Rep.{rep_decode-rep_encode}
use safefs.MultiLoopback.Contract.{IsSplitter, splices}
use safefs.MultiLoopback.Xored.{
  xor_driver, xored, length-gather, decode_xor_lem, gather-window, gather-splices,
}

module _ {W : Type 0} (rand_pseudo_bytes : Buffer → ℕ → W → Buffer × W)
    (file : W → ℕ → Option Buffer)
    (fills : (b : Buffer) (n : ℕ) (w : W) → length b ≡ n → length (rand_pseudo_bytes b n w).0 ≡ n)
    (quiet : (b : Buffer) (n : ℕ) (w : W) (h : ℕ)
      → file (rand_pseudo_bytes b n w).1 h ≡ file w h) where
  -- The random bytes are all that `encode_xor` takes of the world.
  encode_rounds-file :
      (ms : List Buffer) (block : Buffer) (size n : ℕ) (w w' : W) (ms' : List Buffer)
      → encode_rounds rand_pseudo_bytes ms block size n w ≡ some (ms', w')
      → (h : ℕ) → file w' h ≡ file w h
  unfolding encode_rounds generate_random_block
  encode_rounds-file [] block size n w w' ms' e h = absurd (cc)
  encode_rounds-file (m ∷ ms) block size zero w w' ms' e h =
      let (m', u, first, second) =
        bind_inv (lift (memcpy m 0 block size)) (λ m'. pure (m' ∷ ms)) w e in
      ap (λ t. file t h) (sym (pure_inv second).1 ∙ sym (lift_inv (memcpy m 0 block size) first).1)
  encode_rounds-file (m ∷ ms) block size (suc n) w w' ms' e h =
      let w1 = (rand_pseudo_bytes m size w).1 in
      let m1 = (rand_pseudo_bytes m size w).0 in
      let rest : Buffer → Action W (List Buffer) =
        λ b. encode_rounds rand_pseudo_bytes ms b size n in
      let keep : List Buffer → Action W (List Buffer) = λ ms'. pure (m1 ∷ ms') in
      let (block', u, first, second) =
        bind_inv (lift (xor_blocks block m1 block size)) (λ b. rest b >>= keep) w1 e in
      let (ms1, v, third, fourth) = bind_inv (rest block') keep u second in
      ap (λ t. file t h) (sym (pure_inv fourth).1)
      ∙ encode_rounds-file ms block' size n u v ms1 third h
      ∙ ap (λ t. file t h) (sym (lift_inv (xor_blocks block m1 block size) first).1)
      ∙ quiet m size w h

  encode_xor_lem :
      (path : FilePath) (w : W) (magicblocks : List Buffer) (block : Buffer) (offset size ndevs : ℕ)
      → length magicblocks ≡ ndevs
      → 1 ≤ ndevs
      → HaveSize size magicblocks
      → length block ≡ size
      → (ms : List Buffer) × (w' : W) × (encode_xor rand_pseudo_bytes path magicblocks block offset
            size ndevs w
          ≡ some (ms, w'))
        × HaveSize size ms
        × (length ms ≡ ndevs)
        × (xored ms ≡ block)
        × ((h : ℕ) → file w' h ≡ file w h)
  unfolding encode_xor
  encode_xor_lem path w magicblocks block offset size ndevs len one all hb =
      let (ms, w', e, all', len', back) =
        decode_xor-encode_xor rand_pseudo_bytes fills path w magicblocks block block offset size
          ndevs len one all hb (omega (arith, hb)) in
      let there = decode_xor_lem w block ms size ndevs len' one all' (omega (arith, hb)) in
      let joined = (pure_inv (sym there ∙ back w)).0 in
      let rest : drop size block ≡ [] = drop_of_le size block (omega (arith, hb)) in
      (
        ms,
        w',
        e,
        all',
        len',
        sym (append-nil (xored ms))
            ∙ ap (λ t. xored ms ++ t) (sym rest)
            ∙ joined
            ∙ ap (λ t. block ++ t) rest
            ∙ append-nil block,
        encode_rounds-file magicblocks block size (ndevs - 1) w w' ms e,
      )

  pub xor_driver-IsSplitter : IsSplitter (xor_driver rand_pseudo_bytes) file xored
  unfolding xor_driver
  xor_driver-IsSplitter = record {
    encode_law = encode_xor_lem;
    decode_law = (λ w buf ms size ndevs len one all room.
        decode_xor_lem w buf ms size ndevs len one all room);
    length_law = length_lem;
    window_law = window_lem;
    splice_law = splice_lem;
  }
    where
      length_lem :
          (cs : List Buffer) (size : ℕ)
          → 1 ≤ length cs
          → HaveSize size cs
          → length (xored cs) ≡ size
      length_lem [] size one all = absurd (omega arith)
      length_lem (c ∷ cs) size one (h, all) = length-gather size c cs h all

      window_lem :
          (cs : List Buffer) (size n offset : ℕ)
          → 1 ≤ length cs
          → HaveSize size cs
          → xored (map (λ c. take n (drop offset c)) cs) ≡ take n (drop offset (xored cs))
      window_lem [] size n offset one all = absurd (omega arith)
      window_lem (c ∷ cs) size n offset one all = gather-window n offset c cs

      splice_lem :
          (bs cs : List Buffer) (size n offset : ℕ)
          → 1 ≤ length cs
          → length bs ≡ length cs
          → HaveSize size cs
          → HaveSize n bs
          → offset ≤ size
          → xored (splices offset bs cs) ≡ splice offset (xored bs) (xored cs)
      splice_lem [] cs size n offset one len all all' h = absurd (omega arith)
      splice_lem (b ∷ bs) [] size n offset one len all all' h = absurd (omega arith)
      splice_lem (b ∷ bs) (c ∷ cs) size n offset one len (hc, all) (hb, all') h =
          gather-splices size n offset b c bs cs (omega arith) hb all' hc all

unfoldable pub rep_driver : {W : Type 0} → MultiDriver W
unfolding rep_encode rep_decode
rep_driver = record {
  encode = rep_encode;
  decode = rep_decode;
  get_driver_offset = (λ _ _. fault);
  get_driver_size = (λ _ _. fault);
  get_file_size = (λ _. fault);
  rename_keys = (λ _ _. fault);
  create_keys = (λ _. fault);
}

-- The contents of the first device.
abbrev pub first_of : List Buffer → Buffer
first_of [] = []
first_of (c ∷ cs) = c

module _ {W : Type 0} (file : W → ℕ → Option Buffer) where
  HaveSize-replicate : (n size : ℕ) (b : Buffer) → length b ≡ size → HaveSize size (replicate n b)
  HaveSize-replicate zero size b h = tt
  HaveSize-replicate (suc n) size b h = (h, HaveSize-replicate n size b h)

  first_of-replicate : (n : ℕ) (b : Buffer) → 1 ≤ n → first_of (replicate n b) ≡ b
  first_of-replicate zero b one = absurd (omega arith)
  first_of-replicate (suc n) b one = refl

  rep_decode_lem :
      (w : W) (buf : Buffer) (ms : List Buffer) (size ndevs : ℕ)
      → length ms ≡ ndevs
      → 1 ≤ ndevs
      → HaveSize size ms
      → size ≤ length buf
      → rep_decode buf ms size ndevs w ≡ some (first_of ms ++ drop size buf, w)
  unfolding rep_decode
  rep_decode_lem w buf [] size ndevs len one all room = absurd (omega arith)
  rep_decode_lem w buf (m ∷ ms) size ndevs len one (hm, all) room =
      rw (rep_decode, whole_copy buf m size hm room) refl

  pub rep_driver-IsSplitter : IsSplitter (rep_driver {W = W}) file first_of
  unfolding rep_driver
  rep_driver-IsSplitter = record {
    encode_law = (λ path w magicblocks block offset size ndevs len one all hb. (
      replicate ndevs block,
      w,
      (rep_decode-rep_encode path w magicblocks block block offset size ndevs len one all hb
          (omega (arith, hb))).0,
      HaveSize-replicate ndevs size block hb,
      length-replicate ndevs block,
      first_of-replicate ndevs block one,
      λ h. refl,
    ));
    decode_law = rep_decode_lem;
    length_law = length_lem;
    window_law = window_lem;
    splice_law = splice_lem;
  }
    where
      length_lem :
          (cs : List Buffer) (size : ℕ)
          → 1 ≤ length cs
          → HaveSize size cs
          → length (first_of cs) ≡ size
      length_lem [] size one all = absurd (omega arith)
      length_lem (c ∷ cs) size one (h, all) = h

      window_lem :
          (cs : List Buffer) (size n offset : ℕ)
          → 1 ≤ length cs
          → HaveSize size cs
          → first_of (map (λ c. take n (drop offset c)) cs) ≡ take n (drop offset (first_of cs))
      window_lem [] size n offset one all = absurd (omega arith)
      window_lem (c ∷ cs) size n offset one all = refl

      splice_lem :
          (bs cs : List Buffer) (size n offset : ℕ)
          → 1 ≤ length cs
          → length bs ≡ length cs
          → HaveSize size cs
          → HaveSize n bs
          → offset ≤ size
          → first_of (splices offset bs cs) ≡ splice offset (first_of bs) (first_of cs)
      splice_lem [] cs size n offset one len all all' h = absurd (omega arith)
      splice_lem (b ∷ bs) [] size n offset one len all all' h = absurd (omega arith)
      splice_lem (b ∷ bs) (c ∷ cs) size n offset one len all all' h = refl
