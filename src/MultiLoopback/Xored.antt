-- ===== src/MultiLoopback/Xored.antt =====
-- The driver of multi_loop_drivers/xor.c as one whose shares combine: by exclusive or.
use safefs.Prelude.{
  ℕ, zero, suc, ◌+◌, ◌-◌, ◌≤◌, ◌≡◌, refl, ap, ap₂, sym, ◌∙◌, some, List, [], ◌∷◌, ◌++◌, length, map,
  take, drop, splice, arith, length-take, fault, ◌>>=◌, bit_xor,
}
use safefs.Layers.{Buffer, MultiDriver}
use safefs.Drivers.{encode_xor, decode_xor, decode_rounds}
use safefs.Drivers.Bytes.{zip_xor, length-zip_xor, xor_blocks_lem, whole_copy}
use safefs.Drivers.Xor.{HaveSize}
use safefs.MultiLoopback.Contract.{splices}

-- The callbacks that a driver does not set are null pointers.
unfoldable pub xor_driver : {W : Type 0} → (Buffer → ℕ → W → Buffer × W) → MultiDriver W
unfolding encode_xor decode_xor
xor_driver rand_pseudo_bytes = record {
  encode = encode_xor rand_pseudo_bytes;
  decode = decode_xor;
  get_driver_offset = (λ _ _. fault);
  get_driver_size = (λ _ _. fault);
  get_file_size = (λ _. fault);
  rename_keys = (λ _ _. fault);
  create_keys = (λ _. fault);
}

abbrev pub gather : Buffer → List Buffer → Buffer
gather b [] = b
gather b (m ∷ ms) = gather (zip_xor b m) ms

abbrev pub xored : List Buffer → Buffer
xored [] = []
xored (m ∷ ms) = gather m ms

pub length-gather :
    (size : ℕ) (b : Buffer) (ms : List Buffer)
    → length b ≡ size
    → HaveSize size ms
    → length (gather b ms) ≡ size
length-gather size b [] h all = h
length-gather size b (m ∷ ms) h (hm, all) =
    length-gather size (zip_xor b m) ms (length-zip_xor b m (h ∙ sym hm) ∙ h) all

decode_rounds_lem :
    (size : ℕ) (b rest : Buffer) (ms : List Buffer)
    → length b ≡ size
    → HaveSize size ms
    → decode_rounds (b ++ rest) ms size (length ms) ≡ some (gather b ms ++ rest)
unfolding decode_rounds
decode_rounds_lem size b rest [] h all = refl
decode_rounds_lem size b rest (m ∷ ms) h (hm, all) =
    rw (decode_rounds, xor_blocks_lem b m rest size h hm)
      (decode_rounds_lem size (zip_xor b m) rest ms (length-zip_xor b m (h ∙ sym hm) ∙ h) all)

pub decode_xor_lem :
    {W : Type 0} (w : W) (buf : Buffer) (ms : List Buffer) (size ndevs : ℕ)
    → length ms ≡ ndevs
    → 1 ≤ ndevs
    → HaveSize size ms
    → size ≤ length buf
    → decode_xor buf ms size ndevs w ≡ some (xored ms ++ drop size buf, w)
unfolding decode_xor
decode_xor_lem w buf [] size ndevs len one all room = absurd (omega arith)
decode_xor_lem w buf (m ∷ ms) size ndevs len one (hm, all) room =
    let others : ndevs - 1 ≡ length ms = omega (arith, len) in
    rw
      (
        decode_xor,
        ◌>>=◌,
        whole_copy buf m size hm room,
        others,
        decode_rounds_lem size m (drop size buf) ms hm all,
      )
      refl

take-zip_xor : (n : ℕ) (xs ys : Buffer) → take n (zip_xor xs ys) ≡ zip_xor (take n xs) (take n ys)
take-zip_xor zero xs ys = refl
take-zip_xor (suc n) [] ys = refl
take-zip_xor (suc n) (x ∷ xs) [] = refl
take-zip_xor (suc n) (x ∷ xs) (y ∷ ys) = ap (λ t. bit_xor x y ∷ t) (take-zip_xor n xs ys)

zip_xor-nil : (xs : Buffer) → zip_xor xs [] ≡ []
zip_xor-nil [] = refl
zip_xor-nil (x ∷ xs) = refl

drop-zip_xor : (n : ℕ) (xs ys : Buffer) → drop n (zip_xor xs ys) ≡ zip_xor (drop n xs) (drop n ys)
drop-zip_xor zero xs ys = refl
drop-zip_xor (suc n) [] ys = refl
drop-zip_xor (suc n) (x ∷ xs) [] = sym (zip_xor-nil (drop n xs))
drop-zip_xor (suc n) (x ∷ xs) (y ∷ ys) = drop-zip_xor n xs ys

zip_xor-append :
    (xs xs' ys ys' : Buffer)
    → length xs ≡ length xs'
    → zip_xor (xs ++ ys) (xs' ++ ys') ≡ zip_xor xs xs' ++ zip_xor ys ys'
zip_xor-append [] [] ys ys' e = refl
zip_xor-append [] (x' ∷ xs') ys ys' e = absurd (omega arith)
zip_xor-append (x ∷ xs) [] ys ys' e = absurd (omega arith)
zip_xor-append (x ∷ xs) (x' ∷ xs') ys ys' e =
    ap (λ t. bit_xor x x' ∷ t) (zip_xor-append xs xs' ys ys' (omega arith))

zip_xor-splice :
    (offset : ℕ) (b b' c c' : Buffer)
    → length b ≡ length b'
    → length c ≡ length c'
    → zip_xor (splice offset b c) (splice offset b' c')
      ≡ splice offset (zip_xor b b') (zip_xor c c')
zip_xor-splice offset b b' c c' hb hc =
    let back = offset + length b in
    let shift : back ≡ offset + length b' = ap (λ k. offset + k) hb in
    zip_xor-append (take offset c) (take offset c') (b ++ drop back c)
      (b' ++ drop (offset + length b') c')
      (omega (arith, length-take offset c, length-take offset c', hc))
    ∙ ap₂ ◌++◌ (sym (take-zip_xor offset c c')) (
        zip_xor-append b b' (drop back c) (drop (offset + length b') c') hb
        ∙ ap (λ t. zip_xor b b' ++ t)
            (ap (λ k. zip_xor (drop back c) (drop k c')) (sym shift)
              ∙ sym (drop-zip_xor back c c')
              ∙ ap (λ k. drop (offset + k) (zip_xor c c')) (sym (length-zip_xor b b' hb))))

pub gather-window :
    (n offset : ℕ) (b : Buffer) (ms : List Buffer)
    → gather (take n (drop offset b)) (map (λ c. take n (drop offset c)) ms)
      ≡ take n (drop offset (gather b ms))
gather-window n offset b [] = refl
gather-window n offset b (m ∷ ms) =
    ap (λ t. gather t (map (λ c. take n (drop offset c)) ms))
      (sym (ap (take n) (drop-zip_xor offset b m) ∙ take-zip_xor n (drop offset b) (drop offset m)))
    ∙ gather-window n offset (zip_xor b m) ms

pub gather-splices :
    (size n offset : ℕ) (b c : Buffer) (bs cs : List Buffer)
    → length bs ≡ length cs
    → length b ≡ n
    → HaveSize n bs
    → length c ≡ size
    → HaveSize size cs
    → gather (splice offset b c) (splices offset bs cs) ≡ splice offset (gather b bs) (gather c cs)
gather-splices size n offset b c [] [] e hb all hc all' = refl
gather-splices size n offset b c [] (c' ∷ cs) e hb all hc all' = absurd (omega arith)
gather-splices size n offset b c (b' ∷ bs) [] e hb all hc all' = absurd (omega arith)
gather-splices size n offset b c (b' ∷ bs) (c' ∷ cs) e hb (hb', all) hc (hc', all') =
    ap (λ t. gather t (splices offset bs cs))
      (zip_xor-splice offset b b' c c' (hb ∙ sym hb') (hc ∙ sym hc'))
    ∙ gather-splices size n offset (zip_xor b b') (zip_xor c c') bs cs (omega arith)
        (length-zip_xor b b' (hb ∙ sym hb') ∙ hb) all (length-zip_xor c c' (hc ∙ sym hc') ∙ hc) all'
