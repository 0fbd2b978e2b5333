-- ===== src/Sfuse/Encrypted.antt =====
-- sfuse with a codec of det_symmetric.c or rand_symmetric.c is a layer of blocks over a file.

use safefs.Prelude.{
  ℕ, ◌+◌, ◌-◌, ◌*◌, ◌/◌, ◌%◌, ◌^◌, ◌≤◌, ◌<◌, min, ◌≡◌, refl, sym, ap, take-nil, subst, ◌∙◌, ◌⊎◌,
  inl, inr, Bool, some, pos, arith, to_int_small, le→ltb, lt→ltb, length, take, drop, splice, [],
  uninit, length-uninit, length-take, length-drop, take_eq, take-all, ◌>>=◌, ℤ, Action,
}
use safefs.Layers.{FilePath, Buffer, FileInfo, FuseOperations}
use safefs.BlockAlign.Contract.{IsBlockFile, nonzero}
use safefs.Sfuse.Codec.{sfuse_read, sfuse_write, decoded_size, sfuse_fgetattr, sfuse_oper}
use safefs.Sfuse.Symmetric.{cyphered_block_offset, symmetric_driver}
use safefs.Sfuse.Sizes.{quotient}
use safefs.Sfuse.Layout.{
  Layout, encoded_length, Layout-drop, Layout-take, Layout-splice, Layout-nothing,
}
use safefs.Sfuse.Refine.{no_bytes}
use safefs.Sfuse.Contract.{IsRawFile, IsCodec, Stored}
use safefs.Sfuse.DecodedSize.{decoded_file_size_lem}

some_or_none : (n : ℕ) → (n ≡ 0) ⊎ (0 < n)
some_or_none n = omega arith

module _ {S : Type 0} (errno : S → ℕ) (is_reg : ℕ → Bool) (junk : ℕ → ℕ) (junk_fh : ℕ)
    {block_size pad : ℕ} {path : FilePath} {fi : FileInfo} {next : FuseOperations S}
    {Holds : S → Buffer → Type 0} {Encodes : Buffer → Buffer → Type 0}
    {enc dec : Buffer → Buffer → ℤ → Action S (ℤ × Buffer)}
    (lower : IsRawFile is_reg path fi next Holds) (codec : IsCodec pad Holds Encodes enc dec)
    (whole : block_size % 16 ≡ 0) (positive : 0 < block_size) (some_pad : 16 ≤ pad)
    (small : block_size + pad < 2 ^ 31) where
  abbrev layer : FuseOperations S
  layer = sfuse_oper errno is_reg junk (symmetric_driver block_size pad junk junk_fh enc dec) next

  pub block_index : (k : ℕ) → k * block_size / block_size ≡ k
  block_index k = quotient block_size k 0 (k * block_size) positive (omega arith)

  read_encoded :
      (s t : S) (d e aux buf : Buffer) (n k : ℕ)
      → n ≤ block_size
      → Encodes d e
      → take (length e) aux ≡ e
      → length d ≤ length buf
      → next.read path
          (uninit junk (encoded_length pad n))
          (encoded_length pad n)
          (k * (block_size + pad))
          fi
          s
        ≡ some ((pos (length e), aux), t)
      → layer.read path buf n (k * block_size) fi s ≡ some ((pos (length d), splice 0 d buf), t)
  unfolding sfuse_oper sfuse_read symmetric_driver cyphered_block_offset
  read_encoded s t d e aux buf n k le enc_d front room got =
      let some_bytes : 0 < length e = omega (arith, codec.length_law d e enc_d) in
      rw
        (
          nonzero block_size positive,
          to_int_small n (omega arith),
          ◌>>=◌,
          block_index k,
          got,
          lt→ltb 0 (length e) some_bytes,
          codec.decode_law t d e buf aux enc_d front room,
        )
        refl

  read_nothing :
      (s t : S) (aux buf : Buffer) (n k : ℕ)
      → n ≤ block_size
      → next.read path
          (uninit junk (encoded_length pad n))
          (encoded_length pad n)
          (k * (block_size + pad))
          fi
          s
        ≡ some ((pos 0, aux), t)
      → layer.read path buf n (k * block_size) fi s ≡ some ((pos 0, buf), t)
  unfolding sfuse_oper sfuse_read symmetric_driver cyphered_block_offset
  read_nothing s t aux buf n k le got =
      rw (nonzero block_size positive, to_int_small n (omega arith), ◌>>=◌, block_index k, got) refl

  pub write_encoded :
      (s t u : S) (e buf : Buffer) (n k : ℕ)
      → n ≤ block_size
      → enc (uninit junk (encoded_length pad n)) buf (pos n) s
        ≡ some ((pos (encoded_length pad n), e), t)
      → next.write path e (encoded_length pad n) (k * (block_size + pad)) fi t
        ≡ some (pos (encoded_length pad n), u)
      → layer.write path buf n (k * block_size) fi s ≡ some (pos n, u)
  unfolding sfuse_oper sfuse_write symmetric_driver cyphered_block_offset
  write_encoded s t u e buf n k le encoded wrote =
      let same = le→ltb (encoded_length pad n) (encoded_length pad n) (omega arith) in
      rw
        (
          nonzero block_size positive,
          to_int_small n (omega arith),
          to_int_small n (omega arith),
          ◌>>=◌,
          encoded,
          to_int_small n (omega arith),
          same,
          block_index k,
          wrote,
          to_int_small n (omega arith),
          le→ltb (encoded_length pad n) 0 (omega arith),
          same,
        )
        refl

  read_block_lem :
      (s : S) (c p buf : Buffer) (n k : ℕ)
      → Holds s p
      → Layout Encodes block_size c p
      → k * block_size ≤ length c
      → n ≤ block_size
      → min block_size (length c - k * block_size) ≤ n
      → n ≤ length buf
      → (t : S) × (layer.read path buf n (k * block_size) fi s
          ≡ some (
            (
              pos (min n (length c - k * block_size)),
              splice 0 (take n (drop (k * block_size) c)) buf,
            ),
            t,
          ))
        × Holds t p
  read_block_lem s c p buf n k h lay inside le covers room =
      let c' = drop (k * block_size) c in
      let p' = drop (k * (block_size + pad)) p in
      let count = length-drop (k * block_size) c in
      let count' = length-drop (k * (block_size + pad)) p in
      let size = encoded_length pad n in
      let (inside', lay') =
        Layout-drop pad block_size codec.length_law whole positive k lay inside in
      let (aux, t, got, front, h') =
        lower.read_law s p (uninit junk size) size (k * (block_size + pad)) h inside' (omega arith)
          (omega (arith, length-uninit junk size)) in
      let read = min size (length p - k * (block_size + pad)) in
      elim (some_or_none (length c')) [
        | inl none_left ↦
            (let no_c : c' ≡ [] = no_bytes c' none_left in
              let no_p : p' ≡ [] =
                Layout-nothing pad block_size codec.length_law whole positive lay' none_left in
              let no_length : length p' ≡ 0 = ap length no_p in
              let zero_count : 0 ≡ min n (length c - k * block_size) =
                omega (arith, count, none_left) in
              let nothing_read : read ≡ 0 = omega (arith, count', no_length) in
              (
                t,
                read_nothing s t aux buf n k le
                      (got ∙ ap (λ m. some ((pos m, aux), t)) nothing_read)
                    ∙ ap (λ m. some ((pos m, buf), t)) zero_count
                    ∙ ap (λ x. some ((pos (min n (length c - k * block_size)), splice 0 x buf), t))
                        (sym (ap (take n) no_c ∙ take-nil n)),
                h',
              ))
        | inr some_left ↦
            (let enc_d : Encodes (take n c') (take size p') =
                Layout-take pad block_size codec.length_law whole positive n lay' some_left le
                  (omega (arith, count)) in
              let all_read : read ≡ length (take size p') =
                omega (arith, count', length-take size p') in
              let d_size : length (take n c') ≡ min n (length c - k * block_size) =
                omega (arith, count, length-take n c') in
              (
                t,
                read_encoded s t (take n c') (take size p') aux buf n k le enc_d
                      (take_eq (length (take size p')) read aux (sym all_read) ∙ front)
                      (omega (arith, d_size)) (got ∙ ap (λ m. some ((pos m, aux), t)) all_read)
                    ∙ ap (λ m. some ((pos m, splice 0 (take n c') buf), t)) d_size,
                h',
              ))
      ]

  write_block_lem :
      (s : S) (c p buf : Buffer) (n k : ℕ)
      → Holds s p
      → Layout Encodes block_size c p
      → k * block_size ≤ length c
      → 0 < n
      → n ≤ block_size
      → min block_size (length c - k * block_size) ≤ n
      → n ≤ length buf
      → (t : S) × (layer.write path buf n (k * block_size) fi s ≡ some (pos n, t))
        × Stored Encodes block_size Holds t (splice (k * block_size) (take n buf) c)
  write_block_lem s c p buf n k h lay inside some_bytes le covers room =
      let size = encoded_length pad n in
      let count : length (take n buf) ≡ n = omega (arith, length-take n buf) in
      let (inside', _) = Layout-drop pad block_size codec.length_law whole positive k lay inside in
      let (e, t, encoded, enc_d, h') =
        codec.encode_law s p (uninit junk size) buf n h room (length-uninit junk size) in
      let e_size : length e ≡ size = omega (arith, codec.length_law (take n buf) e enc_d, count) in
      let (u, wrote, h'') =
        lower.write_law t p e size (k * (block_size + pad)) h' inside' (omega arith) (omega arith)
          (omega (arith, e_size)) in
      (
        u,
        write_encoded s t u e buf n k le encoded wrote,
        (
          splice (k * (block_size + pad)) e p,
          subst (λ x. Holds u (splice (k * (block_size + pad)) x p))
              (take-all size e (omega (arith, e_size))) h'',
          Layout-splice pad block_size codec.length_law whole positive k (take n buf) e lay enc_d
              inside (omega (arith, count)) (omega (arith, count)) (omega (arith, count)),
        ),
      )

  -- Over a file that serves any range, sfuse with a codec that decodes what it encodes is a layer of
  -- whole blocks.
  pub symmetric_driver-IsBlockFile :
      IsBlockFile block_size path fi layer (Stored Encodes block_size Holds)
  unfolding sfuse_oper sfuse_fgetattr decoded_size symmetric_driver
  symmetric_driver-IsBlockFile = record {
    size_law = λ s c st (p, h, lay).
        let (st', t, e, same, regular, h') = lower.size_law s p st h in
        let (u, sized, h'') =
          decoded_file_size_lem is_reg junk junk_fh lower codec whole positive some_pad small t c p
            h' lay in
        (
          record st' { st_size = pos (length c) },
          u,
          rw (◌>>=◌, e, regular, same, sized, le→ltb (length c) 0 (omega arith)) refl,
          refl,
          (p, h'', lay),
        );
    read_law = λ s c buf n offset (p, h, lay) (k, at) inside le covers room.
        let (t, e, h') =
          read_block_lem s c p buf n k h lay (subst (λ o. o ≤ length c) at inside) le
            (subst (λ o. min block_size (length c - o) ≤ n) at covers) room in
        (
          t,
          subst
              (λ o.
                layer.read path buf n o fi s
                ≡ some ((pos (min n (length c - o)), splice 0 (take n (drop o c)) buf), t))
              (sym at) e,
          (p, h', lay),
        );
    write_law = λ s c buf n offset (p, h, lay) (k, at) inside some_bytes le covers room.
        let (t, e, h') =
          write_block_lem s c p buf n k h lay (subst (λ o. o ≤ length c) at inside) some_bytes le
            (subst (λ o. min block_size (length c - o) ≤ n) at covers) room in
        (
          t,
          subst (λ o. layer.write path buf n o fi s ≡ some (pos n, t)) (sym at) e,
          subst (λ o. Stored Encodes block_size Holds t (splice o (take n buf) c)) (sym at) h',
        );
  }
