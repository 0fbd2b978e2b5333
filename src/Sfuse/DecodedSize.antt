-- ===== src/Sfuse/DecodedSize.antt =====
-- The size of a file under a codec of det_symmetric.c or rand_symmetric.c is that of the plain bytes.

use safefs.Prelude.{
  ℕ, ◌+◌, ◌-◌, ◌*◌, ◌/◌, ◌%◌, ◌^◌, ◌≤◌, ◌<◌, min, ◌≡◌, refl, sym, ap, subst, ◌∙◌, ◌⊎◌, inl, inr,
  Bool, some, pos, arith, le→ltb, lt→ltb, length, take, drop, splice, uninit, length-uninit,
  length-take, length-drop, take_eq, ◌>>=◌, ℤ, Action,
}
use safefs.Layers.{FilePath, Buffer, FileInfo, FuseOperations}
use safefs.Sfuse.Symmetric.{last_block_size, decoded_file_size}
use safefs.Sfuse.Sizes.{quotient, remainder}
use safefs.Sfuse.Layout.{Layout, encoded_length, Layout-drop, Layout-take, Layout-length}
use safefs.Sfuse.Contract.{IsRawFile, IsCodec}

some_or_none : (n : ℕ) → (n ≡ 0) ⊎ (0 < n)
some_or_none n = omega arith

module _ {S : Type 0} (is_reg : ℕ → Bool) (junk : ℕ → ℕ) (junk_fh : ℕ) {block_size pad : ℕ}
    {path : FilePath} {fi : FileInfo} {next : FuseOperations S} {Holds : S → Buffer → Type 0}
    {Encodes : Buffer → Buffer → Type 0} {enc dec : Buffer → Buffer → ℤ → Action S (ℤ × Buffer)}
    (lower : IsRawFile is_reg path fi next Holds) (codec : IsCodec pad Holds Encodes enc dec)
    (whole : block_size % 16 ≡ 0) (positive : 0 < block_size) (some_pad : 16 ≤ pad)
    (small : block_size + pad < 2 ^ 31) where
  last_block :
      (s t : S) (d e got_buf : Buffer) (before size address : ℕ)
      → Encodes d e
      → size ≡ length e
      → take (length e) got_buf ≡ e
      → next.read path (uninit junk size) size address fi s ≡ some ((pos size, got_buf), t)
      → last_block_size block_size pad junk junk_fh next dec path (some fi) before size address s
        ≡ some (pos (before + length d), t)
  unfolding last_block_size
  last_block s t d e got_buf before size address enc_d same front got =
      let decoded : dec (uninit junk size) got_buf (pos size) t
          ≡ some ((pos (length d), splice 0 d (uninit junk size)), t) =
        subst
          (λ n.
            dec (uninit junk size) got_buf (pos n) t
            ≡ some ((pos (length d), splice 0 d (uninit junk size)), t))
          (sym same)
          (codec.decode_law t d e (uninit junk size) got_buf enc_d front
            (omega (arith, codec.length_law d e enc_d, length-uninit junk size))) in
      rw (◌>>=◌, got, le→ltb size size (omega arith), decoded) refl

  address :
      (p : Buffer) (q m : ℕ)
      → length p ≡ q * (block_size + pad) + encoded_length pad m
      → length p - encoded_length pad m ≡ q * (block_size + pad)
  address p q m size = omega (arith, size)

  size_with_part :
      (s : S) (c p : Buffer) (q m before : ℕ)
      → before ≡ q * block_size
      → Holds s p
      → Layout Encodes block_size c p
      → length c ≡ q * block_size + m
      → 0 < m
      → m < block_size
      → length p ≡ q * (block_size + pad) + encoded_length pad m
      → (t : S) × (last_block_size block_size pad junk junk_fh next dec path
            (some fi)
            before
            (encoded_length pad m)
            (q * (block_size + pad))
            s
          ≡ some (pos (length c), t))
        × Holds t p
  size_with_part s c p q m before start h lay size some_left few stored =
      let stride = block_size + pad in
      let n = encoded_length pad m in
      let c' = drop (q * block_size) c in
      let p' = drop (q * stride) p in
      let c'_size : length c' ≡ m = omega (arith, length-drop (q * block_size) c, size) in
      let (le, lay') =
        Layout-drop pad block_size codec.length_law whole positive q lay (omega (arith, size)) in
      let enc_d : Encodes (take m c') (take n p') =
        Layout-take pad block_size codec.length_law whole positive m lay' (omega (arith, c'_size))
          (omega arith) (omega (arith, c'_size)) in
      let d_size : length (take m c') ≡ m = omega (arith, length-take m c', c'_size) in
      let (got_buf, t, got, front, h') =
        lower.read_law s p (uninit junk n) n (q * stride) h le (omega arith)
          (omega (arith, length-uninit junk n)) in
      let all_read : min n (length p - q * stride) ≡ n = omega (arith, stored) in
      let stored_size : n ≡ length (take n p') =
        omega (arith, codec.length_law (take m c') (take n p') enc_d, d_size) in
      (
        t,
        last_block s t (take m c') (take n p') got_buf before n (q * stride) enc_d stored_size
              (take_eq (length (take n p')) (min n (length p - q * stride)) got_buf
                  (sym stored_size ∙ sym all_read)
                ∙ front)
              (got ∙ ap (λ k. some ((pos k, got_buf), t)) all_read)
            ∙ ap (λ k. some (pos k, t)) {x = before + length (take m c')}
                (omega (arith, d_size, size, start)),
        h',
      )

  pub decoded_file_size_lem :
      (s : S) (c p : Buffer)
      → Holds s p
      → Layout Encodes block_size c p
      → (t : S) × (decoded_file_size block_size pad junk junk_fh next dec path
            (pos (length p))
            (some fi)
            s
          ≡ some (pos (length c), t))
        × Holds t p
  unfolding decoded_file_size
  decoded_file_size_lem s c p h lay =
      let (q, m, size, few, stored) =
        Layout-length pad block_size codec.length_law whole positive lay in
      let stride = block_size + pad in
      elim stored [
        | inl (none_left, size') ↦ (
          s,
          rw
              (
                remainder stride q 0 (length p) (omega arith) (omega (arith, size')),
                quotient stride q 0 (length p) (omega arith) (omega (arith, size')),
              )
              (ap (λ n. some (pos n, s)) {x = q * block_size} (omega (arith, size, none_left))),
          h,
        )
        | inr (some_left, size') ↦
            (let fits : encoded_length pad m < stride = omega (arith, few, whole) in
              let start : length p / stride * block_size ≡ q * block_size =
                ap (λ n. n * block_size)
                  (quotient stride q (encoded_length pad m) (length p) fits size') in
              let (t, e, h') =
                size_with_part s c p q m (length p / stride * block_size) start h lay size some_left
                  few size' in
              (
                t,
                rw
                    (
                      remainder stride q (encoded_length pad m) (length p) fits size',
                      lt→ltb 0 (encoded_length pad m) (omega arith),
                      address p q m size',
                    )
                    e,
                h',
              ))
      ]
