-- ===== src/Sfuse/EncryptedResize.antt =====
-- sfuse with a codec of det_symmetric.c or rand_symmetric.c truncates the file below to what stores
-- the plain bytes, up to the last block.
use native.Mathlib.Nat.{mod-lt}
use safefs.Prelude.{
  ℕ, ◌+◌, ◌*◌, ◌/◌, ◌%◌, ◌^◌, ◌≤◌, ◌<◌, ◌≡◌, refl, sym, ap, subst, ◌∙◌, inl, inr, Bool, some, pos,
  arith, ltb, ltb→lt, lt→ltb, if◌then◌else◌, Bool-cases, length, take, drop, splice, ◌++◌, uninit,
  length-uninit, length-append, length-take, length-drop, take-all, take_add, append-nil,
  drop_of_le, ◌>>=◌, ℤ, Action,
}
use safefs.Layers.{FilePath, Buffer, FileInfo, FuseOperations}
use safefs.BlockAlign.Contract.{IsResizable, nonzero}
use safefs.Sfuse.Codec.{sfuse_ftruncate, sfuse_oper}
use safefs.Sfuse.Symmetric.{cyphered_truncate_size, symmetric_driver}
use safefs.Sfuse.Sizes.{quotient, remainder}
use safefs.Sfuse.Layout.{Layout, encoded_length, splice_behind, Layout-drop, Layout-length}
use safefs.Sfuse.Prefixes.{Layout-prefix, Layout-whole, Layout-append, Layout-room}
use safefs.Sfuse.Contract.{IsRawFile, IsCodec, Stored}
use safefs.Sfuse.Encrypted.{write_encoded}

-- `Torn s c n`: the whole blocks `c` are stored, and behind them stand bytes of no meaning, no more
-- than what encodes `n` bytes.
abbrev pub Torn :
    {S : Type 0}
    → (Buffer → Buffer → Type 0)
    → ℕ
    → ℕ
    → (S → Buffer → Type 0)
    → S
    → Buffer
    → ℕ
    → Type 0
Torn Encodes pad block_size Holds s c n =
    (p : Buffer) × (r : Buffer) × Holds s (p ++ r)
    × Layout Encodes block_size c p
    × (length r ≤ encoded_length pad n)

-- What is written over all that stands behind a list follows it.
pub splice_over :
    (at : ℕ) (bytes xs ys : Buffer)
    → at ≡ length xs
    → length ys ≤ length bytes
    → splice at bytes (xs ++ ys) ≡ xs ++ bytes
splice_over at bytes xs ys e le =
    splice_behind at 0 bytes xs ys (omega (arith, e))
    ∙ ap (λ t. xs ++ (bytes ++ t)) (drop_of_le (0 + length bytes) ys (omega (arith, le)))
    ∙ ap (λ t. xs ++ t) (append-nil bytes)

module _ {S : Type 0} (errno : S → ℕ) (is_reg : ℕ → Bool) (junk : ℕ → ℕ) (junk_fh : ℕ)
    {block_size pad : ℕ} {path : FilePath} {fi : FileInfo} {next : FuseOperations S}
    {Holds : S → Buffer → Type 0} {Encodes : Buffer → Buffer → Type 0}
    {enc dec : Buffer → Buffer → ℤ → Action S (ℤ × Buffer)}
    (lower : IsRawFile is_reg path fi next Holds) (codec : IsCodec pad Holds Encodes enc dec)
    (whole : block_size % 16 ≡ 0) (positive : 0 < block_size) (some_pad : 16 ≤ pad)
    (small : block_size + pad < 2 ^ 31) where
  abbrev layer : FuseOperations S
  layer = sfuse_oper errno is_reg junk (symmetric_driver block_size pad junk junk_fh enc dec) next

  parts : (size : ℕ) → size ≡ size / block_size * block_size + size % block_size
  parts size = grind arith

  -- How many bytes store the last block, of `m` bytes.
  abbrev tail_length : ℕ → ℕ
  tail_length m = if ltb 0 m then encoded_length pad m else 0

  cyphered_truncate_size_lem :
      (q m size : ℕ)
      → size ≡ q * block_size + m
      → m < block_size
      → cyphered_truncate_size block_size pad size ≡ some (q * (block_size + pad) + tail_length m)
  unfolding cyphered_truncate_size
  cyphered_truncate_size_lem q m size e few =
      rw
        (
          nonzero block_size positive,
          quotient block_size q m size few e,
          remainder block_size q m size few e,
        )
        (elim (Bool-cases (ltb 0 m)) [
          | inl some_left ↦ rw some_left refl
          | inr none_left ↦ rw none_left (ap some (omega arith))
        ])

  ftruncate_lem :
      (s : S) (p : Buffer) (q m size : ℕ)
      → Holds s p
      → size ≡ q * block_size + m
      → m < block_size
      → q * (block_size + pad) + tail_length m ≤ length p
      → (t : S) × (layer.ftruncate path size fi s ≡ some (pos 0, t))
        × Holds t (take (q * (block_size + pad) + tail_length m) p)
  unfolding sfuse_oper sfuse_ftruncate symmetric_driver
  ftruncate_lem s p q m size h e few le =
      let (t, cut, h') = lower.truncate_law s p (q * (block_size + pad) + tail_length m) h le in
      (t, rw (cyphered_truncate_size_lem q m size e few, ◌>>=◌, cut) refl, h')

  stored_length :
      (c p : Buffer)
      → Layout Encodes block_size c p
      → (q : ℕ) × (m : ℕ) × (length c ≡ q * block_size + m)
        × (m < block_size)
        × (length p ≡ q * (block_size + pad) + tail_length m)
  stored_length c p lay =
      let (q, m, size, few, stored) =
        Layout-length pad block_size codec.length_law whole positive lay in
      (
        q,
        m,
        size,
        few,
        elim stored [
          | inl (none_left, e) ↦ rw (none_left) (omega (arith, e))
          | inr (some_left, e) ↦ rw (lt→ltb 0 m some_left) e
        ],
      )

  tail_room :
      (m : ℕ) {c p : Buffer}
      → Layout Encodes block_size c p
      → m ≤ length c
      → m < block_size
      → tail_length m ≤ length p
  tail_room m lay inside few = elim (Bool-cases (ltb 0 m)) [
    | inl some_left ↦ rw some_left (
        Layout-room pad block_size codec.length_law whole positive m lay (ltb→lt 0 m some_left)
          inside few)
    | inr none_left ↦ rw none_left (omega arith)
  ]

  tail_small : (m : ℕ) → tail_length m ≤ encoded_length pad m
  tail_small m = elim (Bool-cases (ltb 0 m)) [
    | inl some_left ↦ rw some_left (omega arith)
    | inr none_left ↦ rw none_left (omega arith)
  ]

  -- Cut anywhere, the whole blocks before are kept.
  cut_lem :
      (s : S) (c p : Buffer) (q m size : ℕ)
      → Holds s p
      → Layout Encodes block_size c p
      → size ≡ q * block_size + m
      → m < block_size
      → size ≤ length c
      → (t : S) × (layer.ftruncate path size fi s ≡ some (pos 0, t))
        × Holds t (
            take (q * (block_size + pad)) p
            ++ take (tail_length m) (drop (q * (block_size + pad)) p))
        × Layout Encodes block_size (take (q * block_size) c) (take (q * (block_size + pad)) p)
  cut_lem s c p q m size h lay e few le =
      let (inside, rest) =
        Layout-drop pad block_size codec.length_law whole positive q lay (omega (arith, e)) in
      let fits : q * (block_size + pad) + tail_length m ≤ length p = omega (
        arith,
        inside,
        length-drop (q * (block_size + pad)) p,
        tail_room m rest (omega (arith, e, length-drop (q * block_size) c)) few,
      ) in
      let (t, cut, h') = ftruncate_lem s p q m size h e few fits in
      (
        t,
        cut,
        subst (Holds t) (take_add (q * (block_size + pad)) (tail_length m) p) h',
        Layout-prefix pad block_size codec.length_law whole positive q lay (omega (arith, e)),
      )

  rewrite_lem :
      (s : S) (c buf : Buffer) (k m n : ℕ)
      → Torn Encodes pad block_size Holds s c m
      → length c ≡ k * block_size
      → 0 < n
      → m ≤ n
      → n ≤ block_size
      → n ≤ length buf
      → (t : S) × (layer.write path buf n (k * block_size) fi s ≡ some (pos n, t))
        × Stored Encodes block_size Holds t (c ++ take n buf)
  rewrite_lem s c buf k m n (p, r, h, lay, torn) blocks some_bytes more le room =
      let size = encoded_length pad n in
      let start : length p ≡ k * (block_size + pad) =
        Layout-whole pad block_size codec.length_law whole positive k lay blocks in
      let count : length (take n buf) ≡ n = omega (arith, length-take n buf) in
      let (e, t, encoded, enc_d, h') =
        codec.encode_law s (p ++ r) (uninit junk size) buf n h room (length-uninit junk size) in
      let e_size : length e ≡ size = omega (arith, codec.length_law (take n buf) e enc_d, count) in
      let (u, wrote, h'') =
        lower.write_law t (p ++ r) e size (k * (block_size + pad)) h'
          (omega (arith, start, length-append p r)) (omega arith) (omega arith)
          (omega (arith, e_size)) in
      let stored : splice (k * (block_size + pad)) (take size e) (p ++ r) ≡ p ++ e =
        ap (λ x. splice (k * (block_size + pad)) x (p ++ r))
          (take-all size e (omega (arith, e_size)))
        ∙ splice_over (k * (block_size + pad)) e p r (sym start) (omega (arith, e_size)) in
      (
        u,
        write_encoded errno is_reg junk junk_fh lower codec whole positive some_pad small s t u e
            buf n k le encoded wrote,
        (
          p ++ e,
          subst (Holds u) stored h'',
          Layout-append pad block_size codec.length_law whole positive k (take n buf) e lay enc_d
              blocks (omega (arith, count)) (omega (arith, count)),
        ),
      )

  pub symmetric_driver-IsResizable :
      IsResizable block_size path fi layer
        (Stored Encodes block_size Holds)
        (Torn Encodes pad block_size Holds)
  symmetric_driver-IsResizable = record {
    same_law = λ s c (p, h, lay).
        let (q, m, size, few, stored) = stored_length c p lay in
        let (t, cut, h') = ftruncate_lem s p q m (length c) h size few (omega (arith, stored)) in
        (
          t,
          cut,
          (
            p,
            subst (Holds t)
                (take-all (q * (block_size + pad) + tail_length m) p (omega (arith, stored))) h',
            lay,
          ),
        );
    aligned_law = λ s c size (p, h, lay) le (k, at).
        let (t, cut, h', lay') = cut_lem s c p k 0 size h lay (omega (arith, at)) positive le in
        (
          t,
          cut,
          (
            take (k * (block_size + pad)) p,
            subst (Holds t) (append-nil (take (k * (block_size + pad)) p)) h',
            subst (λ x. Layout Encodes block_size (take x c) (take (k * (block_size + pad)) p))
                (sym at) lay',
          ),
        );
    cut_law = λ s c size (p, h, lay) lt.
        let q = size / block_size in
        let m = size % block_size in
        let (t, cut, h', lay') =
          cut_lem s c p q m size h lay (parts size) (omega (arith, mod-lt size positive))
            (omega arith) in
        (
          t,
          cut,
          (
            take (q * (block_size + pad)) p,
            take (tail_length m) (drop (q * (block_size + pad)) p),
            h',
            lay',
            omega (
              arith,
              length-take (tail_length m) (drop (q * (block_size + pad)) p),
              tail_small m,
            ),
          ),
        );
    rewrite_law = λ s c buf m n torn (k, blocks) some_bytes more le room.
        let (t, e, h') = rewrite_lem s c buf k m n torn blocks some_bytes more le room in
        (t, subst (λ o. layer.write path buf n o fi s ≡ some (pos n, t)) (sym blocks) e, h');
  }
