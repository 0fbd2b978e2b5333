-- ===== src/Sfuse/Refine.antt =====
-- sfuse without encryption is a layer of blocks over a file that serves any range of bytes.
use safefs.Prelude.{
  ℕ, ◌+◌, ◌-◌, ◌^◌, ◌≤◌, ◌<◌, min, ◌≡◌, refl, sym, ap, subst, ◌∙◌, inl, inr, Bool, some, pos, arith,
  to_int_small, ltb, ltb→le, le→ltb, Bool-cases, length, take, drop, splice, [], ◌∷◌, ◌++◌, uninit,
  length-uninit, memcpy, memcpy-splice, length-take, length-drop, length-append, take-append_left,
  take-all, take-take, take_eq, splice-whole, ◌>>=◌,
}
use safefs.Layers.{FilePath, Buffer, FileInfo, FuseOperations}
use safefs.BlockAlign.Contract.{IsBlockFile}
use safefs.Sfuse.Codec.{sfuse_read, sfuse_write, decoded_size, sfuse_fgetattr, sfuse_oper}
use safefs.Sfuse.Contract.{IsRawFile}
use safefs.Sfuse.Padded.{nop_encode, nop_decode, nop_driver}

pub no_bytes : (xs : Buffer) → length xs ≡ 0 → xs ≡ []
no_bytes [] h = refl
no_bytes (x ∷ xs) h = absurd (omega arith)

-- A copy of all the bytes that were read into an array.
pub copy_read :
    (d old buf : Buffer) (m : ℕ)
    → length d ≡ m
    → m ≤ length buf
    → memcpy buf 0 (splice 0 d old) m ≡ some (splice 0 d buf)
copy_read d old buf m e room =
    memcpy-splice buf 0 (d ++ rest) m (omega arith) (omega (arith, length-append d rest))
    ∙ ap (λ t. some (splice 0 t buf))
        (take-append_left m d rest (omega arith) ∙ take-all m d (omega arith))
  where
    rest : Buffer
    rest = drop (0 + length d) old

module _ {S : Type 0} (errno : S → ℕ) (is_reg : ℕ → Bool) (junk : ℕ → ℕ) {block_size : ℕ}
    {path : FilePath} {fi : FileInfo} {next : FuseOperations S} {Holds : S → Buffer → Type 0}
    (lower : IsRawFile is_reg path fi next Holds) (small : block_size < 2 ^ 31) where
  abbrev layer : FuseOperations S
  layer = sfuse_oper errno is_reg junk nop_driver next

  read_block_lem :
      (s t : S) (d aux buf : Buffer) (n offset m : ℕ)
      → n < 2 ^ 31
      → m ≤ n
      → n ≤ length buf
      → take m aux ≡ d
      → length d ≡ m
      → next.read path (uninit junk n) n offset fi s ≡ some ((pos m, aux), t)
      → layer.read path buf n offset fi s ≡ some ((pos m, splice 0 d buf), t)
  unfolding sfuse_oper sfuse_read nop_driver nop_decode
  read_block_lem s t d aux buf n offset m l le room front count got = elim (Bool-cases (ltb 0 m)) [
    | inl some_bytes ↦
        rw
          (
            to_int_small n l,
            ◌>>=◌,
            got,
            some_bytes,
            memcpy-splice buf 0 aux m (omega arith)
                (omega (arith, ap length front, count, length-take m aux)),
            front,
          )
          refl
    | inr none_read ↦
        (let empty : d ≡ [] = no_bytes d (omega (arith, count, ltb→le 0 m none_read)) in
          rw (to_int_small n l, ◌>>=◌, got, none_read, empty) refl)
  ]

  pub write_block_lem :
      (s t : S) (buf : Buffer) (n offset : ℕ)
      → n < 2 ^ 31
      → n ≤ length buf
      → next.write path (take n buf) n offset fi s ≡ some (pos n, t)
      → layer.write path buf n offset fi s ≡ some (pos n, t)
  unfolding sfuse_oper sfuse_write nop_driver nop_encode
  write_block_lem s t buf n offset l room wrote =
      let count : length (take n buf) ≡ n = omega (arith, length-take n buf) in
      rw
        (
          to_int_small n l,
          to_int_small n l,
          memcpy-splice (uninit junk n) 0 buf n (omega (arith, length-uninit junk n)) room,
          splice-whole (take n buf) (uninit junk n) (count ∙ sym (length-uninit junk n)),
          to_int_small n l,
          le→ltb n n (omega arith),
          ◌>>=◌,
          wrote,
          le→ltb n 0 (omega arith),
          to_int_small n l,
          le→ltb n n (omega arith),
        )
        refl

  -- Over a file that serves any range of bytes, sfuse with the codec that only copies is a layer of
  -- whole blocks: the size it reports is that of the file; the read of a block from within the file or
  -- its end gives what the file has of it and keeps the rest of the buffer, also where the layer below
  -- overwrites it; a write puts its bytes over those of the file. Blocks are shorter than 2 ^ 31 bytes.
  pub sfuse_oper-IsBlockFile : IsBlockFile block_size path fi layer Holds
  unfolding sfuse_oper sfuse_fgetattr decoded_size nop_driver
  sfuse_oper-IsBlockFile = record {
    size_law = λ s c st h.
        let (st', s', e, same, regular, h') = lower.size_law s c st h in
        (
          record st' { st_size = pos (length c) },
          s',
          rw (◌>>=◌, e, regular, same, le→ltb (length c) 0 (omega arith)) refl,
          refl,
          h',
        );
    read_law = λ s c buf n offset h al inside le covers room.
        let d = take n (drop offset c) in
        let (aux, s', e, front, h') =
          lower.read_law s c (uninit junk n) n offset h inside (omega arith)
            (omega (arith, length-uninit junk n)) in
        let count : length d ≡ min n (length c - offset) =
          omega (arith, length-take n (drop offset c), length-drop offset c) in
        (
          s',
          read_block_lem s s' d aux buf n offset (min n (length c - offset)) (omega arith)
              (omega arith) room front count e,
          h',
        );
    write_law = λ s c buf n offset h al inside p le covers room.
        let (s', e, h') =
          lower.write_law s c (take n buf) n offset h inside p (omega arith)
            (omega (arith, length-take n buf)) in
        let whole : take n (take n buf) ≡ take n buf =
          take-take n n buf ∙ take_eq (min n n) n buf (omega arith) in
        (
          s',
          write_block_lem s s' buf n offset (omega arith) room e,
          subst (λ d. Holds s' (splice offset d c)) whole h',
        );
  }
