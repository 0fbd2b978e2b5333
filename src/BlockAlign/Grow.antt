-- ===== src/BlockAlign/Grow.antt =====
-- Growing a file by writing zeros through block_align.
use safefs.Prelude.{
  ℕ, zero, suc, ◌+◌, ◌-◌, ◌^◌, ◌≤◌, ◌<◌, ◌≡◌, refl, sym, ap, subst, ◌∙◌, inl, inr, some, arith, pos,
  le→ltb, ltb, ltb→lt, ltb→le, if◌then◌else◌, Bool-cases, length, take, replicate, ◌>>=◌, ◌++◌,
  length-append, length-replicate, take-replicate, splice-end, append-nil, append-replicate,
}
use safefs.Layers.{FilePath, Buffer, FileInfo, Stat, FuseOperations}
use safefs.BlockAlign.Defs.{add64, block_align_write}
use safefs.BlockAlign.Resize.{fill_size, zero_fill}
use safefs.BlockAlign.Contract.{IsBlockFile}
use safefs.BlockAlign.Writes.{block_align_write_lem}

fill_size_pos : 0 < fill_size
unfolding fill_size
fill_size_pos = omega arith

fill_size_small : fill_size < 2 ^ 31
unfolding fill_size
fill_size_small = omega arith

module _ {S : Type 0} {block_size : ℕ} {path : FilePath} {fi : FileInfo} {next : FuseOperations S}
    {Holds : S → Buffer → Type 0} (lower : IsBlockFile block_size path fi next Holds) (junk : ℕ → ℕ)
    (junk_stat : Stat) (small : block_size < 2 ^ 31) (junk_fh : ℕ)
    (some_bytes : 0 < block_size) where
  -- One round, of `n` zeros, and the rest.
  zero_round :
      (s : S) (c : Buffer) (n : ℕ)
      → Holds s c
      → n ≤ fill_size
      → length c + n < 2 ^ 63
      → (s' : S) × (block_align_write block_size junk junk_stat path
            (replicate fill_size 0)
            n
            (length c)
            fi
            next
            s
          ≡ some (pos n, s'))
        × Holds s' (c ++ replicate n 0)
  zero_round s c n h fits l =
      let (s', e, h') =
        block_align_write_lem lower junk junk_stat small s c (replicate fill_size 0) n (length c) h
          some_bytes (omega arith) (omega arith) l (omega (arith, fill_size_small))
          (omega (arith, length-replicate {A = ℕ} fill_size 0)) in
      (
        s',
        e,
        subst (Holds s')
            (splice-end (take n (replicate fill_size 0)) c
              ∙ ap (λ t. c ++ t) (take-replicate n fill_size 0 fits))
            h',
      )

  pub zero_fill_lem :
      (fuel : ℕ) (s : S) (c : Buffer) (left : ℕ)
      → Holds s c
      → left < fuel
      → length c + left < 2 ^ 63
      → (s' : S) × (zero_fill block_size junk junk_stat junk_fh fuel path (length c) left fi next s
          ≡ some (pos 0, s'))
        × Holds s' (c ++ replicate left 0)
  unfolding zero_fill
  zero_fill_lem zero s c left h f l = absurd (omega arith)
  zero_fill_lem (suc fuel) s c left h f l = elim (Bool-cases (ltb 0 left)) [
    | inr done ↦
        (let none_left : left ≡ 0 = omega (arith, ltb→le 0 left done) in
          rw done (
            s,
            refl,
            subst (λ k. Holds s (c ++ replicate k 0)) (sym none_left) (rw (append-nil c) h),
          ))
    | inl more ↦
        (let n = (if ltb fill_size left then fill_size else left) in
          let fits : n ≤ fill_size = ground arith in
          let some_zeros : 0 < n = ground (arith, fill_size_pos, ltb→lt 0 left more) in
          let le : n ≤ left = ground arith in
          let (t, e, h') = zero_round s c n h fits (omega arith) in
          let c' = c ++ replicate n 0 in
          let at : add64 (length c) n ≡ length c' =
            omega (arith, length-append c (replicate n 0), length-replicate {A = ℕ} n 0) in
          let (s', e', held) =
            zero_fill_lem fuel t c' (left - n) h' (omega arith) (omega (arith, at)) in
          rw (more, ◌>>=◌, e, le→ltb n n (omega arith), at)
            (s', e', subst (Holds s') (append-replicate n left 0 c le) held))
  ]
