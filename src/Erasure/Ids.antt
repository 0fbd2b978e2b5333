-- ===== src/Erasure/Ids.antt =====
-- Two files never share an identifier, and no block is recorded under an identifier that was not given
-- out yet.
use safefs.Prelude.{
  option_cases, max, ltb→lt, ltb→le, ℕ, ◌+◌, ◌-◌, ◌%◌, ◌^◌, ◌≤◌, ◌<◌, ◌≡◌, ◌≢◌, refl, sym, ap, ◌∙◌,
  inl, inr, none, some, arith, ltb, Bool-cases, ◌>>=◌,
}
use safefs.Layers.{FilePath}
use safefs.Erasure.Map.{Table, IsTable, hash_put, hash_get, move_key, remove_keys}
use safefs.Erasure.Defs.{
  Mark, wo, ro, rs, OffsetKey, block_key, Erasure, get_file_id, increment_file_size,
  erasure_get_file_size, put_block,
}
use safefs.Erasure.Keys.{dec_path, get-put, get-remove, get-move}

-- The size that a table has for a file, 0 if it has none.
abbrev pub recorded : {P : Type 0} → Table P FilePath → P → FilePath → ℕ
recorded paths z p = elim (hash_get paths z p) [ none ↦ 0 | some v ↦ v ]

module _ {P O : Type 0} (paths : Table P FilePath) (offsets : Table O OffsetKey)
    (path_laws : IsTable paths) (offset_laws : IsTable offsets) where
  -- What holds of the driver's tables.
  pub record IsConsistent (s : Erasure P O) : Type 0 where
    pub distinct :
        (p q : FilePath) (i : ℕ)
        → hash_get paths s.file_ids p ≡ some i
        → hash_get paths s.file_ids q ≡ some i
        → p ≡ q
    pub given : (p : FilePath) (i : ℕ) → hash_get paths s.file_ids p ≡ some i → i ≤ s.file_id
    pub unused :
        (i o : ℕ) (m : Mark)
        → s.file_id < i
        → hash_get offsets s.offset_map (block_key i m o) ≡ none

  pub get_file_id_known :
      (s : Erasure P O) (path : FilePath) (i : ℕ)
      → hash_get paths s.file_ids path ≡ some i
      → get_file_id paths offsets path s ≡ some (i, s)
  unfolding get_file_id
  get_file_id_known s path i h = rw (path_laws.contains_law s.file_ids path, h) refl

  pub get_file_id_new :
      (s : Erasure P O) (path : FilePath)
      → hash_get paths s.file_ids path ≡ none
      → get_file_id paths offsets path s
        ≡ some ((s.file_id + 1) % 2 ^ 64, record s { file_id = (s.file_id + 1) % 2 ^ 64 })
  unfolding get_file_id
  get_file_id_new s path h = rw (path_laws.contains_law s.file_ids path, h) refl

  pub IsConsistent-get_file_id :
      (s : Erasure P O) (path : FilePath)
      → IsConsistent s
      → s.file_id + 1 < 2 ^ 64
      → (i : ℕ) × (n : ℕ) × (get_file_id paths offsets path s ≡ some (i, record s { file_id = n }))
        × IsConsistent (record s { file_id = n })
        × (i ≤ n)
        × (n ≤ s.file_id + 1)
        × ((q : FilePath) → hash_get paths s.file_ids q ≡ some i → q ≡ path)
  IsConsistent-get_file_id s path inv small = elim (option_cases (hash_get paths s.file_ids path)) [
    | inl new ↦
        (let wrap : (s.file_id + 1) % 2 ^ 64 ≡ s.file_id + 1 = omega (arith, small) in
          (
            s.file_id + 1,
            s.file_id + 1,
            get_file_id_new s path new ∙ ap (λ n. some (n, record s { file_id = n })) wrap,
            record {
              distinct = inv.distinct;
              given = λ p i h. omega (arith, inv.given p i h);
              unused = λ i o m lt. inv.unused i o m (omega (arith, lt));
            },
            omega arith,
            omega arith,
            λ q h. absurd (omega (arith, inv.given q (s.file_id + 1) h)),
          ))
    | inr (i, known) ↦ (
      i,
      s.file_id,
      get_file_id_known s path i known,
      inv,
      inv.given path i known,
      omega arith,
      λ q h. inv.distinct q path i h known,
    )
  ]

  pub IsConsistent-put_file_id :
      (s : Erasure P O) (path : FilePath) (i : ℕ) (z : P)
      → IsConsistent s
      → i ≤ s.file_id
      → ((q : FilePath) → hash_get paths s.file_ids q ≡ some i → q ≡ path)
      → IsConsistent (record s { file_ids = hash_put paths s.file_ids path i; file_sizes = z })
  IsConsistent-put_file_id s path i z inv le mine = record {
    distinct = λ p q j hp hq. elim (get-put paths path_laws dec_path s.file_ids path p i j hp) [
      | inl (p_same, e) ↦ elim (get-put paths path_laws dec_path s.file_ids path q i j hq) [
        | inl (q_same, _) ↦ p_same ∙ sym q_same
        | inr (_, hq') ↦ p_same ∙ sym (mine q (hq' ∙ ap some (sym e)))
      ]
      | inr (_, hp') ↦ elim (get-put paths path_laws dec_path s.file_ids path q i j hq) [
        | inl (q_same, e) ↦ mine p (hp' ∙ ap some (sym e)) ∙ sym q_same
        | inr (_, hq') ↦ inv.distinct p q j hp' hq'
      ]
    ];
    given = λ p j h. elim (get-put paths path_laws dec_path s.file_ids path p i j h) [
      | inl (_, e) ↦ omega (arith, e, le)
      | inr (_, h') ↦ inv.given p j h'
    ];
    unused = inv.unused;
  }

  other_id : (i j o o' : ℕ) (m m' : Mark) → i < j → block_key j m' o ≢ block_key i m o'
  other_id i j o o' m m' lt e =
      let ids : j ≡ i = ap (λ k. k.id) e in absurd (omega (arith, ids, lt))

  pub IsConsistent-put_block :
      (s : Erasure P O) (i o size d len : ℕ)
      → IsConsistent s
      → i ≤ s.file_id
      → IsConsistent (put_block paths offsets i o size d len s)
  IsConsistent-put_block s i o size d len inv le = record {
    distinct = inv.distinct;
    given = inv.given;
    unused = λ j o' m lt.
        offset_laws.insert_other_law _ (block_key j m o') (block_key i rs o) len
          (other_id i j _ _ _ _ (omega (arith, lt, le)))
        ∙ offset_laws.insert_other_law _ (block_key j m o') (block_key i ro o) d
            (other_id i j _ _ _ _ (omega (arith, lt, le)))
        ∙ offset_laws.insert_other_law _ (block_key j m o') (block_key i wo (o + size))
            ((d + len) % 2 ^ 64) (other_id i j _ _ _ _ (omega (arith, lt, le)))
        ∙ inv.unused j o' m lt;
  }

  pub IsConsistent-renamed :
      (s : Erasure P O) (from to : FilePath) (z : P)
      → IsConsistent s
      → IsConsistent (record s { file_ids = move_key paths s.file_ids from to; file_sizes = z })
  IsConsistent-renamed s from to z inv = record {
    distinct = λ p q i hp hq. elim (get-move paths path_laws dec_path s.file_ids from to p i hp) [
      | inl (p_same, e) ↦ elim (get-move paths path_laws dec_path s.file_ids from to q i hq) [
        | inl (q_same, _) ↦ p_same ∙ sym q_same
        | inr (hq', moved) ↦ absurd (moved i e (inv.distinct q from i hq' e))
      ]
      | inr (hp', moved) ↦ elim (get-move paths path_laws dec_path s.file_ids from to q i hq) [
        | inl (_, e) ↦ absurd (moved i e (inv.distinct p from i hp' e))
        | inr (hq', _) ↦ inv.distinct p q i hp' hq'
      ]
    ];
    given = λ p i h. elim (get-move paths path_laws dec_path s.file_ids from to p i h) [
      | inl (_, e) ↦ inv.given from i e
      | inr (h', _) ↦ inv.given p i h'
    ];
    unused = inv.unused;
  }

  pub IsConsistent-created :
      (s : Erasure P O) (path : FilePath) (z : P)
      → IsConsistent s
      → IsConsistent (record s { file_ids = remove_keys paths s.file_ids path; file_sizes = z })
  IsConsistent-created s path z inv =
      let kept = get-remove paths path_laws dec_path s.file_ids path in
      record {
        distinct = λ p q i hp hq. inv.distinct p q i (kept p i hp).1 (kept q i hq).1;
        given = λ p i h. inv.given p i (kept p i h).1;
        unused = inv.unused;
      }

  -- `increment_file_size` changes the size of the file only, to the end of the block if that is more.
  pub increment_file_size_lem :
      (s : Erasure P O) (path : FilePath) (o n : ℕ)
      → (z : P) × (increment_file_size paths offsets path o n s
          ≡ some (tt, record s { file_sizes = z }))
        × (recorded paths z path ≡ max (recorded paths s.file_sizes path) (o + n))
  unfolding increment_file_size erasure_get_file_size
  increment_file_size_lem s path o n = elim (option_cases (hash_get paths s.file_sizes path)) [
    | inl unknown ↦ elim (Bool-cases (ltb 0 (o + n))) [
      | inl more ↦ (
        hash_put paths s.file_sizes path (0 + (o + n - 0)),
        rw (path_laws.contains_law s.file_sizes path, unknown, ◌>>=◌, more) refl,
        rw (recorded, unknown, path_laws.insert_law s.file_sizes path (0 + (o + n - 0)))
            (omega arith),
      )
      | inr no_more ↦ (
        s.file_sizes,
        rw (path_laws.contains_law s.file_sizes path, unknown, ◌>>=◌, no_more) refl,
        rw (recorded, unknown) (omega (arith, ltb→le 0 (o + n) no_more)),
      )
    ]
    | inr (v, known) ↦ elim (Bool-cases (ltb v (o + n))) [
      | inl more ↦ (
        hash_put paths s.file_sizes path (v + (o + n - v)),
        rw (path_laws.contains_law s.file_sizes path, known, ◌>>=◌, more) refl,
        rw (recorded, known, path_laws.insert_law s.file_sizes path (v + (o + n - v)))
            (omega (arith, ltb→lt v (o + n) more)),
      )
      | inr no_more ↦ (
        s.file_sizes,
        rw (path_laws.contains_law s.file_sizes path, known, ◌>>=◌, no_more) refl,
        rw (recorded, known) (omega (arith, ltb→le v (o + n) no_more)),
      )
    ]
  ]
