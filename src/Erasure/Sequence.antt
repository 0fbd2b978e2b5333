-- ===== src/Erasure/Sequence.antt =====
-- A file that is written from its start, block after block.
use safefs.Prelude.{
  option_cases, ℕ, ◌+◌, ◌%◌, ◌^◌, ◌<◌, max, ◌≡◌, ◌≢◌, refl, ap, ◌∙◌, Option, none, some, inl, inr,
  pos, arith, List, [], ◌∷◌, ◌++◌, lt→ltb, Bool, true, false, ◌>>=◌, pure, Action, length,
}
use safefs.Layers.{FilePath, Buffer}
use safefs.BlockAlign.Contract.{nonzero}
use safefs.Erasure.Map.{Table, IsTable, hash_get, hash_put}
use safefs.Erasure.Defs.{
  Mark, wo, ro, rs, OffsetKey, block_key, Erasure, Liberasurecode, get_file_id, write_offset,
  place_block, put_block, record_block, get_erasure_block_offset, get_erasure_block_size,
  erasure_get_file_size, erasure_encode,
}
use safefs.Erasure.Ids.{recorded, get_file_id_known, get_file_id_new, increment_file_size_lem}
use safefs.Erasure.Code.{IsErasureCode, fragments_lem}

other_mark : (i o o' : ℕ) (m m' : Mark) → m ≢ m' → block_key i m o ≢ block_key i m' o'
other_mark i o o' m m' other e = other (ap (λ k. k.mark) e)

other_offset : (i o o' : ℕ) (m m' : Mark) → o ≢ o' → block_key i m o ≢ block_key i m' o'
other_offset i o o' m m' other e = other (ap (λ k. k.offset) e)

abbrev is_ro : Mark → Bool
is_ro wo = false
is_ro ro = true
is_ro rs = false

abbrev is_wo : Mark → Bool
is_wo wo = true
is_wo ro = false
is_wo rs = false

wo_ro : wo ≢ ro
wo_ro e = ground (arith, ap is_wo e)

wo_rs : wo ≢ rs
wo_rs e = ground (arith, ap is_wo e)

ro_rs : ro ≢ rs
ro_rs e = ground (arith, ap is_ro e)

abbrev pub total_length : List Buffer → ℕ
total_length [] = 0
total_length (b ∷ bs) = length b + total_length bs

abbrev pub NonEmpty : List Buffer → Type 0
NonEmpty [] = Unit
NonEmpty (b ∷ bs) = (0 < length b) × NonEmpty bs

module _ (lib : Liberasurecode) where
  abbrev pub fragment_length : Buffer → ℕ
  fragment_length b = (lib.encode b (length b)).2

  abbrev pub stored_length : List Buffer → ℕ
  stored_length [] = 0
  stored_length (b ∷ bs) = fragment_length b + stored_length bs

module _ {P O : Type 0} (paths : Table P FilePath) (offsets : Table O OffsetKey)
    (lib : Liberasurecode) (k m : ℕ) (junk : ℕ → ℕ) (path : FilePath) where
  -- The blocks one after another, with a device for each fragment.
  unfoldable pub write_blocks : ℕ → List Buffer → Action (Erasure P O) (Unit {0})
  unfolding erasure_encode
  write_blocks o [] = pure tt
  write_blocks o (b ∷ bs) = do
    _ ← erasure_encode paths offsets lib k m junk path [] b o (length b) (k + m)
    write_blocks (o + length b) bs

  -- The driver finds each block at the place where those before end, with its length.
  abbrev pub Placed : Erasure P O → ℕ → ℕ → List Buffer → Type 0
  Placed t o d [] = Unit
  Placed t o d (b ∷ bs) =
      (get_erasure_block_offset paths offsets path o t ≡ some (pos d, t))
      × (get_erasure_block_size paths offsets path o t ≡ some (fragment_length lib b, t))
      × Placed t (o + length b) (d + fragment_length lib b) bs

module _ {P O : Type 0} (paths : Table P FilePath) (offsets : Table O OffsetKey)
    (path_laws : IsTable paths) (offset_laws : IsTable offsets) where
  abbrev get : O → OffsetKey → Option ℕ
  get = hash_get offsets

  -- What the three entries of a block say afterwards.
  put_block_lem :
      (s : Erasure P O) (i o size d len : ℕ)
      → (d + len < 2 ^ 64)
      → 0 < size
      → (get (put_block paths offsets i o size d len s).offset_map (block_key i wo (o + size))
          ≡ some (d + len))
        × (get (put_block paths offsets i o size d len s).offset_map (block_key i ro o) ≡ some d)
        × (get (put_block paths offsets i o size d len s).offset_map (block_key i rs o) ≡ some len)
        × ((m : Mark) (o' : ℕ)
            → o' < o
            → get (put_block paths offsets i o size d len s).offset_map (block_key i m o')
              ≡ get s.offset_map (block_key i m o'))
  put_block_lem s i o size d len small some_bytes = (
    offset_laws.insert_other_law _ (block_key i wo (o + size)) (block_key i rs o) len
          (other_mark i (o + size) o wo rs wo_rs)
        ∙ offset_laws.insert_other_law _ (block_key i wo (o + size)) (block_key i ro o) d
            (other_mark i (o + size) o wo ro wo_ro)
        ∙ offset_laws.insert_law s.offset_map (block_key i wo (o + size)) ((d + len) % 2 ^ 64)
        ∙ ap some {x = (d + len) % 2 ^ 64} (omega (arith, small)),
    offset_laws.insert_other_law _ (block_key i ro o) (block_key i rs o) len
          (other_mark i o o ro rs ro_rs)
        ∙ offset_laws.insert_law _ (block_key i ro o) d,
    offset_laws.insert_law _ (block_key i rs o) len,
    λ m o' lt.
        offset_laws.insert_other_law _ (block_key i m o') (block_key i rs o) len
          (other_offset i o' o m rs (apart lt))
        ∙ offset_laws.insert_other_law _ (block_key i m o') (block_key i ro o) d
            (other_offset i o' o m ro (apart lt))
        ∙ offset_laws.insert_other_law s.offset_map (block_key i m o') (block_key i wo (o + size))
            ((d + len) % 2 ^ 64) (other_offset i o' (o + size) m wo (apart (further lt))),
  )
    where
      apart : {a b : ℕ} → a < b → a ≢ b
      apart lt e = omega (arith, lt, e)

      further : {a : ℕ} → a < o → a < o + size
      further lt = omega (arith, lt)

  write_offset_lem :
      (s : Erasure P O) (i o d : ℕ)
      → 0 < o
      → get s.offset_map (block_key i wo o) ≡ some d
      → write_offset paths offsets i o s ≡ some d
  unfolding write_offset
  write_offset_lem s i o d some_bytes e = rw (nonzero o some_bytes) e

  place_block_lem :
      (s : Erasure P O) (i o size d len : ℕ)
      → write_offset paths offsets i o s ≡ some d
      → place_block paths offsets i o size len s
        ≡ some (tt, put_block paths offsets i o size d len s)
  unfolding place_block
  place_block_lem s i o size d len at_eq = rw (place_block, at_eq) refl

  -- A block recorded where one ends, or at the start.
  record_block_lem :
      (s : Erasure P O) (path : FilePath) (i n o size d len : ℕ)
      → get_file_id paths offsets path s ≡ some (i, record s { file_id = n })
      → write_offset paths offsets i o s ≡ some d
      → (z : P) × (record_block paths offsets path o size len s
          ≡ some (
            tt,
            put_block paths offsets i o size d len (record s {
              file_id = n;
              file_ids = hash_put paths s.file_ids path i;
              file_sizes = z;
            }),
          ))
        × (recorded paths z path ≡ max (recorded paths s.file_sizes path) (o + size))
  unfolding record_block write_offset
  record_block_lem s path i n o size d len id_eq at_eq =
      let (z, size_eq, grown) =
        increment_file_size_lem paths offsets path_laws offset_laws
          (record s { file_id = n; file_ids = hash_put paths s.file_ids path i }) path o size in
      (
        z,
        rw (id_eq, ◌>>=◌, size_eq)
            (place_block_lem
              (record s {
                file_id = n;
                file_ids = hash_put paths s.file_ids path i;
                file_sizes = z;
              })
              i o size d len at_eq),
        grown,
      )

  erasure_get_file_size_lem :
      (s : Erasure P O) (path : FilePath)
      → erasure_get_file_size paths offsets path s ≡ some (recorded paths s.file_sizes path, s)
  unfolding erasure_get_file_size
  erasure_get_file_size_lem s path = elim (option_cases (hash_get paths s.file_sizes path)) [
    | inl unknown ↦ rw (path_laws.contains_law s.file_sizes path, recorded, unknown) refl
    | inr (v, known) ↦ rw (path_laws.contains_law s.file_sizes path, recorded, known) refl
  ]

  offset_lem :
      (s : Erasure P O) (path : FilePath) (i o d : ℕ)
      → hash_get paths s.file_ids path ≡ some i
      → get s.offset_map (block_key i ro o) ≡ some d
      → d < 2 ^ 63
      → get_erasure_block_offset paths offsets path o s ≡ some (pos d, s)
  unfolding get_erasure_block_offset
  offset_lem s path i o d known found small =
      rw
        (
          get_file_id_known paths offsets path_laws offset_laws s path i known,
          ◌>>=◌,
          offset_laws.contains_law s.offset_map (block_key i ro o),
          found,
          lt→ltb d (2 ^ 63) small,
        )
        refl

  size_lem :
      (s : Erasure P O) (path : FilePath) (i o len : ℕ)
      → hash_get paths s.file_ids path ≡ some i
      → get s.offset_map (block_key i rs o) ≡ some len
      → get_erasure_block_size paths offsets path o s ≡ some (len, s)
  unfolding get_erasure_block_size
  size_lem s path i o len known found =
      rw
        (
          get_file_id_known paths offsets path_laws offset_laws s path i known,
          ◌>>=◌,
          offset_laws.contains_law s.offset_map (block_key i rs o),
          found,
        )
        refl

  module _ (lib : Liberasurecode) (k m : ℕ) (junk : ℕ → ℕ) (code : IsErasureCode lib k m)
      (path : FilePath) where
    erasure_encode_lem :
        (s t : Erasure P O) (b : Buffer) (o : ℕ)
        → record_block paths offsets path o (length b) (fragment_length lib b) s ≡ some (tt, t)
        → (shares : List Buffer) × (erasure_encode paths offsets lib k m junk path [] b o
              (length b)
              (k + m)
              s
            ≡ some (shares, t))
    unfolding erasure_encode
    erasure_encode_lem s t b o e = (
      (lib.encode b (length b)).0 ++ (lib.encode b (length b)).1,
      rw (◌>>=◌, e, fragments_lem paths offsets lib k m junk code b (length b)) refl,
    )

    at_start : (s : Erasure P O) (i : ℕ) → write_offset paths offsets i 0 s ≡ some 0
    unfolding write_offset
    at_start s i = refl

    abbrev end_of : ℕ → List Buffer → ℕ
    end_of o [] = 0
    end_of o (b ∷ bs) = o + (length b + total_length bs)

    end_next :
        (o : ℕ) (b : Buffer) (bs : List Buffer)
        → max (o + length b) (end_of (o + length b) bs) ≡ end_of o (b ∷ bs)
    end_next o b [] = omega arith
    end_next o b (c ∷ bs) = omega arith

    end_of_start : (bs : List Buffer) → end_of 0 bs ≡ total_length bs
    end_of_start [] = refl
    end_of_start (b ∷ bs) = omega arith

    write_blocks-from :
        (s : Erasure P O) (i n o d : ℕ) (bs : List Buffer)
        → get_file_id paths offsets path s ≡ some (i, record s { file_id = n })
        → write_offset paths offsets i o s ≡ some d
        → NonEmpty bs
        → d + stored_length lib bs < 2 ^ 63
        → (t : Erasure P O) × (write_blocks paths offsets lib k m junk path o bs s ≡ some (tt, t))
          × Placed paths offsets lib k m junk path t o d bs
          × ((mark : Mark) (o' : ℕ)
              → o' < o
              → get t.offset_map (block_key i mark o') ≡ get s.offset_map (block_key i mark o'))
          × (hash_get paths s.file_ids path ≡ some i → hash_get paths t.file_ids path ≡ some i)
          × (recorded paths t.file_sizes path
              ≡ max (recorded paths s.file_sizes path) (end_of o bs))
    unfolding write_blocks
    write_blocks-from s i n o d [] id_eq at_eq full small =
        (s, refl, tt, λ mark o' lt. refl, λ h. h, omega arith)
    write_blocks-from s i n o d (b ∷ bs) id_eq at_eq full small =
        let len = fragment_length lib b in
        let (z, rec_eq, grown) = record_block_lem s path i n o (length b) d len id_eq at_eq in
        let s' : Erasure P O = record s {
          file_id = n;
          file_ids = hash_put paths s.file_ids path i;
          file_sizes = z;
        } in
        let u : Erasure P O = put_block paths offsets i o (length b) d len s' in
        let (shares, encoded) = erasure_encode_lem s u b o rec_eq in
        let (wo_eq, ro_eq, rs_eq, kept) =
          put_block_lem s' i o (length b) d len (omega (arith, small)) full.0 in
        let known : hash_get paths u.file_ids path ≡ some i =
          path_laws.insert_law s.file_ids path i in
        let (t, written, placed, kept', known', grown') =
          write_blocks-from u i u.file_id (o + length b) (d + len) bs
            (get_file_id_known paths offsets path_laws offset_laws u path i known)
            (write_offset_lem u i (o + length b) (d + len) (omega (arith, full.0)) wo_eq) full.1
            (omega (arith, small)) in
        (
          t,
          rw (◌>>=◌, encoded) written,
          (
            offset_lem t path i o d (known' known) (kept' ro o (omega (arith, full.0)) ∙ ro_eq)
                (omega (arith, small)),
            size_lem t path i o len (known' known) (kept' rs o (omega (arith, full.0)) ∙ rs_eq),
            placed,
          ),
          λ mark o' lt. kept' mark o' (omega (arith, lt)) ∙ kept mark o' lt,
          λ _. known' known,
          omega (arith, grown, grown', end_next o b bs),
        )

    -- A file that the driver does not know, such as one that was just created, and that is written
    -- from its start block after block: every call succeeds, and afterwards the driver finds each block
    -- at the place where the fragments of the blocks before it end, with the length of its own
    -- fragments, and reports the sum of the lengths as the size of the file. Blocks have at least a byte,
    -- fragments on a device are less than 2 ^ 63 bytes together, and there are as many devices as fragments.
    pub write_blocks_lem :
        (s : Erasure P O) (bs : List Buffer)
        → hash_get paths s.file_ids path ≡ none
        → hash_get paths s.file_sizes path ≡ none
        → NonEmpty bs
        → stored_length lib bs < 2 ^ 63
        → (t : Erasure P O) × (write_blocks paths offsets lib k m junk path 0 bs s ≡ some (tt, t))
          × Placed paths offsets lib k m junk path t 0 0 bs
          × (erasure_get_file_size paths offsets path t ≡ some (total_length bs, t))
    write_blocks_lem s bs new no_size full small =
        let (t, written, placed, _, _, grown) =
          write_blocks-from s ((s.file_id + 1) % 2 ^ 64) ((s.file_id + 1) % 2 ^ 64) 0 0 bs
            (get_file_id_new paths offsets path_laws offset_laws s path new) (at_start s _) full
            (omega (arith, small)) in
        let none_recorded : recorded paths s.file_sizes path ≡ 0 = rw (recorded, no_size) refl in
        let size : recorded paths t.file_sizes path ≡ total_length bs =
          omega (arith, grown, none_recorded, end_of_start bs) in
        (t, written, placed, erasure_get_file_size_lem t path ∙ ap (λ n. some (n, t)) size)
