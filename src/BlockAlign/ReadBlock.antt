-- ===== src/BlockAlign/ReadBlock.antt =====
-- The bytes that `process_read_block` yields of one block.
use safefs.Prelude.{
  ℕ, zero, suc, ◌+◌, ◌-◌, ◌^◌, ◌≤◌, ◌<◌, min, ◌≡◌, refl, ap, ◌∙◌, inl, inr, some, arith, pos,
  to_int, to_u64, sub64, to_int_small, to_u64_small, sub64_le, le→ltb, ltb, leb, ◌==◌,
  if◌then◌else◌, Bool-cases, length, take, drop, splice, uninit, length-uninit, memcpy,
  memcpy-splice, length-take, length-drop, length-append, drop-drop,
}
use safefs.Layers.{FilePath, Buffer, FileInfo, Stat, FuseOperations}
use safefs.BlockAlign.Defs.{IoInfo, add64, read_amount, read_span, process_read_block, array_length}
use safefs.BlockAlign.Contract.{IsAligned, IsBlockFile}
use safefs.BlockAlign.Edit.{slice_of_read}

-- The bytes asked of the layer below: a whole block, or all that the file has left there.
read_amount_lem :
    (block_size size offset extra len : ℕ)
    → 0 < size
    → size + extra ≤ block_size
    → block_size < 2 ^ 31
    → offset ≤ len
    → len < 2 ^ 31
    → (n : ℕ) × (read_amount block_size size offset extra len ≡ pos n)
      × (size + extra ≤ n)
      × (n ≤ block_size)
      × (min block_size (len - offset) ≤ n)
unfolding read_amount to_int sub64
read_amount_lem block_size size offset extra len p fits small h l = (
  min block_size (if leb (len - offset) (size + extra) then size + extra else (len - offset)),
  ground arith,
  ground arith,
  ground arith,
  ground arith,
)

pub array_length_pos : (n : ℕ) → 0 < n → array_length (pos n) ≡ some n
array_length_pos zero h = absurd (omega arith)
array_length_pos (suc n) h = refl

copy_span :
    (c buf aux : Buffer) (n offset extra m : ℕ)
    → m ≤ length buf
    → extra + m ≤ min n (length c - offset)
    → memcpy buf 0 (drop extra (splice 0 (take n (drop offset c)) aux)) m
      ≡ some (splice 0 (take m (drop (offset + extra) c)) buf)
copy_span c buf aux n offset extra m room h =
    memcpy-splice buf 0 src m (omega arith) enough
    ∙ ap (λ t. some (splice 0 t buf)) (slice_of_read n extra m (drop offset c) aux inside)
    ∙ ap (λ t. some (splice 0 (take m t) buf)) (drop-drop extra offset c)
  where
    read : Buffer
    read = take n (drop offset c)

    src : Buffer
    src = drop extra (splice 0 read aux)

    inside : extra + m ≤ min n (length (drop offset c))
    inside = omega (arith, length-drop offset c)

    enough : m ≤ length src
    enough = omega (
      arith,
      length-drop extra (splice 0 read aux),
      length-append read (drop (0 + length read) aux),
      length-take n (drop offset c),
      inside,
    )

module _ {S : Type 0} {block_size : ℕ} {path : FilePath} {fi : FileInfo} {next : FuseOperations S}
    {Holds : S → Buffer → Type 0} (lower : IsBlockFile block_size path fi next Holds) (junk : ℕ → ℕ)
    (junk_stat : Stat) (small : block_size < 2 ^ 31) where
  abbrev info : IoInfo S
  info = record { path = path; fi = fi; nextlayer = next }

  abbrev amount : Buffer → ℕ → ℕ → ℕ → ℕ
  amount c offset extra size = min size (length c - (offset + extra))

  -- `process_read_block`, once the span to read is known to cover what is asked and what is there.
  read_span_lem :
      (s : S) (c buf : Buffer) (size offset extra n : ℕ)
      → Holds s c
      → IsAligned block_size offset
      → offset + extra ≤ length c
      → length c < 2 ^ 31
      → 0 < size
      → size + extra ≤ n
      → n ≤ block_size
      → min block_size (length c - offset) ≤ n
      → size ≤ length buf
      → (s' : S) × (read_span block_size junk junk_stat buf size offset extra (pos n) info s
          ≡ some (
            (
              pos (amount c offset extra size),
              splice 0 (take (amount c offset extra size) (drop (offset + extra) c)) buf,
            ),
            s',
          ))
        × Holds s' c
  unfolding read_span
  read_span_lem s c buf size offset extra n h al inside l p fits le covers room =
      let m = amount c offset extra size in
      let span = min n (length c - offset) in
      let (s', e, h') =
        lower.read_law s c (uninit junk n) n offset h al (omega arith) le covers
          (omega (arith, length-uninit junk n)) in
      let got : sub64 (to_u64 (pos span)) extra ≡ span - extra =
        rw (to_u64_small span (omega arith)) (sub64_le span extra (omega arith) (omega arith)) in
      let least : (if ltb size (span - extra) then size else (span - extra)) ≡ m = ground arith in
      (
        s',
        rw
            (
              array_length_pos n (omega arith),
              e,
              got,
              le→ltb (span - extra) 0 (omega arith),
              least,
              to_int_small m (omega arith),
              to_u64_small m (omega arith),
              copy_span c buf (uninit junk n) n offset extra m (omega arith) (omega arith),
            )
            refl,
        h',
      )

  -- `process_read_block` yields what the block has of the range asked for.
  pub process_read_block_lem :
      (s : S) (c buf : Buffer) (size offset extra : ℕ)
      → Holds s c
      → IsAligned block_size offset
      → offset + extra ≤ length c
      → length c < 2 ^ 31
      → 0 < size
      → size + extra ≤ block_size
      → size ≤ length buf
      → (s' : S) × (process_read_block block_size junk junk_stat buf size offset extra info s
          ≡ some (
            (
              pos (amount c offset extra size),
              splice 0 (take (amount c offset extra size) (drop (offset + extra) c)) buf,
            ),
            s',
          ))
        × Holds s' c
  unfolding process_read_block
  process_read_block_lem s c buf size offset extra h al inside l p fits room =
      elim (Bool-cases (add64 size extra == block_size)) [
        | inl whole ↦ rw whole (
            read_span_lem s c buf size offset extra block_size h al inside l p fits (omega arith)
              (omega arith) room)
        | inr part ↦
            (let (st, t, e, same, h') = lower.size_law s c junk_stat h in
              let (n, amount_eq, asked, le, covers) =
                read_amount_lem block_size size offset extra (length c) p fits small (omega arith)
                  l in
              rw (part, e, same, to_u64_small (length c) (omega arith), amount_eq)
                (read_span_lem t c buf size offset extra n h' al inside l p asked le covers room))
      ]
