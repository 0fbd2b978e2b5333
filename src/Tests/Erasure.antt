-- ===== src/Tests/Erasure.antt =====
-- The erasure driver with tables that are functions, and a code of two data fragments, the block twice,
-- and a parity fragment, the block again.
use mathlib.Core.List.{List-discrete}
use native.Mathlib.Decide.{ℕ_discrete}
use safefs.Prelude.{
  ℕ, ℤ, zero, suc, neg_one, ◌≡◌, ◌≢◌, refl, sym, ap, ◌∙◌, Option, none, some, arith, List, [], ◌∷◌,
  length, take, length-take, min,
}
use safefs.Layers.{FilePath, Buffer}
use safefs.Erasure.{
  Table, IsTable, is_some, hash_put, OffsetKey, block_key, Mark, wo, ro, rs, Erasure,
  Liberasurecode, get_erasure_block_offset, get_file_id, erasure_get_file_size, erasure_rename,
  erasure_decode, fragments,
}
use safefs.Erasure.Keys.{dec_path}
use safefs.Tests.Blocks.{junk0, path0}
use safefs.Erasure.Ids.{IsConsistent}
use safefs.Erasure.Steps.{
  Run, here, next, block_offset, file_size, IsEmpty, Run-IsConsistent, get_erasure_block_offset-new,
}
use safefs.Erasure.Code.{IsErasureCode, erasure_decode-fragments}
use safefs.Erasure.Sequence.{write_blocks, Placed, write_blocks_lem}
use safefs.Erasure.Rename.{erasure_rename-unwritten}

module _ {K : Type 0} (dec : (a b : K) → Dec (a ≡ b)) where
  abbrev functions : Table (K → Option ℕ) K
  functions = record {
    g_hash_table_contains = λ t k. is_some (t k);
    g_hash_table_insert = λ t k v j. elim (dec j k) [ yes _ ↦ some v | no _ ↦ t j ];
    g_hash_table_lookup = λ t k. t k;
    g_hash_table_remove = λ t k j. elim (dec j k) [ yes _ ↦ none | no _ ↦ t j ];
  }

  at_same : {A : Type 0} (k : K) (x y : A) → elim (dec k k) [ yes _ ↦ x | no _ ↦ y ] ≡ x
  at_same k x y = go (dec k k)
    where
      go : (d : Dec (k ≡ k)) → elim d [ yes _ ↦ x | no _ ↦ y ] ≡ x
      go (yes _) = refl
      go (no other) = absurd (other refl)

  at_other : {A : Type 0} (j k : K) (x y : A) → j ≢ k → elim (dec j k) [ yes _ ↦ x | no _ ↦ y ] ≡ y
  at_other j k x y other = go (dec j k)
    where
      go : (d : Dec (j ≡ k)) → elim d [ yes _ ↦ x | no _ ↦ y ] ≡ y
      go (yes same) = absurd (other same)
      go (no _) = refl

  functions-IsTable : IsTable functions
  functions-IsTable = record {
    contains_law = λ t k. refl;
    insert_law = λ t k v. at_same k (some v) (t k);
    insert_other_law = λ t j k v other. at_other j k (some v) (t j) other;
    remove_law = λ t k. at_same k none (t k);
    remove_other_law = λ t j k other. at_other j k none (t j) other;
  }

abbrev mark_number : Mark → ℕ
mark_number wo = 0
mark_number ro = 1
mark_number rs = 2

abbrev numbers : OffsetKey → List ℕ
numbers key = key.id ∷ mark_number key.mark ∷ key.offset ∷ []

abbrev number_mark : ℕ → Mark
number_mark zero = wo
number_mark (suc zero) = ro
number_mark (suc (suc n)) = rs

abbrev numbered : List ℕ → OffsetKey
numbered (i ∷ m ∷ o ∷ []) = block_key i (number_mark m) o
numbered _ = block_key 0 wo 0

numbered-numbers : (i o : ℕ) (m : Mark) → numbered (numbers (block_key i m o)) ≡ block_key i m o
numbered-numbers i o wo = refl
numbered-numbers i o ro = refl
numbered-numbers i o rs = refl

dec_key : (a b : OffsetKey) → Dec (a ≡ b)
dec_key a b = elim (List-discrete ℕ_discrete (numbers a) (numbers b)) [
  | yes same ↦ yes (
      sym (numbered-numbers a.id a.offset a.mark)
      ∙ ap numbered same
      ∙ numbered-numbers b.id b.offset b.mark)
  | no other ↦ no (λ e. other (ap numbers e))
]

abbrev thrice : Liberasurecode
thrice = record {
  encode = λ block n. (take n block ∷ take n block ∷ [], take n block ∷ [], min n (length block));
  decode = λ shares num len. (elim shares [ [] ↦ [] | e ∷ _ ↦ e ], len);
}

thrice-IsErasureCode : IsErasureCode thrice 2 1
thrice-IsErasureCode = record {
  data_law = λ block n. refl;
  parity_law = λ block n. refl;
  data_length_law = λ block n. (length-take n block, (length-take n block, tt));
  parity_length_law = λ block n. (length-take n block, tt);
  decode_law = λ block n inside.
      ap (λ len. (take n block, len)) {x = min n (length block)} (omega (arith, inside));
}

abbrev Driver : Type 0
Driver = Erasure (FilePath → Option ℕ) (OffsetKey → Option ℕ)

abbrev start : Driver
start = record { offset_map = λ _. none; file_ids = λ _. none; file_sizes = λ _. none; file_id = 0 }

start-IsEmpty : IsEmpty (functions dec_path) (functions dec_key) start
start-IsEmpty = record { no_id = refl; no_path = λ p. refl; no_block = λ key. refl }

-- A lookup, which gives out an identifier, and a question for a size.
abbrev asked : Driver
asked = record start { file_id = 1 }

asked-Run : Run (functions dec_path) (functions dec_key) thrice 2 1 junk0 start 2 asked
unfolding get_erasure_block_offset get_file_id erasure_get_file_size
asked-Run = next (next here (block_offset path0 0 neg_one refl)) (file_size path0 0 refl)

Run-IsConsistent_example :
    IsConsistent
      (functions dec_path)
      (functions dec_key)
      (functions-IsTable dec_path)
      (functions-IsTable dec_key)
      asked
Run-IsConsistent_example =
    Run-IsConsistent (functions dec_path) (functions dec_key) (functions-IsTable dec_path)
      (functions-IsTable dec_key) thrice 2 1 junk0 start start-IsEmpty asked-Run (omega arith)

get_erasure_block_offset-new_example :
    (u : Driver) × (get_erasure_block_offset
        (functions dec_path)
        (functions dec_key)
        path0
        4096
        asked
      ≡ some (neg_one, u))
get_erasure_block_offset-new_example =
    get_erasure_block_offset-new (functions dec_path) (functions dec_key)
      (functions-IsTable dec_path) (functions-IsTable dec_key) thrice 2 1 junk0 start path0 4096
      start-IsEmpty asked-Run (omega arith) refl

erasure_decode-fragments_example :
    (shares : List Buffer) × (fragments
        (functions dec_path)
        (functions dec_key)
        thrice
        2
        1
        junk0
        (5 ∷ 6 ∷ 7 ∷ [])
        2
        3
      ≡ some shares)
    × (length shares ≡ 3)
    × (erasure_decode
          (functions dec_path)
          (functions dec_key)
          thrice
          2
          1
          junk0
          (0 ∷ 0 ∷ 0 ∷ [])
          shares
          2
          3
          start
        ≡ some (5 ∷ 6 ∷ 0 ∷ [], start))
erasure_decode-fragments_example =
    erasure_decode-fragments (functions dec_path) (functions dec_key) thrice 2 1 junk0
      thrice-IsErasureCode start (0 ∷ 0 ∷ 0 ∷ []) (5 ∷ 6 ∷ 7 ∷ []) 2 (omega arith) (omega arith)
      (omega arith)

abbrev two_blocks : List Buffer
two_blocks = (1 ∷ 2 ∷ []) ∷ (3 ∷ []) ∷ []

write_blocks_lem_example :
    (t : Driver) × (write_blocks
        (functions dec_path)
        (functions dec_key)
        thrice
        2
        1
        junk0
        path0
        0
        two_blocks
        start
      ≡ some (tt, t))
    × Placed (functions dec_path) (functions dec_key) thrice 2 1 junk0 path0 t 0 0 two_blocks
    × (erasure_get_file_size (functions dec_path) (functions dec_key) path0 t ≡ some (3, t))
write_blocks_lem_example =
    write_blocks_lem (functions dec_path) (functions dec_key) (functions-IsTable dec_path)
      (functions-IsTable dec_key) thrice 2 1 junk0 thrice-IsErasureCode path0 start two_blocks refl
      refl (omega arith, (omega arith, tt)) (omega arith)

abbrev path1 : FilePath
path1 = 47 ∷ 98 ∷ []

other_path : path0 ≢ path1
other_path e = omega (arith, ap last_byte e)
  where
    last_byte : FilePath → ℕ
    last_byte (_ ∷ n ∷ []) = n
    last_byte _ = 0

-- `path0` is a file of three bytes.
abbrev written : Driver
written = record start {
  file_ids = hash_put (functions dec_path) (λ _. none) path0 1;
  file_sizes = hash_put (functions dec_path) (λ _. none) path0 3;
  file_id = 1;
}

-- `path1` was never written, and replaces it.
erasure_rename-unwritten_example :
    (t : Driver) × (erasure_rename (functions dec_path) (functions dec_key) path1 path0 written
      ≡ some (tt, t))
    × (erasure_get_file_size (functions dec_path) (functions dec_key) path0 t ≡ some (3, t))
    × ((o : ℕ) (r : ℤ)
        → get_erasure_block_offset (functions dec_path) (functions dec_key) path0 o written
          ≡ some (r, written)
        → get_erasure_block_offset (functions dec_path) (functions dec_key) path0 o t ≡ some (r, t))
erasure_rename-unwritten_example =
    erasure_rename-unwritten (functions dec_path) (functions dec_key) (functions-IsTable dec_path)
      (functions-IsTable dec_key) written path1 path0 3
      (at_other dec_path path1 path0 (some 1) none (λ e. other_path (sym e)))
      (at_other dec_path path1 path0 (some 3) none (λ e. other_path (sym e)))
      (at_same dec_path path0 (some 3) none)
