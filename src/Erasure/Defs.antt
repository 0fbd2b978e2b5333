-- ===== src/Erasure/Defs.antt =====
-- The functions of multi_loop_drivers/erasure.c. Each mutex only keeps the steps of one function
-- together, which are one step here.
use safefs.Prelude.{
  ℕ, zero, suc, ◌+◌, ◌-◌, ◌%◌, ◌^◌, ◌==◌, ltb, not, Option, none, some, ℤ, pos, negsuc, neg_one,
  to_int, if◌then◌else◌, List, ◌∷◌, ◌++◌, take, drop, replicate, Action, fault, lift, ◌>>=◌, uninit,
  memcpy,
}
use safefs.Layers.{FilePath, Buffer, MultiDriver}
use safefs.Erasure.Map.{Table, hash_contains_key, hash_put, hash_get, move_key, remove_keys}

-- The middle of a key of `offset_map`, ":wo:", ":ro:" or ":rs:".
pub data Mark : Type 0 where
  wo ro rs : Mark

-- A key of `offset_map`: `sprintf` prints different keys for different numbers.
pub record OffsetKey : Type 0 where
  pub id : ℕ
  pub mark : Mark
  pub offset : ℕ

abbrev pub block_key : ℕ → Mark → ℕ → OffsetKey
block_key id mark offset = record { id = id; mark = mark; offset = offset }

-- The globals that change.
pub record Erasure (P O : Type 0) : Type 0 where
  pub offset_map : O
  pub file_ids : P
  pub file_sizes : P
  pub file_id : ℕ

-- `liberasurecode_encode` yields the data and the parity fragments and their length, and
-- `liberasurecode_decode` the bytes that it made out and how many. The driver drops their result codes.
pub record Liberasurecode : Type 0 where
  pub encode : Buffer → ℕ → (List Buffer × List Buffer × ℕ)
  pub decode : List Buffer → ℕ → ℕ → (Buffer × ℕ)

-- A `uint64_t` stored in an `off_t`.
abbrev pub to_off : ℕ → ℤ
to_off n = if ltb n (2 ^ 63) then pos n else negsuc (2 ^ 64 - n - 1)

-- A loop that copies `n` fragments, to the first of the blocks.
unfoldable pub copy_fragments : List Buffer → List Buffer → ℕ → ℕ → Option (List Buffer)
copy_fragments magicblocks encoded fragment_length zero = some magicblocks
copy_fragments (b ∷ magicblocks) (e ∷ encoded) fragment_length (suc n) =
    elim (memcpy b 0 e fragment_length) [
      | none ↦ none
      | some b' ↦ elim (copy_fragments magicblocks encoded fragment_length n) [
        | none ↦ none
        | some bs ↦ some (b' ∷ bs)
      ]
    ]
copy_fragments magicblocks encoded fragment_length (suc n) = none

module _ {P O : Type 0} (paths : Table P FilePath) (offsets : Table O OffsetKey) where
  unfoldable pub get_file_id : FilePath → Action (Erasure P O) ℕ
  get_file_id path s =
      if not (hash_contains_key paths s.file_ids path)
      then (let file_id = (s.file_id + 1) % 2 ^ 64 in
          some (file_id, record s { file_id = file_id }))
      else lift (hash_get paths s.file_ids path) s

  abbrev pub offset_of_block : ℕ → ℕ → Action (Erasure P O) ℤ
  offset_of_block file_id offset s =
      let start_offset = block_key file_id ro offset in
      if not (hash_contains_key offsets s.offset_map start_offset)
      then some (neg_one, s)
      else lift
          (elim (hash_get offsets s.offset_map start_offset) [
            | none ↦ none
            | some driver_offset ↦ some (to_off driver_offset)
          ])
          s

  unfoldable pub get_erasure_block_offset : FilePath → ℕ → Action (Erasure P O) ℤ
  unfolding get_file_id
  get_erasure_block_offset path offset = do
    file_id ← get_file_id path
    offset_of_block file_id offset

  -- -1 stored in a `uint64_t` is 2 ^ 64 - 1.
  abbrev pub size_of_block : ℕ → ℕ → Action (Erasure P O) ℕ
  size_of_block file_id offset s =
      let stop_offset = block_key file_id rs offset in
      if not (hash_contains_key offsets s.offset_map stop_offset)
      then some (2 ^ 64 - 1, s)
      else lift (hash_get offsets s.offset_map stop_offset) s

  unfoldable pub get_erasure_block_size : FilePath → ℕ → Action (Erasure P O) ℕ
  unfolding get_file_id
  get_erasure_block_size path offset = do file_id ← get_file_id path; size_of_block file_id offset

  unfoldable pub erasure_get_file_size : FilePath → Action (Erasure P O) ℕ
  erasure_get_file_size path s =
      if not (hash_contains_key paths s.file_sizes path)
      then some (0, s)
      else lift (hash_get paths s.file_sizes path) s

  unfoldable pub increment_file_size : FilePath → ℕ → ℕ → Action (Erasure P O) (Unit {0})
  unfolding erasure_get_file_size
  increment_file_size path offset block_size = do
    current_size ← erasure_get_file_size path
    λ s.
        if ltb current_size (offset + block_size)
        then (let diff = offset + block_size - current_size in
            some (
              tt,
              record s { file_sizes = hash_put paths s.file_sizes path (current_size + diff) },
            ))
        else some (tt, s)

  -- Where the fragments of a block that starts at `offset` go: behind those of the block that ends
  -- there. There is no block to follow when none ended there, which is a null pointer.
  unfoldable pub write_offset : ℕ → ℕ → Erasure P O → Option ℕ
  write_offset file_id offset s =
      if offset == 0
      then some offset
      else hash_get offsets s.offset_map (block_key file_id wo offset)

  -- The three entries of a block of `size` bytes at `offset`.
  abbrev pub put_block : ℕ → ℕ → ℕ → ℕ → ℕ → Erasure P O → Erasure P O
  put_block file_id offset size erasure_offset fragment_length s =
      let next = (block_key file_id wo (offset + size)) in
      let start = block_key file_id ro offset in
      let length = block_key file_id rs offset in
      let m = hash_put offsets s.offset_map next ((erasure_offset + fragment_length) % 2 ^ 64) in
      let m' = hash_put offsets m start erasure_offset in
      record s { offset_map = hash_put offsets m' length fragment_length }

  unfoldable pub place_block : ℕ → ℕ → ℕ → ℕ → Action (Erasure P O) (Unit {0})
  unfolding write_offset
  place_block file_id offset size fragment_length s = elim (write_offset file_id offset s) [
    | none ↦ none
    | some erasure_offset ↦
        some (tt, put_block file_id offset size erasure_offset fragment_length s)
  ]

  abbrev pub put_file_id : FilePath → ℕ → Action (Erasure P O) (Unit {0})
  put_file_id path file_id s =
      some (tt, record s { file_ids = hash_put paths s.file_ids path file_id })

  -- `erasure_encode` up to the fragments.
  unfoldable pub record_block : FilePath → ℕ → ℕ → ℕ → Action (Erasure P O) (Unit {0})
  unfolding get_file_id increment_file_size place_block
  record_block path offset size fragment_length = do
    file_id ← get_file_id path
    _ ← put_file_id path file_id
    _ ← increment_file_size path offset size
    place_block file_id offset size fragment_length

  module _ (lib : Liberasurecode) (k m : ℕ) (junk : ℕ → ℕ) where
    unfoldable pub fragments : Buffer → ℕ → ℕ → Option (List Buffer)
    unfolding copy_fragments
    fragments block size ndevs =
        let (encoded_data, encoded_parity, fragment_length) = lib.encode block size in
        let magicblocks = replicate ndevs (uninit junk fragment_length) in
        elim (copy_fragments magicblocks encoded_data fragment_length k) [
          | none ↦ none
          | some bs ↦ elim (copy_fragments (drop k bs) encoded_parity fragment_length m) [
            | none ↦ none
            | some rest ↦ some (take k bs ++ rest)
          ]
        ]

    -- The pointers that `magicblocks` held before are dropped.
    unfoldable pub erasure_encode :
        FilePath → List Buffer → Buffer → ℕ → ℕ → ℕ → Action (Erasure P O) (List Buffer)
    unfolding record_block fragments
    erasure_encode path magicblocks block offset size ndevs = do
      _ ← record_block path offset size (lib.encode block size).2
      lift (fragments block size ndevs)

    unfoldable pub erasure_decode : Buffer → List Buffer → ℕ → ℕ → Action (Erasure P O) Buffer
    erasure_decode block magicblocks size ndevs =
        let (decoded_block, decoded_size) = lib.decode magicblocks ndevs size in
        elim (to_int decoded_size) [
          | pos n ↦ lift (memcpy block 0 decoded_block n)
          | negsuc _ ↦ fault
        ]

  unfoldable pub erasure_rename : FilePath → FilePath → Action (Erasure P O) (Unit {0})
  unfolding move_key
  erasure_rename from to s = some (
    tt,
    record s {
      file_ids = move_key paths s.file_ids from to;
      file_sizes = move_key paths s.file_sizes from to;
    },
  )

  unfoldable pub erasure_create : FilePath → Action (Erasure P O) (Unit {0})
  erasure_create path s = some (
    tt,
    record s {
      file_sizes = remove_keys paths s.file_sizes path;
      file_ids = remove_keys paths s.file_ids path;
    },
  )

  -- The driver that ERASURE of init_multi_loopback_driver selects.
  unfoldable pub erasure_driver : Liberasurecode → ℕ → ℕ → (ℕ → ℕ) → MultiDriver (Erasure P O)
  unfolding erasure_encode erasure_decode get_erasure_block_offset get_erasure_block_size
      erasure_get_file_size erasure_rename erasure_create
  erasure_driver lib k m junk = record {
    encode = erasure_encode lib k m junk;
    decode = erasure_decode lib k m junk;
    get_driver_offset = get_erasure_block_offset;
    get_driver_size = get_erasure_block_size;
    get_file_size = erasure_get_file_size;
    rename_keys = erasure_rename;
    create_keys = erasure_create;
  }
