-- ===== src/EcLayer/Blocks.antt =====
-- ec_layer/erasure.c and ec_layer/erasure.h: a file as fragments of an erasure code, in memory and as
-- files of their own. `none` as a result is a failed assertion or an access out of bounds.
use safefs.Prelude.{
  ℕ, zero, suc, ◌+◌, Option, none, some, if◌then◌else◌, ltb, leb, List, [], ◌∷◌, ◌++◌, length, take,
  Action, pure, lift, ◌>>=◌, ◌&&◌, splice, uninit,
}
use safefs.Layers.{FilePath, Buffer}
use safefs.Config.{codes}
use safefs.Erasure.{Liberasurecode}

-- `struct encoded_file`; `none` is a null pointer.
pub record EncodedFile : Type 0 where
  pub data_blocks : Option (List Buffer)
  pub parity_blocks : Option (List Buffer)
  pub data_blocks_location : Option (List FilePath)
  pub parity_blocks_location : Option (List FilePath)
  pub size : ℕ
  pub fragment_size : ℕ

-- The functions of stdio.h: `fopen` with "w+", `fwrite` and `fclose`; and `fopen` with "r" and
-- `fread`, which yields what the file has. `none` is a file that cannot be opened, whose null pointer
-- is followed. `lu5` is "%05lu" of `sprintf`.
pub record Stdio (W : Type 0) : Type 0 where
  pub write_file : FilePath → Buffer → W → Option W
  pub read_file : FilePath → W → Option Buffer
  pub lu5 : ℕ → FilePath

unfoldable pub encoded_file_new : EncodedFile
encoded_file_new = record {
  data_blocks = none;
  parity_blocks = none;
  data_blocks_location = none;
  parity_blocks_location = none;
  size = 0;
  fragment_size = 0;
}

-- The first `n` arrays of a list, each of which is copied up to a length.
unfoldable pub copy_blocks : List Buffer → ℕ → ℕ → Option (List Buffer)
copy_blocks blocks fragment_length zero = some []
copy_blocks [] fragment_length (suc n) = none
copy_blocks (b ∷ blocks) fragment_length (suc n) =
    let rest = copy_blocks blocks fragment_length n in
    if leb fragment_length (length b)
    then elim rest [ none ↦ none | some bs ↦ some (take fragment_length b ∷ bs) ]
    else none

-- The first `n` names of a list.
unfoldable pub copy_names : List FilePath → ℕ → Option (List FilePath)
copy_names names zero = some []
copy_names [] (suc n) = none
copy_names (name ∷ names) (suc n) = elim (copy_names names n) [
  | none ↦ none
  | some rest ↦ some (name ∷ rest)
]

-- What stands behind a pointer, if it is not null.
abbrev copy_if {ℓ} : {A : Type ℓ} → (A → Option A) → Option A → Option (Option A)
copy_if copy none = some none
copy_if copy (some a) = elim (copy a) [ none ↦ none | some b ↦ some (some b) ]

module _ {W : Type 0} (io : Stdio W) where
  abbrev pub block_name : FilePath → FilePath → ℕ → FilePath
  block_name suffix path i = path ++ (b'-' ∷ (io.lu5 i ++ suffix))

  -- PATH_MAX is 4096; a longer name overflows its array.
  unfoldable pub dump_list :
      FilePath → FilePath → ℕ → List Buffer → ℕ → ℕ → Action W (List FilePath)
  dump_list suffix path fragment_size blocks i zero w = some ([], w)
  dump_list suffix path fragment_size [] i (suc n) w = none
  dump_list suffix path fragment_size (b ∷ blocks) i (suc n) w =
      let rest = dump_list suffix path fragment_size blocks (i + 1) n in
      let name = block_name suffix path i in
      elim (if ltb (length name) 4096 && leb fragment_size (length b)
        then io.write_file name (take fragment_size b) w
        else none) [
          | none ↦ none
          | some w' ↦ elim (rest w') [ none ↦ none | some (names, v) ↦ some (name ∷ names, v) ]
        ]

  -- `fread` leaves the rest of an array that the file does not fill as `malloc` gave it.
  unfoldable pub load_list : (ℕ → ℕ) → List FilePath → ℕ → ℕ → W → Option (List Buffer)
  load_list junk names fragment_size zero w = some []
  load_list junk [] fragment_size (suc n) w = none
  load_list junk (name ∷ names) fragment_size (suc n) w =
      let rest = load_list junk names fragment_size n w in
      elim (io.read_file name w) [
        | none ↦ none
        | some bytes ↦ elim rest [
          | none ↦ none
          | some bs ↦ some (splice 0 (take fragment_size bytes) (uninit junk fragment_size) ∷ bs)
        ]
      ]

-- K and M, which `erasure_init` sets.
module _ (lib : Liberasurecode) (k m : ℕ) where
  -- The array for the names of the parity fragments has the room for `k`.
  unfoldable pub encoded_file_copy : EncodedFile → Option EncodedFile
  unfolding copy_blocks copy_names
  encoded_file_copy file =
      elim (copy_if (λ bs. copy_blocks bs file.fragment_size k) file.data_blocks) [
        | none ↦ none
        | some ds ↦ elim (copy_if (λ bs. copy_blocks bs file.fragment_size m) file.parity_blocks) [
          | none ↦ none
          | some ps ↦ elim (copy_if (λ ns. copy_names ns k) file.data_blocks_location) [
            | none ↦ none
            | some dl ↦
                elim (copy_if (λ ns. if leb m k then copy_names ns m else none)
                  file.parity_blocks_location) [
                    | none ↦ none
                    | some pl ↦ some (record {
                      data_blocks = ds;
                      parity_blocks = ps;
                      data_blocks_location = dl;
                      parity_blocks_location = pl;
                      size = file.size;
                      fragment_size = file.fragment_size;
                    })
                  ]
          ]
        ]
      ]

  unfoldable pub encode : Buffer → ℕ → Option EncodedFile
  unfolding copy_blocks encoded_file_new
  encode bytes size =
      let (data_blocks, parity_blocks, fragment_length) = lib.encode bytes size in
      elim (copy_blocks data_blocks fragment_length k) [
        | none ↦ none
        | some ds ↦ elim (copy_blocks parity_blocks fragment_length m) [
          | none ↦ none
          | some ps ↦ some (record encoded_file_new {
            data_blocks = some ds;
            parity_blocks = some ps;
            size = size;
            fragment_size = fragment_length;
          })
        ]
      ]

  -- Only the data fragments are decoded.
  unfoldable pub decode : EncodedFile → Option Buffer
  decode encoded_data = elim encoded_data.data_blocks [
    | none ↦ none
    | some ds ↦ elim encoded_data.parity_blocks [
      | none ↦ none
      | some ps ↦
          let (buffer, decoded_data_length) = lib.decode ds k encoded_data.fragment_size in
          if leb decoded_data_length (length buffer)
          then some (take decoded_data_length buffer)
          else none
    ]
  ]

  module _ {W : Type 0} (io : Stdio W) (junk : ℕ → ℕ) where
    -- The record that `ef` points to, as it is left.
    unfoldable pub dump_blocks : EncodedFile → FilePath → Action W EncodedFile
    unfolding dump_list
    dump_blocks ef path = do
      ds ← lift ef.data_blocks
      data_names ← dump_list io (codes ".data") path ef.fragment_size ds 0 k
      ps ← lift ef.parity_blocks
      parity_names ← dump_list io (codes ".parity") path ef.fragment_size ps 0 m
      pure (record ef {
        data_blocks = none;
        parity_blocks = none;
        data_blocks_location = some data_names;
        parity_blocks_location = some parity_names;
      })

    unfoldable pub load_blocks : EncodedFile → W → Option EncodedFile
    unfolding load_list
    load_blocks ef w = elim ef.data_blocks_location [
      | none ↦ none
      | some data_names ↦ elim ef.parity_blocks_location [
        | none ↦ none
        | some parity_names ↦ elim (load_list io junk data_names ef.fragment_size k w) [
          | none ↦ none
          | some ds ↦ elim (load_list io junk parity_names ef.fragment_size m w) [
            | none ↦ none
            | some ps ↦ some (record ef { data_blocks = some ds; parity_blocks = some ps })
          ]
        ]
      ]
    ]
