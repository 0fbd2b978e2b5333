-- ===== src/EcLayer/Defs.antt =====
-- ec_layer/ec_layer.c: the callbacks. The hash table of GLib is the list of what it holds.
use safefs.Prelude.{
  ℕ, ◌+◌, ◌-◌, ◌^◌, ◌%◌, ◌==◌, Bool, true, false, ◌||◌, Option, none, some, ℤ, pos, neg, neg_one,
  eq_ℤ, if◌then◌else◌, leb, List, [], ◌∷◌, ◌++◌, length, drop, Action, pure, lift, ◌>>=◌, ◌>>◌,
  memcpy, uninit,
}
use safefs.Layers.{FilePath, Buffer, FileInfo, Stat}
use safefs.Config.{codes, eq_string, starts_with}
use safefs.Erasure.{Liberasurecode}
use safefs.MultiLoopback.Posix.{Posix}
use safefs.MultiLoopback.Directory.{c_string}
use safefs.EcLayer.Blocks.{
  EncodedFile, Stdio, encoded_file_new, encoded_file_copy, encode, decode, dump_blocks, load_blocks,
}

-- FILES and DIRECTORIES, beside the world.
pub record Ec (W : Type 0) : Type 0 where
  pub world : W
  pub files : List (FilePath × EncodedFile)
  pub directories : List FilePath

abbrev pub lookup_file : List (FilePath × EncodedFile) → FilePath → Option EncodedFile
lookup_file [] path = none
lookup_file ((key, ef) ∷ files) path =
    if eq_string key path then some ef else lookup_file files path

abbrev pub insert_file :
    List (FilePath × EncodedFile) → FilePath → EncodedFile → List (FilePath × EncodedFile)
insert_file [] path new = (path, new) ∷ []
insert_file ((key, ef) ∷ files) path new =
    if eq_string key path then (key, new) ∷ files else (key, ef) ∷ insert_file files path new

abbrev pub is_member : List FilePath → FilePath → Bool
is_member [] path = false
is_member (d ∷ ds) path = eq_string d path || is_member ds path

-- The first of them that is found goes.
abbrev remove_first : List FilePath → FilePath → List FilePath
remove_first [] path = []
remove_first (d ∷ ds) path = if eq_string d path then ds else d ∷ remove_first ds path

abbrev pub is_some_file : Option EncodedFile → Bool
is_some_file none = false
is_some_file (some _) = true

-- -ENOENT, and the modes S_IFDIR | 0777 and S_IFREG | 0777
abbrev pub enoent : ℤ
enoent = neg (pos 2)

abbrev pub directory_mode : ℕ
directory_mode = 16895

abbrev pub regular_mode : ℕ
regular_mode = 33279

unfoldable pub is_ancestor_directory : FilePath → FilePath → ℕ
is_ancestor_directory parent kid =
    if leb (length kid) (length parent)
    then 0
    else (if starts_with parent kid then length parent else 0)

-- Where the first slash is.
abbrev find_slash : FilePath → Option ℕ
find_slash [] = none
find_slash (c ∷ rest) =
    let further = find_slash rest in
    if c == b'/' then some 0 else elim further [ none ↦ none | some i ↦ some (i + 1) ]

-- `position` is the distance as a `size_t`, and it is compared with a comparison, which is 1.
unfoldable pub is_parent_directory : FilePath → FilePath → Bool
unfolding is_ancestor_directory
is_parent_directory parent kid =
    let end_of_prefix = is_ancestor_directory parent kid in
    if end_of_prefix == 0 then false else elim (find_slash (drop (end_of_prefix + 1) kid)) [
      | none ↦ true
      | some found ↦ (2 ^ 64 - found) % 2 ^ 64 == 1
    ]

module _ {W : Type 0} (os : Posix W) (io : Stdio W) (lib : Liberasurecode) (k m : ℕ)
    (junk : ℕ → ℕ) where
  abbrev on_disk : {A : Type 0} → Action W A → Action (Ec W) A
  on_disk f s = elim (f s.world) [ none ↦ none | some (a, w) ↦ some (a, record s { world = w }) ]

  -- One call of the system, with -errno for a failure.
  abbrev on_system : (W → ℤ × W) → Action (Ec W) ℤ
  on_system f s =
      let (res, w) = f s.world in
      some (if eq_ℤ res neg_one then neg (pos (os.errno w)) else pos 0, record s { world = w })

  abbrev pub get_encoded_file : FilePath → Action (Ec W) (Option EncodedFile)
  get_encoded_file path s = some (lookup_file s.files path, s)

  abbrev pub save_encoded_file : FilePath → EncodedFile → Action (Ec W) (Unit {0})
  save_encoded_file path ef s = some (tt, record s { files = insert_file s.files path ef })

  -- `strncpy` of the bytes of the path alone: the key ends with the first zero that the array holds.
  unfoldable pub key_of : FilePath → Option FilePath
  unfolding c_string
  key_of path =
      if leb (length path) 4097
      then c_string (path ++ drop (length path) (uninit junk 4097))
      else none

  abbrev file_attributes : Option EncodedFile → Stat → Action (Ec W) (ℤ × Stat)
  file_attributes none st = pure (enoent, st)
  file_attributes (some ef) st =
      pure (pos 0, record st { st_mode = regular_mode; st_size = pos ef.size })

  unfoldable pub ec_getattr : FilePath → Stat → Action (Ec W) (ℤ × Stat)
  ec_getattr path stbuf s =
      if eq_string path (codes "/mnt/fuse_data/") || is_member s.directories path
      then some ((pos 0, record stbuf { st_mode = directory_mode }), s)
      else file_attributes (lookup_file s.files path) stbuf s

  unfoldable pub ec_fgetattr : FilePath → Stat → FileInfo → Action (Ec W) (ℤ × Stat)
  ec_fgetattr path stbuf fi s =
      if eq_string path (codes "/mnt/fuse_data/")
      then some ((pos 0, record stbuf { st_mode = directory_mode }), s)
      else file_attributes (lookup_file s.files path) stbuf s

  unfoldable pub ec_create : FilePath → ℕ → FileInfo → Action (Ec W) (ℤ × FileInfo)
  unfolding key_of encoded_file_new
  ec_create path mode fi = do
    key ← lift (key_of path)
    known ← get_encoded_file key
    if is_some_file known
        then pure (neg_one, fi)
        else (do save_encoded_file key encoded_file_new; pure (pos 0, fi))

  unfoldable pub ec_open : FilePath → FileInfo → Action (Ec W) (ℤ × FileInfo)
  unfolding key_of encoded_file_new
  ec_open path fi = do
    key ← lift (key_of path)
    known ← get_encoded_file key
    if is_some_file known
        then pure (pos 0, fi)
        else (do save_encoded_file key encoded_file_new; pure (pos 0, fi))

  unfoldable pub ec_release : FilePath → FileInfo → Action (Ec W) ℤ
  unfolding key_of
  ec_release path fi = do
    key ← lift (key_of path)
    known ← get_encoded_file key
    pure (if is_some_file known then pos 0 else enoent)

  -- The copy follows the pointer before it is compared with null. The length that is adjusted at
  -- the end of the file is another variable than the one that is used.
  unfoldable pub ec_read : FilePath → Buffer → ℕ → ℕ → FileInfo → Action (Ec W) (ℤ × Buffer)
  unfolding encoded_file_copy load_blocks decode
  ec_read path buf size offset fi = do
    found ← get_encoded_file path
    stored ← lift found
    ef ← lift (encoded_file_copy lib k m stored)
    if leb ef.size offset then pure (pos 0, buf) else (do
      loaded ←
          on_disk
            (λ w. elim (load_blocks lib k m io junk ef w) [ none ↦ none | some l ↦ some (l, w) ])
      bytes ← lift (decode lib k m loaded)
      buf' ← lift (memcpy buf 0 (drop offset bytes) size)
      pure (pos size, buf'))

  -- What is encoded by a write: the bytes alone for the first one, else the file with them.
  unfoldable pub new_contents : EncodedFile → Buffer → ℕ → ℕ → W → Option (Buffer × ℕ)
  unfolding load_blocks decode
  new_contents old_ef buf size offset w =
      if old_ef.size == 0
      then some (buf, size)
      else (let new_size = if leb (offset + size) old_ef.size then old_ef.size else offset + size in
          elim (load_blocks lib k m io junk old_ef w) [
            | none ↦ none
            | some loaded ↦ elim (decode lib k m loaded) [
              | none ↦ none
              | some decoded ↦ elim (memcpy (uninit junk new_size) 0 decoded old_ef.size) [
                | none ↦ none
                | some copied ↦ elim (memcpy copied offset buf size) [
                  | none ↦ none
                  | some new_data ↦ some (new_data, new_size)
                ]
              ]
            ]
          ])

  unfoldable pub ec_write : FilePath → Buffer → ℕ → ℕ → FileInfo → Action (Ec W) ℤ
  unfolding new_contents encode dump_blocks
  ec_write path buf size offset fi = do
    found ← get_encoded_file path
    elim found [
      | none ↦ pure enoent
      | some old_ef ↦ (do
        (new_data, new_size) ← (λ s. lift (new_contents old_ef buf size offset s.world) s)
        new_ef ← lift (encode lib k m new_data new_size)
        dumped ← on_disk (dump_blocks lib k m io junk new_ef path)
        save_encoded_file path dumped
        pure (pos size))
    ]

  unfoldable pub ec_mkdir : FilePath → ℕ → Action (Ec W) ℤ
  ec_mkdir path mode s =
      let (res, w) = os.mkdir path mode s.world in
      if eq_ℤ res neg_one
      then some (neg (pos (os.errno w)), record s { world = w })
      else some (pos 0, record s { world = w; directories = s.directories ++ (path ∷ []) })

  unfoldable pub ec_unlink : FilePath → Action (Ec W) ℤ
  ec_unlink path = on_system (os.unlink path)

  -- A directory that is not in the list is a null pointer that is followed.
  unfoldable pub ec_rmdir : FilePath → Action (Ec W) ℤ
  ec_rmdir path s =
      let (res, w) = os.rmdir path s.world in
      if eq_ℤ res neg_one
      then some (neg (pos (os.errno w)), record s { world = w })
      else (if is_member s.directories path
          then some (pos 0, record s { world = w; directories = remove_first s.directories path })
          else none)

  unfoldable pub ec_rename : FilePath → FilePath → Action (Ec W) ℤ
  ec_rename from to = on_system (os.rename from to)

  unfoldable pub ec_truncate : FilePath → ℕ → Action (Ec W) ℤ
  ec_truncate path size = on_system (os.truncate path size)

  unfoldable pub ec_ftruncate : FilePath → ℕ → FileInfo → Action (Ec W) ℤ
  ec_ftruncate path size fi = on_system (os.ftruncate fi.fh size)

  unfoldable pub ec_mknod : FilePath → ℕ → ℕ → Action (Ec W) ℤ
  ec_mknod path mode rdev =
      on_system (if os.is_fifo mode then os.mkfifo path mode else os.mknod path mode rdev)

  unfoldable pub ec_statfs : FilePath → Buffer → Action (Ec W) (ℤ × Buffer)
  ec_statfs path stbuf s =
      let ((res, st), w) = os.statvfs path stbuf s.world in
      some
        ((if eq_ℤ res neg_one then neg (pos (os.errno w)) else pos 0, st), record s { world = w })

  -- `basename` is the function of the C library; the filler takes every name.
  module _ (basename : FilePath → FilePath) where
    abbrev pub kids : FilePath → List FilePath → List FilePath
    kids path [] = []
    kids path (p ∷ ps) =
        if is_parent_directory path p then basename p ∷ kids path ps else kids path ps

    abbrev keys : List (FilePath × EncodedFile) → List FilePath
    keys [] = []
    keys ((key, ef) ∷ files) = key ∷ keys files

    unfoldable pub ec_readdir :
        FilePath → List FilePath → ℕ → FileInfo → Action (Ec W) (ℤ × List FilePath)
    unfolding is_parent_directory
    ec_readdir path names offset fi s = some (
      (
        pos 0,
        names ++ (codes "." ∷ codes ".." ∷ (kids path (keys s.files) ++ kids path s.directories)),
      ),
      s,
    )
