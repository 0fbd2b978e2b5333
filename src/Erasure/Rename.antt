-- ===== src/Erasure/Rename.antt =====
-- Renaming a file, with and without an entry of its own.
use safefs.Prelude.{ℕ, ◌≡◌, refl, ap₂, none, some, ℤ}
use safefs.Layers.{FilePath}
use safefs.Erasure.Map.{Table, IsTable, hash_get}
use safefs.Erasure.Defs.{
  OffsetKey, Erasure, get_erasure_block_offset, erasure_get_file_size, erasure_rename,
}
use safefs.Erasure.Keys.{dec_path, move_unknown}

module _ {P O : Type 0} (paths : Table P FilePath) (offsets : Table O OffsetKey)
    (path_laws : IsTable paths) (offset_laws : IsTable offsets) where
  -- Renaming a file that the driver knows nothing of, as one that was created and never written, over a
  -- file that it knows changes nothing: the new name keeps the size and the blocks of the file that it
  -- replaced.
  pub erasure_rename-unwritten :
      (s : Erasure P O) (from to : FilePath) (v : ℕ)
      → hash_get paths s.file_ids from ≡ none
      → hash_get paths s.file_sizes from ≡ none
      → hash_get paths s.file_sizes to ≡ some v
      → (t : Erasure P O) × (erasure_rename paths offsets from to s ≡ some (tt, t))
        × (erasure_get_file_size paths offsets to t ≡ some (v, t))
        × ((o : ℕ) (r : ℤ)
            → get_erasure_block_offset paths offsets to o s ≡ some (r, s)
            → get_erasure_block_offset paths offsets to o t ≡ some (r, t))
  unfolding erasure_rename erasure_get_file_size
  erasure_rename-unwritten s from to v no_id no_size size =
      let ids = move_unknown paths path_laws dec_path s.file_ids from to no_id in
      let sizes = move_unknown paths path_laws dec_path s.file_sizes from to no_size in
      (
        s,
        ap₂ (λ x y. some (tt, record s { file_ids = x; file_sizes = y })) ids sizes,
        rw (path_laws.contains_law s.file_sizes to, size) refl,
        λ o r e. e,
      )
