-- ===== src/Tests/Config.antt =====
-- Reading a configuration from a file that lists it.
use safefs.Prelude.{
  ℕ, arith, ◌≡◌, refl, Option, none, some, ℤ, pos, neg_one, List, [], ◌∷◌, length, replicate,
  length-replicate,
}
use safefs.Layers.{FilePath}
use safefs.Config.{codes, Handler, Configuration, init_config}
use safefs.Config.Listing.{
  Entry, feed, IsIni, all_named, one_more, multi_loop, sfuse, block_align, listing, HasInts,
  init_config-listing,
}

-- Numbers as so many ones, and a world that is the entries of the only file, if it is there.
abbrev ones : ℕ → FilePath
ones n = replicate n b'1'

abbrev count_ones : FilePath → ℕ
count_ones s = length s

abbrev File : Type 0
File = Option (List Entry)

abbrev ini0 : (FilePath → Handler) → FilePath → Configuration → File → (ℤ × Configuration) × File
ini0 h path config none = ((neg_one, config), none)
ini0 h path config (some es) = ((pos 0, feed h es config), some es)

abbrev entries0 : File → FilePath → Option (List Entry)
entries0 w _ = w

ini0-IsIni : IsIni ini0 entries0
ini0-IsIni = record { opened_law = opened; missing_law = missing }
  where
    opened :
        (h : FilePath → Handler) (path : FilePath) (config : Configuration) (w : File)
        (es : List Entry)
        → w ≡ some es
        → (line : ℕ) × (w' : File) × (ini0 h path config w ≡ ((pos line, feed h es config), w'))
    opened h path config w es e = (0, some es, rw e refl)

    missing :
        (h : FilePath → Handler) (path : FilePath) (config : Configuration) (w : File)
        → w ≡ none
        → (w' : File) × (ini0 h path config w ≡ ((neg_one, config), w'))
    missing h path config w e = (none, rw e refl)

abbrev three_layers : Configuration
three_layers = record {
  enc_config = record { key = codes "K0"; iv = codes "V0"; key_size = 2; mode = 3 };
  m_loop_config = record {
    loop_paths = codes "/a" ∷ codes "/b/" ∷ [];
    root_path = codes "/r";
    mode = 1;
    ndevs = 2;
  };
  block_config = record { block_size = 4; mode = 1 };
  layers = 0 ∷ 1 ∷ 2 ∷ [];
  logging_configuration = record { mode = 0 };
}

abbrev three_names : List (List ℕ)
three_names = codes "multi_loop" ∷ codes "sfuse" ∷ codes "block_align" ∷ []

-- What stood in the memory before, layers and paths included.
abbrev garbage0 : Configuration
garbage0 = record {
  enc_config = record { key = codes "?"; iv = []; key_size = 7; mode = 7 };
  m_loop_config = record { loop_paths = codes "x" ∷ []; root_path = []; mode = 7; ndevs = 7 };
  block_config = record { block_size = 7; mode = 7 };
  layers = 9 ∷ [];
  logging_configuration = record { mode = 7 };
}

three_layers-HasInts : HasInts three_layers
three_layers-HasInts = record {
  loop_mode = omega arith;
  loop_ndevs = omega arith;
  align_mode = omega arith;
  align_block_size = omega arith;
  enc_mode = omega arith;
  enc_key_size = omega arith;
  log_mode = omega arith;
}

init_config-listing_example :
    (w' : File) × (init_config count_ones ini0 garbage0
        (codes "default.ini")
        (some (listing count_ones ones three_names three_layers))
      ≡ ((pos 0, some three_layers), w'))
init_config-listing_example =
    init_config-listing count_ones ones ini0 entries0 ini0-IsIni
      (λ n small. length-replicate n b'1') three_names three_layers garbage0 (codes "default.ini")
      (some (listing count_ones ones three_names three_layers)) three_layers-HasInts
      (one_more multi_loop (one_more sfuse (one_more block_align all_named))) refl
