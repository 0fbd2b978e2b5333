-- ===== src/Config/Listing.antt =====
-- The entries that make a configuration, and that reading them gives it back.
use safefs.Prelude.{
  ℕ, ◌<◌, ◌^◌, ◌≡◌, refl, ap, ◌∙◌, Option, none, some, ℤ, pos, neg_one, List, [], ◌∷◌, ◌++◌,
  append_assoc, append-nil, le→ltb, arith,
}
use safefs.Layers.{FilePath}
use safefs.Config.{
  codes, Handler, handler, handle_section_layers, handle_section_block_align, handle_section_sfuse,
  handle_section_multi_loop, handle_section_log, init_config, Configuration, multi_loopback_layer,
  sfuse_layer, block_align_layer, nopfuse_layer,
}

-- An entry of an ini file: its section, its name and its value.
abbrev pub Entry : Type 0
Entry = FilePath × FilePath × FilePath

-- What the entries make of a configuration, one after the other.
abbrev pub feed : (FilePath → Handler) → List Entry → Configuration → Configuration
feed h [] config = config
feed h ((section, name, value) ∷ entries) config = feed h entries (h section name value config).1

-- inih: a file that cannot be opened gives -1; of another one the handler gets every entry, and
-- the result is the line of the first entry that it did not take, or 0.
pub record IsIni {W : Type 0}
    (ini_parse : (FilePath → Handler) → FilePath → Configuration → W → (ℤ × Configuration) × W)
    (entries : W → FilePath → Option (List Entry)) : Type 0 where
  pub opened_law :
      (h : FilePath → Handler) (path : FilePath) (config : Configuration) (w : W) (es : List Entry)
      → entries w path ≡ some es
      → (line : ℕ) × (w' : W) × (ini_parse h path config w ≡ ((pos line, feed h es config), w'))
  pub missing_law :
      (h : FilePath → Handler) (path : FilePath) (config : Configuration) (w : W)
      → entries w path ≡ none
      → (w' : W) × (ini_parse h path config w ≡ ((neg_one, config), w'))

pub data IsLayer : ℕ → List ℕ → Type 0 where
  multi_loop : IsLayer multi_loopback_layer (codes "multi_loop")
  sfuse : IsLayer sfuse_layer (codes "sfuse")
  block_align : IsLayer block_align_layer (codes "block_align")
  nopfuse : IsLayer nopfuse_layer (codes "nopfuse")

-- The layers of a configuration with their names.
pub data Named : List ℕ → List (List ℕ) → Type 0 where
  all_named : Named [] []
  one_more :
      {layer : ℕ} {name : List ℕ} {layers : List ℕ} {names : List (List ℕ)}
      → IsLayer layer name
      → Named layers names
      → Named (layer ∷ layers) (name ∷ names)

abbrev layer_entries : List (List ℕ) → List Entry
layer_entries [] = []
layer_entries (name ∷ names) = (codes "layers", name, []) ∷ layer_entries names

abbrev path_entries : List FilePath → List Entry
path_entries [] = []
path_entries (path ∷ paths) = (codes "multi_loop", codes "path", path) ∷ path_entries paths

-- The numbers of a configuration are `int`s that are not negative.
pub record HasInts (config : Configuration) : Type 0 where
  pub loop_mode : config.m_loop_config.mode < 2 ^ 31
  pub loop_ndevs : config.m_loop_config.ndevs < 2 ^ 31
  pub align_mode : config.block_config.mode < 2 ^ 31
  pub align_block_size : config.block_config.block_size < 2 ^ 31
  pub enc_mode : config.enc_config.mode < 2 ^ 31
  pub enc_key_size : config.enc_config.key_size < 2 ^ 31
  pub log_mode : config.logging_configuration.mode < 2 ^ 31

module _ (atoi : FilePath → ℕ) (show : ℕ → FilePath) where
  feed-append :
      (h : FilePath → Handler) (es fs : List Entry) (config : Configuration)
      → feed h (es ++ fs) config ≡ feed h fs (feed h es config)
  feed-append h [] fs config = refl
  feed-append h ((section, name, value) ∷ es) fs config =
      feed-append h es fs (h section name value config).1

  add_layer :
      (layer : ℕ) (name : List ℕ) (config : Configuration)
      → IsLayer layer name
      → (handler atoi (codes "layers") name [] config).1
        ≡ record config { layers = config.layers ++ (layer ∷ []) }
  unfolding handler handle_section_layers
  add_layer layer name config multi_loop = refl
  add_layer layer name config sfuse = refl
  add_layer layer name config block_align = refl
  add_layer layer name config nopfuse = refl

  feed-layers :
      (layers : List ℕ) (names : List (List ℕ)) (config : Configuration)
      → Named layers names
      → feed (handler atoi) (layer_entries names) config
        ≡ record config { layers = config.layers ++ layers }
  feed-layers [] [] config all_named = rw (append-nil config.layers) refl
  feed-layers [] (name ∷ names) config more = elim more [ ]
  feed-layers (layer ∷ layers) [] config more = elim more [ ]
  feed-layers (layer ∷ layers) (name ∷ names) config (one_more is more) =
      ap (feed (handler atoi) (layer_entries names)) (add_layer layer name config is)
      ∙ feed-layers layers names (record config { layers = config.layers ++ (layer ∷ []) }) more
      ∙ ap (λ ls. record config { layers = ls }) (append_assoc config.layers (layer ∷ []) layers)

  abbrev with_paths : Configuration → List FilePath → Configuration
  with_paths config paths =
      let multi = config.m_loop_config in
      record config { m_loop_config = record multi { loop_paths = paths } }

  feed-paths :
      (paths : List FilePath) (config : Configuration)
      → feed (handler atoi) (path_entries paths) config
        ≡ with_paths config (config.m_loop_config.loop_paths ++ paths)
  unfolding handler handle_section_multi_loop
  feed-paths [] config = rw (append-nil config.m_loop_config.loop_paths) refl
  feed-paths (path ∷ paths) config =
      let before = config.m_loop_config.loop_paths in
      feed-paths paths (with_paths config (before ++ (path ∷ [])))
      ∙ ap (with_paths config) (append_assoc before (path ∷ []) paths)

  -- The entries behind the layers and the paths.
  abbrev plain_entries : Configuration → List Entry
  plain_entries config =
      let multi = config.m_loop_config in
      let block = config.block_config in
      let enc = config.enc_config in
      (codes "multi_loop", codes "mode", show multi.mode)
      ∷ (codes "multi_loop", codes "root", multi.root_path)
      ∷ (codes "multi_loop", codes "ndevs", show multi.ndevs)
      ∷ (codes "block_align", codes "mode", show block.mode)
      ∷ (codes "block_align", codes "block_size", show block.block_size)
      ∷ (codes "sfuse", codes "mode", show enc.mode)
      ∷ (codes "sfuse", codes "key", enc.key)
      ∷ (codes "sfuse", codes "key_size", show enc.key_size)
      ∷ (codes "sfuse", codes "iv", enc.iv)
      ∷ (codes "log", codes "mode", show config.logging_configuration.mode)
      ∷ []

  -- A file for a configuration, with `show` for numbers.
  abbrev pub listing : List (List ℕ) → Configuration → List Entry
  listing names config =
      layer_entries names ++ (path_entries config.m_loop_config.loop_paths ++ plain_entries config)

  feed-plain :
      ((n : ℕ) → n < 2 ^ 31 → atoi (show n) ≡ n)
      → (config blank : Configuration) → HasInts config
      → feed
          (handler atoi)
          (plain_entries config)
          (with_paths (record blank { layers = config.layers }) config.m_loop_config.loop_paths)
        ≡ config
  unfolding handler handle_section_multi_loop handle_section_block_align handle_section_sfuse
      handle_section_log
  feed-plain number config blank ints =
      rw
        (
          number config.m_loop_config.mode ints.loop_mode,
          number config.m_loop_config.ndevs ints.loop_ndevs,
          number config.block_config.mode ints.align_mode,
          number config.block_config.block_size ints.align_block_size,
          number config.enc_config.mode ints.enc_mode,
          number config.enc_config.key_size ints.enc_key_size,
          number config.logging_configuration.mode ints.log_mode,
        )
        refl

  pub feed-listing :
      ((n : ℕ) → n < 2 ^ 31 → atoi (show n) ≡ n)
      → (names : List (List ℕ)) (config blank : Configuration) → HasInts config
      → Named config.layers names
      → blank.layers ≡ []
      → blank.m_loop_config.loop_paths ≡ []
      → feed (handler atoi) (listing names config) blank ≡ config
  feed-listing number names config blank ints named no_layers no_paths =
      let h = handler atoi in
      let paths = config.m_loop_config.loop_paths in
      let some_layers = record blank { layers = blank.layers ++ config.layers } in
      feed-append h (layer_entries names) (path_entries paths ++ plain_entries config) blank
      ∙ ap (feed h (path_entries paths ++ plain_entries config)) (
          feed-layers config.layers names blank named
          ∙ ap (λ ls. record blank { layers = ls ++ config.layers }) no_layers)
      ∙ feed-append h (path_entries paths) (plain_entries config)
          (record blank { layers = config.layers })
      ∙ ap (feed h (plain_entries config)) (
          feed-paths paths (record blank { layers = config.layers })
          ∙ ap (λ ps. with_paths (record blank { layers = config.layers }) (ps ++ paths)) no_paths)
      ∙ feed-plain number config blank ints

  -- Reading a file that lists the settings of a configuration gives that configuration, whatever
  -- memory `malloc` gave for it: `init_config` returns 0 with it. The layers are listed under their
  -- names, in their order, the paths of the devices in theirs; the numbers of the configuration are not
  -- negative and below 2 ^ 31, and `atoi` reads such numbers as they are written.
  pub init_config-listing :
      {W : Type 0}
      (ini_parse : (FilePath → Handler) → FilePath → Configuration → W → (ℤ × Configuration) × W)
      (entries : W → FilePath → Option (List Entry))
      → IsIni ini_parse entries
      → ((n : ℕ) → n < 2 ^ 31 → atoi (show n) ≡ n)
      → (names : List (List ℕ)) (config garbage : Configuration) (path : FilePath) (w : W)
      → HasInts config
      → Named config.layers names
      → entries w path ≡ some (listing names config)
      → (w' : W) × (init_config atoi ini_parse garbage path w ≡ ((pos 0, some config), w'))
  unfolding init_config
  init_config-listing ini_parse entries ini number names config garbage path w ints named listed =
      let blank : Configuration = with_paths (record garbage { layers = [] }) [] in
      let (line, w', e) =
        ini.opened_law (handler atoi) path blank w (listing names config) listed in
      (
        w',
        rw
            (
              init_config,
              e,
              feed-listing number names config blank ints named refl refl,
              le→ltb line 0 (omega arith),
            )
            refl,
      )
