-- ===== src/Config.antt =====
-- SFSConfig.h and SFSConfig.c: the configuration, and how the entries of an ini file fill it in.
pub mod Listing
use Prim.Native.Char.{code}
use Prim.Native.String.{String}
use safefs.Prelude.{
  ℕ, ◌==◌, Bool, true, false, ◌&&◌, ◌||◌, Option, none, some, ℤ, pos, ltb_ℤ, if◌then◌else◌, List,
  [], ◌∷◌, ◌++◌,
}
use safefs.Layers.{FilePath, Buffer}

-- The bytes of a text of the source, which is ASCII.
abbrev pub codes : String → List ℕ
codes String.[] = []
codes (String.◌∷◌ c s) = code c ∷ codes s

-- `strcmp(s, t) == 0`
abbrev pub eq_string : List ℕ → List ℕ → Bool
eq_string [] [] = true
eq_string (a ∷ as') (b ∷ bs) = a == b && eq_string as' bs
eq_string _ _ = false

abbrev pub starts_with : List ℕ → List ℕ → Bool
starts_with [] s = true
starts_with (a ∷ as') [] = false
starts_with (a ∷ as') (b ∷ bs) = a == b && starts_with as' bs

-- `strstr(s, t) != NULL`
abbrev pub contains : List ℕ → List ℕ → Bool
contains [] t = starts_with t []
contains (a ∷ as') t = starts_with t (a ∷ as') || contains as' t

-- `struct multi_loop_configuration`, `struct encode_configuration`,
-- `struct block_align_configuration` and `struct log_configuration`. A number of these stands for an
-- `int` that is not negative, and is one where it is below 2 ^ 31.
pub record MLoopConfig : Type 0 where
  pub loop_paths : List FilePath
  pub root_path : FilePath
  pub mode : ℕ
  pub ndevs : ℕ

pub record EncConfig : Type 0 where
  pub key : Buffer
  pub iv : Buffer
  pub key_size : ℕ
  pub mode : ℕ

pub record BlockAlignConfig : Type 0 where
  pub block_size : ℕ
  pub mode : ℕ

pub record LogConfig : Type 0 where
  pub mode : ℕ

pub record Configuration : Type 0 where
  pub enc_config : EncConfig
  pub m_loop_config : MLoopConfig
  pub block_config : BlockAlignConfig
  pub layers : List ℕ
  pub logging_configuration : LogConfig

-- MULTI_LOOPBACK, SFUSE, BLOCK_ALIGN and NOPFUSE
abbrev pub multi_loopback_layer : ℕ
multi_loopback_layer = 0

abbrev pub sfuse_layer : ℕ
sfuse_layer = 1

abbrev pub block_align_layer : ℕ
block_align_layer = 2

abbrev pub nopfuse_layer : ℕ
nopfuse_layer = 3

-- A handler yields whether it took the entry, and the configuration.
abbrev pub Handler : Type 0
Handler = FilePath → FilePath → Configuration → Bool × Configuration

abbrev append_layer : ℕ → Configuration → Bool × Configuration
append_layer layer config = (true, record config { layers = config.layers ++ (layer ∷ []) })

unfoldable pub handle_section_layers : Handler
handle_section_layers name value config =
    if eq_string name (codes "block_align")
    then append_layer block_align_layer config
    else (if eq_string name (codes "sfuse")
        then append_layer sfuse_layer config
        else (if eq_string name (codes "multi_loop")
            then append_layer multi_loopback_layer config
            else (if eq_string name (codes "nopfuse")
                then append_layer nopfuse_layer config
                else (false, config))))

-- `atoi` of the C library, for the numbers that are not negative and are an `int`: it is undefined for
-- larger ones, and what it yields for a text of another kind is not looked at.
module _ (atoi : FilePath → ℕ) where
  unfoldable pub handle_section_block_align : Handler
  handle_section_block_align name value config =
      let block = config.block_config in
      if eq_string name (codes "block_size")
      then (true, record config { block_config = record block { block_size = atoi value } })
      else (if eq_string name (codes "mode")
          then (true, record config { block_config = record block { mode = atoi value } })
          else (false, config))

  unfoldable pub handle_section_sfuse : Handler
  handle_section_sfuse name value config =
      let enc = config.enc_config in
      if eq_string name (codes "key")
      then (true, record config { enc_config = record enc { key = value } })
      else (if eq_string name (codes "iv")
          then (true, record config { enc_config = record enc { iv = value } })
          else (if eq_string name (codes "key_size")
              then (true, record config { enc_config = record enc { key_size = atoi value } })
              else (if eq_string name (codes "mode")
                  then (true, record config { enc_config = record enc { mode = atoi value } })
                  else (false, config))))

  unfoldable pub handle_section_multi_loop : Handler
  handle_section_multi_loop name value config =
      let multi = config.m_loop_config in
      if eq_string name (codes "mode")
      then (true, record config { m_loop_config = record multi { mode = atoi value } })
      else (if eq_string name (codes "ndevs")
          then (true, record config { m_loop_config = record multi { ndevs = atoi value } })
          else (if contains name (codes "path")
              then (
                true,
                record config {
                  m_loop_config = record multi { loop_paths = multi.loop_paths ++ (value ∷ []) };
                },
              )
              else (if eq_string name (codes "root")
                  then (true, record config { m_loop_config = record multi { root_path = value } })
                  else (false, config))))

  unfoldable pub handle_section_log : Handler
  handle_section_log name value config =
      if eq_string name (codes "mode")
      then (true, record config { logging_configuration = record { mode = atoi value } })
      else (true, config)

  unfoldable pub handler : FilePath → Handler
  unfolding handle_section_layers handle_section_block_align handle_section_sfuse handle_section_log
      handle_section_multi_loop
  handler section name value config =
      if eq_string section (codes "layers")
      then handle_section_layers name value config
      else (if eq_string section (codes "block_align")
          then handle_section_block_align name value config
          else (if eq_string section (codes "sfuse")
              then handle_section_sfuse name value config
              else (if eq_string section (codes "log")
                  then handle_section_log name value config
                  else (if eq_string section (codes "multi_loop")
                      then handle_section_multi_loop name value config
                      else (false, config)))))

  -- `ini_parse` is the function of inih that calls a handler for each entry of a file; `garbage` is
  -- what `malloc` gave.
  unfoldable pub init_config :
      {W : Type 0}
      → ((FilePath → Handler) → FilePath → Configuration → W → (ℤ × Configuration) × W)
      → Configuration
      → FilePath
      → W
      → (ℤ × Option Configuration) × W
  unfolding handler
  init_config ini_parse garbage configuration_file_path w =
      let multi = garbage.m_loop_config in
      let pconfig : Configuration = record garbage {
        layers = [];
        m_loop_config = record multi { loop_paths = [] };
      } in
      let ((line, pconfig'), w') = ini_parse handler configuration_file_path pconfig w in
      (if ltb_ℤ line (pos 0) then (pos 1, none) else (pos 0, some pconfig'), w')
