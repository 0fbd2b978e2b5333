-- ===== src/Compose/Main.antt =====
-- `main` and `clean_layers` of SFSFuse.c, and `clean_config` of SFSConfig.c.
use safefs.Prelude.{
  ℕ, Bool, Option, none, some, ℤ, pos, if◌then◌else◌, List, [], ◌∷◌, Action, fault,
}
use safefs.Layers.{FilePath, Stat}
use safefs.MultiLoopback.Posix.{Posix}
use safefs.Utils.{file_exists}
use safefs.Config.{codes, Handler, Configuration, init_config}
use safefs.Compose.Defs.{seen}

-- LOCAL_SDSCONFIG_PATH and DEFAULT_SDSCONFIG_PATH
abbrev pub local_sdsconfig_path : FilePath
local_sdsconfig_path = codes "default.ini"

abbrev pub default_sdsconfig_path : FilePath
default_sdsconfig_path = codes "/etc/safefs/default.ini"

-- How `main` goes on once it has looked for a configuration: it exits with EXIT_FAILURE, it follows
-- the pointer that `init_config` did not set, or it has a configuration.
pub data Start : Type 0 where
  exit_failure : Start
  null_config : Start
  configured : Configuration → Start

-- The result of `init_config` is not looked at.
abbrev pub after_init : Option Configuration → Start
after_init none = null_config
after_init (some config) = configured config

module _ {W : Type 0} (os : Posix W) (s_isreg : ℕ → Bool) (st : Stat) (atoi : FilePath → ℕ)
    (ini_parse : (FilePath → Handler) → FilePath → Configuration → W → (ℤ × Configuration) × W)
    (garbage : Configuration) where
  abbrev pub read_config : FilePath → W → Start × W
  read_config path w =
      let ((res, config), w') = init_config atoi ini_parse garbage path w in (after_init config, w')

  -- The part of `main` before it composes the layers.
  unfoldable pub load_config : W → Start × W
  unfolding file_exists init_config
  load_config w =
      let (local, w1) = file_exists os s_isreg st local_sdsconfig_path w in
      let (default, w2) = file_exists os s_isreg st default_sdsconfig_path w1 in
      if local
      then read_config local_sdsconfig_path w1
      else (if default then read_config default_sdsconfig_path w2 else (exit_failure, w2))

-- `clean_layers`: each layer only prints its latencies, which `clean` stands for; without any layer a
-- null pointer is followed.
unfoldable pub clean_from : {W : Type 0} → (ℕ → W → W) → List ℕ → Action W ℤ
clean_from clean [] w = some (pos 0, w)
clean_from clean (layer ∷ layers) w =
    let rest = clean_from clean layers (clean layer w) in
    if seen layer (0 ∷ 1 ∷ 2 ∷ 3 ∷ []) then rest else some (pos 1, w)

unfoldable pub clean_layers : {W : Type 0} → (ℕ → W → W) → Configuration → Action W ℤ
unfolding clean_from
clean_layers clean config = elim config.layers [
  | [] ↦ fault
  | layer ∷ layers ↦ clean_from clean (layer ∷ layers)
]
