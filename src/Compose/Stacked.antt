-- ===== src/Compose/Stacked.antt =====
-- The stacks of conf/aligned_aes.ini and conf/aligned_det.ini: multi_loopback, sfuse and block_align,
-- over any number of devices in mode REP.
use safefs.Prelude.{ℕ, ◌+◌, ◌%◌, ◌<◌, ◌≤◌, ◌≡◌, true, Option, some, pos, List, [], ◌∷◌, length}
use safefs.Layers.{FilePath, Buffer, FileInfo, Stat, FuseOperations}
use safefs.MultiLoopback.{rep, Setup, Loopback, path_size}
use safefs.MultiLoopback.Wait.{Every}
use safefs.MultiLoopback.Devices.{IsSchedule}
use safefs.MultiLoopback.Contract.{IsDisk}
use safefs.MultiLoopback.Directory.{loopback_oper}
use safefs.MultiLoopback.Splitters.{rep_driver}
use safefs.MultiLoopback.Mounted.{Makes, device_setup}
use safefs.Sfuse.Cbc.{IsCbc}
use safefs.Config.{Configuration}
use safefs.Compose.Defs.{Machine}

-- The layers in the order of the files, with blocks that alignfuse cuts.
abbrev pub aligned : Buffer → Buffer → ℕ → ℕ → List FilePath → Configuration
aligned key iv enc_mode block_size paths = record {
  enc_config = record { key = key; iv = iv; key_size = 16; mode = enc_mode };
  m_loop_config = record { loop_paths = paths; root_path = []; mode = 0; ndevs = length paths };
  block_config = record { block_size = block_size; mode = 1 };
  layers = 0 ∷ 1 ∷ 2 ∷ [];
  logging_configuration = record { mode = 0 };
}

module _ {W : Type 0} (m : Machine W) (cbc : IsCbc m.evp) (file : W → ℕ → Option Buffer)
    (path : FilePath) (fi : FileInfo) (key iv : Buffer) (block_size : ℕ) (paths : List FilePath)
    (disk : IsDisk m.os file)
    (regular : (w w' : W) (fd : ℕ) (c : Buffer) (st st' : Stat)
      → file w fd ≡ some c
      → m.os.fstat fd st w ≡ ((pos 0, st'), w')
      → m.is_reg st'.st_mode ≡ true)
    (some_device : 1 ≤ length paths) (schedule : IsSchedule m.order (length paths))
    (makes : Every (Makes m.os) paths)
    (short : Every (λ p. length p + 1 + length path < path_size) paths)
    (whole : block_size % 16 ≡ 0) (positive : 0 < block_size) where
  abbrev pub spread_setup : ℕ → Setup W
  spread_setup enc_mode =
      device_setup m.os m.rand_pseudo_bytes m.erasure_ops m.order m.junk m.junk_error rep rep_driver
        (aligned key iv enc_mode block_size paths)

  abbrev below : ℕ → FuseOperations (Loopback W)
  below enc_mode = loopback_oper (spread_setup enc_mode) m.full m.rounds
