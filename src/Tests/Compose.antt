-- ===== src/Tests/Compose.antt =====
-- Stacks of layers above multi_loopback with two devices in mode REP.
use safefs.Prelude.{ℕ, ◌≡◌, refl, true, pos, arith, List, [], ◌∷◌}
use safefs.Layers.{FilePath}
use safefs.MultiLoopback.{rep, Setup}
use safefs.MultiLoopback.Splitters.{rep_driver}
use safefs.MultiLoopback.Mounted.{device_setup}
use safefs.Compose.{Machine, standard, compose_layers}
use safefs.Compose.Stacked.{aligned}
use safefs.Compose.Passing.{compose_layers-nopfuse}
use safefs.Tests.Blocks.{st0, junk0}
use safefs.Tests.World.{World, posix0}
use safefs.Tests.Spread.{rand0, order0, never_full, dev_a, dev_b, world0}
use safefs.Tests.Below.{libc1}
use safefs.Tests.Encrypted.{padding, key0}

abbrev machine0 : Machine World
machine0 = record {
  os = posix0;
  is_reg = λ _. true;
  junk = junk0;
  junk_stat = st0;
  junk_fh = 9;
  junk_error = pos 0;
  evp = padding;
  libc = libc1;
  rand_pseudo_bytes = rand0;
  erasure_ops = rep_driver;
  order = order0;
  full = never_full;
  rounds = 9;
}

abbrev paths0 : List FilePath
paths0 = dev_a ∷ dev_b ∷ []

abbrev spread0 : ℕ → Setup World
spread0 enc_mode =
    device_setup posix0 rand0 rep_driver order0 junk0 (pos 0) rep rep_driver
      (aligned key0 key0 enc_mode 16 paths0)

-- nopfuse between sfuse and block_align.
compose_layers-nopfuse_example :
    compose_layers machine0
      (record (aligned key0 key0 standard 16 paths0) { layers = 0 ∷ 1 ∷ 3 ∷ 2 ∷ [] })
      world0
    ≡ compose_layers machine0
        (record (aligned key0 key0 standard 16 paths0) { layers = 0 ∷ 1 ∷ 2 ∷ [] })
        world0
compose_layers-nopfuse_example =
    compose_layers-nopfuse machine0 (aligned key0 key0 standard 16 paths0) 0 (1 ∷ []) (2 ∷ [])
      world0 (omega arith) refl (refl, tt) (refl, tt)
