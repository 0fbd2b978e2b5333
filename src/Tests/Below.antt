-- ===== src/Tests/Below.antt =====
-- multi_loopback with two devices in mode XOR as the layer below sfuse: every file that it has is a
-- regular one.
use safefs.Prelude.{some, zero, suc, [], ◌∷◌, sym, some_injective, ℕ, ◌+◌, refl, true, List}
use safefs.Layers.{Buffer, FuseOperations}
use safefs.MultiLoopback.{xor, Setup, Loopback}
use safefs.MultiLoopback.Directory.{loopback_oper}
use safefs.MultiLoopback.Spread.{IsSpread}
use safefs.MultiLoopback.Xored.{xor_driver, xored}
use safefs.Sfuse.{Libc}
use safefs.Sfuse.Contract.{IsRawFile}
use safefs.Sfuse.Below.{IsSpreadFile-IsRawFile}
use safefs.MultiLoopback.Devices.{AllDiffer, OnDevices}
use safefs.Tests.World.{World, file0, put}
use safefs.Tests.Spread.{world0, setup_of, rand0, never_full, path_f, fi_f, spread0-IsSpreadFile}

abbrev pub spread0 : FuseOperations (Loopback World)
spread0 = loopback_oper (setup_of xor (xor_driver rand0)) never_full 9

abbrev pub Spread0 : Loopback World → Buffer → Type 0
Spread0 = IsSpread (setup_of xor (xor_driver rand0)) file0 xored fi_f

pub spread0-IsRawFile : IsRawFile (λ _. true) path_f fi_f spread0 Spread0
spread0-IsRawFile =
    IsSpreadFile-IsRawFile (λ _. true) spread0-IsSpreadFile (λ s c st st' s' h e. refl)

-- The seed of `rand` stands in the world.
abbrev pub libc1 : Libc (Loopback World)
libc1 = record {
  time = λ s. 3;
  my_seed = λ s. s.world.seed;
  set_my_seed = λ seed s. record s { world = record s.world { seed = seed } };
  rand = λ seed n. seed + n;
}

-- It is no part of a file.
pub libc1_quiet :
    (g : Setup World) (combine : List Buffer → Buffer) (s : Loopback World) (p : Buffer) (seed : ℕ)
    → IsSpread g file0 combine fi_f s p
    → IsSpread g file0 combine fi_f (libc1.set_my_seed seed s) p
libc1_quiet g combine s p seed h = record {
  mp = h.mp;
  contents = h.contents;
  opened = h.opened;
  enough = h.enough;
  devices = h.devices;
  differ = h.differ;
  sizes = h.sizes;
  combined = h.combined;
  on = h.on;
}

-- A state in which the file is there: its shares have two bytes.
abbrev two_shares : Loopback World
two_shares = record {
  world = put 3 (5 ∷ 6 ∷ []) (put 4 (7 ∷ 8 ∷ []) world0);
  handles = (λ _. some (record { ldp = []; devs_fd = 3 ∷ 4 ∷ [] }));
  next_handle = 1;
}

two_shares_file : Spread0 two_shares (xored ((5 ∷ 6 ∷ []) ∷ (7 ∷ 8 ∷ []) ∷ []))
two_shares_file = record {
  mp = record { ldp = []; devs_fd = 3 ∷ 4 ∷ [] };
  contents = (5 ∷ 6 ∷ []) ∷ (7 ∷ 8 ∷ []) ∷ [];
  opened = refl;
  enough = refl;
  devices = refl;
  differ = differ;
  sizes = (refl, (refl, tt));
  combined = refl;
  on = on;
}
  where
    differ : AllDiffer (3 ∷ 4 ∷ [])
    differ zero zero fd p q = refl
    differ zero (suc zero) fd p q = absurd (cc)
    differ zero (suc (suc j)) fd p q = absurd (cc)
    differ (suc zero) zero fd p q = absurd (cc)
    differ (suc zero) (suc zero) fd p q = refl
    differ (suc zero) (suc (suc j)) fd p q = absurd (cc)
    differ (suc (suc i)) j fd p q = absurd (cc)

    on : OnDevices file0 (3 ∷ 4 ∷ []) ((5 ∷ 6 ∷ []) ∷ (7 ∷ 8 ∷ []) ∷ []) two_shares.world
    on zero fd c p q = rw (sym (some_injective p)) q
    on (suc zero) fd c p q = rw (sym (some_injective p)) q
    on (suc (suc i)) fd c p q = absurd (cc)
