-- ===== src/Tests/Spread.antt =====
-- multi_loopback with two devices in the world of the tests.
use safefs.Prelude.{
  ℕ, zero, suc, ◌+◌, ◌<◌, ◌≡◌, refl, ap, ◌∙◌, Bool, false, inl, inr, none, some, ℤ, pos, List, [],
  ◌∷◌, length, arith, ◌++◌,
}
use safefs.Layers.{FilePath, Buffer, FileInfo, MultiDriver}
use safefs.Config.{Configuration}
use safefs.Utils.{mkdir_p, make_one, mkdir_from}
use safefs.Utils.Ancestors.{IsMkdir, Made, mkdir_p_lem}
use safefs.MultiLoopback.{
  rep, xor, DriverMode, Setup, Loopback, MpathAux, LoopbackDirp, device_path,
}
use safefs.MultiLoopback.Wait.{IsIn, here, there}
use safefs.MultiLoopback.Interleave.{IsIn-cases}
use safefs.MultiLoopback.Devices.{IsSchedule}
use safefs.MultiLoopback.Contract.{IsSpreadFile}
use safefs.MultiLoopback.Directory.{loopback_oper, loopback_readdir}
use safefs.MultiLoopback.Init.{init_multi_loopback_driver}
use safefs.MultiLoopback.Spread.{IsSpread}
use safefs.MultiLoopback.Splitters.{rep_driver, first_of}
use safefs.MultiLoopback.Xored.{xor_driver, xored}
use safefs.MultiLoopback.Refine.{loopback_oper-xor_driver, loopback_oper-rep_driver}
use safefs.MultiLoopback.Mounted.{init_multi_loopback_driver-xor}
use safefs.MultiLoopback.Listing.{IsStream, loopback_readdir_lem}
use safefs.Tests.World.{World, file0, posix0, posix0-IsDisk}

abbrev bytes0 : ℕ → Buffer → Buffer
bytes0 seed [] = []
bytes0 seed (x ∷ xs) = seed ∷ bytes0 (seed + 3) xs

length-bytes0 : (seed : ℕ) (b : Buffer) → length (bytes0 seed b) ≡ length b
length-bytes0 seed [] = refl
length-bytes0 seed (x ∷ xs) = ap suc (length-bytes0 (seed + 3) xs)

abbrev pub rand0 : Buffer → ℕ → World → Buffer × World
rand0 b n w = (bytes0 w.seed b, record w { seed = w.seed + 1 })

rand0_fills : (b : Buffer) (n : ℕ) (w : World) → length b ≡ n → length (rand0 b n w).0 ≡ n
rand0_fills b n w h = length-bytes0 w.seed b ∙ h

-- The thread of the second device is the first to run.
abbrev pub order0 : List ℕ
order0 = 1 ∷ 0 ∷ []

pub order0-IsSchedule : IsSchedule order0 2
order0-IsSchedule = record {
  once = (((λ e. absurd (cc)), tt), (tt, tt));
  devices = within;
  all_served = served;
}
  where
    within : (i : ℕ) → IsIn i (1 ∷ 0 ∷ []) → i < 2
    within i at = elim (IsIn-cases i 1 (0 ∷ []) at) [
      | inl e ↦ omega (arith, e)
      | inr later ↦ elim (IsIn-cases i 0 [] later) [
        | inl e ↦ omega (arith, e)
        | inr none_left ↦ elim none_left [ ]
      ]
    ]

    served : (i : ℕ) → i < 2 → IsIn i (1 ∷ 0 ∷ [])
    served zero h = there here
    served (suc zero) h = here
    served (suc (suc i)) h = absurd (omega arith)

abbrev pub dev_a : FilePath
dev_a = b'/' ∷ b'a' ∷ []

abbrev pub dev_b : FilePath
dev_b = b'/' ∷ b'b' ∷ b'/' ∷ []

abbrev pub path_f : FilePath
path_f = b'/' ∷ b'f' ∷ []

abbrev pub fi_f : FileInfo
fi_f = record { flags = 0; fh = 0 }

abbrev pub config0 : ℕ → Configuration
config0 mode = record {
  enc_config = record { key = []; iv = []; key_size = 16; mode = 0 };
  m_loop_config = record {
    loop_paths = dev_a ∷ dev_b ∷ [];
    root_path = [];
    mode = mode;
    ndevs = 2;
  };
  block_config = record { block_size = 4096; mode = 1 };
  layers = 0 ∷ [];
  logging_configuration = record { mode = 0 };
}

abbrev null_driver : MultiDriver World
null_driver = rep_driver

abbrev pub setup_of : DriverMode → MultiDriver World → Setup World
setup_of mode driver = record {
  os = posix0;
  mode = mode;
  ndevs = 2;
  devices_path = dev_a ∷ dev_b ∷ [];
  driver = driver;
  order = order0;
  junk = (λ n. n + 170);
  junk_error = pos 0;
}

two_fit :
    (mode : DriverMode) (driver : MultiDriver World) (i : ℕ)
    → i < 2
    → (p : FilePath) × (device_path (setup_of mode driver) path_f i ≡ some p)
unfolding device_path
two_fit mode driver zero h = (dev_a ++ path_f, refl)
two_fit mode driver (suc zero) h = (dev_b ++ path_f, refl)
two_fit mode driver (suc (suc i)) h = absurd (omega arith)

abbrev pub never_full : List FilePath → Bool
never_full _ = false

loopback_oper-xor_driver_example :
    IsSpreadFile path_f fi_f
      (loopback_oper (setup_of xor (xor_driver rand0)) never_full 9)
      (IsSpread (setup_of xor (xor_driver rand0)) file0 xored fi_f)
loopback_oper-xor_driver_example =
    loopback_oper-xor_driver (setup_of xor (xor_driver rand0)) never_full 9 file0 path_f fi_f rand0
      rand0_fills (λ b n w h. refl) posix0-IsDisk refl refl (omega arith) order0-IsSchedule
      (two_fit xor (xor_driver rand0))

-- The file below sfuse in the tests of the layers above.
pub spread0-IsSpreadFile :
    IsSpreadFile path_f fi_f
      (loopback_oper (setup_of xor (xor_driver rand0)) never_full 9)
      (IsSpread (setup_of xor (xor_driver rand0)) file0 xored fi_f)
spread0-IsSpreadFile =
    loopback_oper-xor_driver (setup_of xor (xor_driver rand0)) never_full 9 file0 path_f fi_f rand0
      rand0_fills (λ b n w h. refl) posix0-IsDisk refl refl (omega arith) order0-IsSchedule
      (two_fit xor (xor_driver rand0))

loopback_oper-rep_driver_example :
    IsSpreadFile path_f fi_f
      (loopback_oper (setup_of rep rep_driver) never_full 9)
      (IsSpread (setup_of rep rep_driver) file0 first_of fi_f)
loopback_oper-rep_driver_example =
    loopback_oper-rep_driver (setup_of rep rep_driver) never_full 9 file0 path_f fi_f posix0-IsDisk
      refl refl (omega arith) order0-IsSchedule (two_fit rep rep_driver)

abbrev pub world0 : World
world0 = record {
  seed = 5;
  error = 0;
  files = (λ _. none);
  made = [];
  names = path_f ∷ dev_a ∷ [];
  stored = (λ _. none);
}

pub makes_a : (w : World) → (w' : World) × (mkdir_p posix0 dev_a w ≡ some (pos 0, w'))
unfolding mkdir_p mkdir_from make_one
makes_a w = (_, refl)

pub makes_b : (w : World) → (w' : World) × (mkdir_p posix0 dev_b w ≡ some (pos 0, w'))
unfolding mkdir_p mkdir_from make_one
makes_b w = (_, refl)

init_multi_loopback_driver-xor_example :
    (g : Setup World) × (w' : World) × (init_multi_loopback_driver posix0 rand0 rep_driver order0
        (λ n. n + 170)
        (pos 0)
        (config0 1)
        world0
      ≡ some ((pos 0, some g), w'))
    × IsSpreadFile path_f fi_f (loopback_oper g never_full 9) (IsSpread g file0 xored fi_f)
init_multi_loopback_driver-xor_example =
    init_multi_loopback_driver-xor posix0 rand0 rep_driver order0 (λ n. n + 170) (pos 0) file0
      never_full 9 path_f fi_f (config0 1) world0 rand0_fills (λ b n w h. refl) posix0-IsDisk refl
      refl (omega arith) order0-IsSchedule (makes_a, (makes_b, tt)) (omega arith, (omega arith, tt))

abbrev Made0 : World → FilePath → Type 0
Made0 w p = IsIn p w.made

posix0-IsMkdir : IsMkdir posix0 Made0
posix0-IsMkdir = record {
  made = (λ p w e. here);
  there_before = (λ p w differs e. absurd (differs refl));
  stays = (λ p q w at. there at);
}

mkdir_p_lem_example :
    (res : ℤ) × (w' : World) × (mkdir_p posix0 dev_b world0 ≡ some (res, w'))
    × Made posix0 Made0 posix0-IsMkdir (b'/' ∷ []) (b'b' ∷ b'/' ∷ []) world0 (res, w')
mkdir_p_lem_example =
    mkdir_p_lem posix0 Made0 posix0-IsMkdir b'/' (b'b' ∷ b'/' ∷ []) world0 (omega arith)

readdir0-IsStream : IsStream posix0 (λ w _. w.names)
readdir0-IsStream = record {
  next_law = (λ w dp name names e. (record w { names = names }, rw e refl, refl));
  end_law = (λ w dp e. (w, rw e refl, e));
}

abbrev dirp0 : LoopbackDirp
dirp0 = record { dp = some 4; entry = none; offset = 0 }

abbrev handle0 : MpathAux
handle0 = record { ldp = dirp0 ∷ dirp0 ∷ []; devs_fd = [] }

abbrev loopback0 : Loopback World
loopback0 = record { world = world0; handles = (λ _. some handle0); next_handle = 1 }

loopback_readdir_lem_example :
    (s' : Loopback World) × (loopback_readdir
        (setup_of rep rep_driver)
        never_full
        3
        path_f
        (dev_b ∷ [])
        0
        fi_f
        loopback0
      ≡ some ((pos 0, dev_b ∷ path_f ∷ dev_a ∷ []), s'))
    × (s'.world.names ≡ [])
    × ((mp' : MpathAux) × (s'.handles 0 ≡ some mp') × (mp'.devs_fd ≡ []))
loopback_readdir_lem_example =
    loopback_readdir_lem (setup_of rep rep_driver) (λ w _. w.names) readdir0-IsStream never_full
      (λ _. refl) path_f (dev_b ∷ []) (path_f ∷ dev_a ∷ []) fi_f 3 loopback0 handle0 dirp0 refl refl
      refl refl refl (omega arith)
