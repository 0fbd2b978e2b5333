-- ===== src/MultiLoopback/Mounted.antt =====
-- multi_loopback from its configuration on: what `init_multi_loopback_driver` sets up makes a file of
-- bytes.
use safefs.Prelude.{
  ℕ, zero, suc, ◌+◌, ◌<◌, ◌≤◌, ◌≡◌, inl, inr, refl, sym, ◌∙◌, Bool, Bool-cases, Option, some, ℤ,
  pos, List, [], ◌∷◌, ◌++◌, map, length, get_elem?, length-append, length-map, get_elem?-in,
  some_injective, lt→ltb, arith, ◌>>=◌,
}
use safefs.Layers.{FilePath, Buffer, FileInfo, MultiDriver}
use safefs.Utils.{mkdir_p}
use safefs.Config.{Configuration, MLoopConfig}
use safefs.MultiLoopback.Posix.{Posix}
use safefs.MultiLoopback.Requests.{DriverMode, xor}
use safefs.MultiLoopback.State.{Setup, device_path, path_size}
use safefs.MultiLoopback.Wait.{Every}
use safefs.MultiLoopback.Devices.{IsSchedule}
use safefs.MultiLoopback.Contract.{IsDisk, IsSpreadFile}
use safefs.MultiLoopback.Directory.{loopback_oper}
use safefs.MultiLoopback.Spread.{IsSpread}
use safefs.MultiLoopback.Xored.{xor_driver, xored}
use safefs.MultiLoopback.Refine.{loopback_oper-xor_driver}
use safefs.MultiLoopback.Init.{
  with_slash, ends_with_slash, add_paths, init_paths, driver_of_mode, init_multi_loopback_driver,
}

length-with_slash : (p : FilePath) → length (with_slash p) ≤ length p + 1
unfolding with_slash
length-with_slash p = elim (Bool-cases (ends_with_slash p)) [
  | inl e ↦ rw e (omega arith)
  | inr e ↦ rw e (omega (arith, length-append p (b'/' ∷ [])))
]

device_path_lem :
    {W : Type 0} (g : Setup W) (path : FilePath) (i : ℕ) (dev : FilePath)
    → get_elem? g.devices_path i ≡ some dev
    → length (dev ++ path) < path_size
    → device_path g path i ≡ some (dev ++ path)
unfolding device_path
device_path_lem g path i dev e h =
    rw (device_path, e, lt→ltb (length (dev ++ path)) path_size h) refl

module _ {W : Type 0} (os : Posix W) where
  -- The directory of a device can be made, or is there.
  abbrev pub Makes : FilePath → Type 0
  Makes p = (w : W) → (w' : W) × (mkdir_p os p w ≡ some (pos 0, w'))

  add_paths_lem :
      (ndevs : ℕ) (paths : List FilePath) (w : W)
      → length paths ≤ ndevs
      → Every Makes paths
      → (w' : W) × (add_paths os ndevs paths w ≡ some (map with_slash paths, w'))
  unfolding add_paths
  add_paths_lem ndevs [] w h makes = (w, refl)
  add_paths_lem zero (p ∷ ps) w h makes = absurd (omega arith)
  add_paths_lem (suc ndevs) (p ∷ ps) w h (make, makes) =
      let (w1, made) = make w in
      let (w2, rest) = add_paths_lem ndevs ps w1 (omega arith) makes in
      (w2, rw (add_paths, ◌>>=◌, made, rest) refl)

  init_paths-add_paths :
      (config : MLoopConfig) (paths : List FilePath) (w : W)
      → config.loop_paths ≡ paths
      → 1 ≤ length paths
      → init_paths os config w ≡ add_paths os config.ndevs paths w
  unfolding init_paths
  init_paths-add_paths config [] w e h = absurd (omega arith)
  init_paths-add_paths config (p ∷ ps) w e h = rw (init_paths, e) refl

  fits_lem :
      (paths : List FilePath) (path : FilePath) (i : ℕ) (dev : FilePath)
      → Every (λ p. length p + 1 + length path < path_size) paths
      → get_elem? (map with_slash paths) i ≡ some dev
      → length (dev ++ path) < path_size
  fits_lem [] path i dev short e = absurd (cc)
  fits_lem (p ∷ ps) path zero dev (h, short) e =
      let same : with_slash p ≡ dev = some_injective e in
      rw (sym same) (omega (arith, length-append (with_slash p) path, length-with_slash p, h))
  fits_lem (p ∷ ps) path (suc i) dev (h, short) e = fits_lem ps path i dev short e

  module _ (rand_pseudo_bytes : Buffer → ℕ → W → Buffer × W) (erasure_ops : MultiDriver W)
      (order : List ℕ) (junk : ℕ → ℕ) (junk_error : ℤ) where
    abbrev pub device_setup : DriverMode → MultiDriver W → Configuration → Setup W
    device_setup mode driver config = record {
      os = os;
      mode = mode;
      ndevs = config.m_loop_config.ndevs;
      devices_path = map with_slash config.m_loop_config.loop_paths;
      driver = driver;
      order = order;
      junk = junk;
      junk_error = junk_error;
    }

    abbrev xor_setup : Configuration → Setup W
    xor_setup config = device_setup xor (xor_driver rand_pseudo_bytes) config

    pub init_lem :
        (mode : DriverMode) (driver : MultiDriver W) (config : Configuration) (w : W)
        → driver_of_mode os rand_pseudo_bytes erasure_ops order junk junk_error
            config.m_loop_config.mode
          ≡ some (mode, driver)
        → length config.m_loop_config.loop_paths ≡ config.m_loop_config.ndevs
        → 1 ≤ config.m_loop_config.ndevs
        → Every Makes config.m_loop_config.loop_paths
        → (w' : W) × (init_multi_loopback_driver os rand_pseudo_bytes erasure_ops order junk
              junk_error config w
            ≡ some ((pos 0, some (device_setup mode driver config)), w'))
    unfolding init_multi_loopback_driver init_paths
    init_lem mode driver config w chosen count some_device makes =
        let (w', added) =
          add_paths_lem config.m_loop_config.ndevs config.m_loop_config.loop_paths w
            (omega (arith, count)) makes in
        let paths =
          init_paths-add_paths config.m_loop_config config.m_loop_config.loop_paths w refl
            (omega (arith, count, some_device)) in
        (w', rw (init_multi_loopback_driver, ◌>>=◌, paths ∙ added, chosen) refl)

    driver_of_mode-xor :
        (mode : ℕ)
        → mode ≡ 1
        → driver_of_mode os rand_pseudo_bytes erasure_ops order junk junk_error mode
          ≡ some (xor, xor_driver rand_pseudo_bytes)
    unfolding driver_of_mode
    driver_of_mode-xor mode e = rw e refl

    -- The paths of a configuration fit their arrays.
    pub device_setup-fits :
        (mode : DriverMode) (driver : MultiDriver W) (path : FilePath) (config : Configuration)
        → length config.m_loop_config.loop_paths ≡ config.m_loop_config.ndevs
        → Every (λ p. length p + 1 + length path < path_size) config.m_loop_config.loop_paths
        → (i : ℕ) → i < config.m_loop_config.ndevs
        → (p : FilePath) × (device_path (device_setup mode driver config) path i ≡ some p)
    device_setup-fits mode driver path config count short i h =
        let paths = config.m_loop_config.loop_paths in
        let (dev, e) =
          get_elem?-in (map with_slash paths) i
            (omega (arith, length-map with_slash paths, count, h)) in
        (
          dev ++ path,
          device_path_lem (device_setup mode driver config) path i dev e
              (fits_lem paths path i dev short e),
        )

    -- From a configuration in mode XOR, `init_multi_loopback_driver` returns 0 and sets up a table
    -- that makes a file of bytes, of which each device has a share: the file reports its size,
    -- reads from within it or its end give what is there, writes there of less than 2 ^ 31 bytes put
    -- the bytes over those of the file, and truncations to at most its size keep its first bytes.
    -- This holds for a path that fits the arrays for it, in whatever order the threads run, each
    -- once, and whatever the random bytes are. The configuration names as many directories as it
    -- has devices, at least one, and they can be made; the calls on the devices' files move all the
    -- bytes that they are asked for; the generator fills what it is given and changes no file.
    pub init_multi_loopback_driver-xor :
        (file : W → ℕ → Option Buffer) (full : List FilePath → Bool) (rounds : ℕ) (path : FilePath)
        (fi : FileInfo) (config : Configuration) (w : W)
        → ((b : Buffer) (n : ℕ) (w : W) → length b ≡ n → length (rand_pseudo_bytes b n w).0 ≡ n)
        → ((b : Buffer) (n : ℕ) (w : W) (h : ℕ) → file (rand_pseudo_bytes b n w).1 h ≡ file w h)
        → IsDisk os file
        → config.m_loop_config.mode ≡ 1
        → length config.m_loop_config.loop_paths ≡ config.m_loop_config.ndevs
        → 1 ≤ config.m_loop_config.ndevs
        → IsSchedule order config.m_loop_config.ndevs
        → Every Makes config.m_loop_config.loop_paths
        → Every (λ p. length p + 1 + length path < path_size) config.m_loop_config.loop_paths
        → (g : Setup W) × (w' : W) × (init_multi_loopback_driver os rand_pseudo_bytes erasure_ops
              order junk junk_error config w
            ≡ some ((pos 0, some g), w'))
          × IsSpreadFile path fi (loopback_oper g full rounds) (IsSpread g file xored fi)
    init_multi_loopback_driver-xor file full rounds path fi config w fills quiet disk mode count
          some_device schedule makes short =
        let (w', run) =
          init_lem xor (xor_driver rand_pseudo_bytes) config w
            (driver_of_mode-xor config.m_loop_config.mode mode) count some_device makes in
        (
          xor_setup config,
          w',
          run,
          loopback_oper-xor_driver (xor_setup config) full rounds file path fi rand_pseudo_bytes
              fills quiet disk refl refl some_device schedule
              (device_setup-fits xor (xor_driver rand_pseudo_bytes) path config count short),
        )
