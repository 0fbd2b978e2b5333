-- ===== src/MultiLoopback/Init.antt =====
-- The set-up of multi_loopback.c: the directories of the devices, and the choice of the driver.
use safefs.Prelude.{
  ℕ, zero, suc, ◌==◌, Bool, true, false, Option, none, some, ℤ, pos, eq_ℤ, if◌then◌else◌, List, [],
  ◌∷◌, ◌++◌, Action, pure, fault, ◌>>=◌, ◌>>◌,
}
use safefs.Layers.{FilePath, Buffer, MultiDriver}
use safefs.Utils.{mkdir_p}
use safefs.Config.{MLoopConfig, Configuration}
use safefs.MultiLoopback.Posix.{Posix}
use safefs.MultiLoopback.Requests.{DriverMode, rep, xor, erasure}
use safefs.MultiLoopback.State.{Setup}
use safefs.MultiLoopback.Xored.{xor_driver}
use safefs.MultiLoopback.Splitters.{rep_driver}

abbrev pub ends_with_slash : FilePath → Bool
ends_with_slash [] = false
ends_with_slash (c ∷ []) = c == b'/'
ends_with_slash (c ∷ d ∷ rest) = ends_with_slash (d ∷ rest)

-- The array of a path has the room for one more byte.
unfoldable pub with_slash : FilePath → FilePath
with_slash path = if ends_with_slash path then path else path ++ (b'/' ∷ [])

-- A failed `assert` ends the program, a fault here.
abbrev assert_that : {W : Type 0} → Bool → Action W (Unit {0})
assert_that true w = some (tt, w)
assert_that false w = none

module _ {W : Type 0} (os : Posix W) where
  -- The loop, for the devices that have room in `devices_path`.
  unfoldable pub add_paths : ℕ → List FilePath → Action W (List FilePath)
  unfolding mkdir_p with_slash
  add_paths ndevs [] = pure []
  add_paths zero (path ∷ paths) = fault
  add_paths (suc ndevs) (path ∷ paths) = do
    res ← mkdir_p os path
    assert_that (eq_ℤ res (pos 0))
    rest ← add_paths ndevs paths
    pure (with_slash path ∷ rest)

  -- Without any path a null pointer is followed. The pool of threads is the order of the requests.
  unfoldable pub init_paths : MLoopConfig → Action W (List FilePath)
  unfolding add_paths
  init_paths config = elim config.loop_paths [
    | [] ↦ fault
    | path ∷ paths ↦ add_paths config.ndevs (path ∷ paths)
  ]

  -- `erasure_ops` is the driver of multi_loop_drivers/erasure.c after `init_erasure(2, 1)`; `order`,
  -- `junk` and `junk_error` are as in `Setup`.
  module _ (rand_pseudo_bytes : Buffer → ℕ → W → Buffer × W) (erasure_ops : MultiDriver W)
      (order : List ℕ) (junk : ℕ → ℕ) (junk_error : ℤ) where
    unfoldable pub driver_of_mode : ℕ → Option (DriverMode × MultiDriver W)
    unfolding xor_driver rep_driver
    driver_of_mode mode =
        if mode == 1
        then some (xor, xor_driver rand_pseudo_bytes)
        else (if mode == 0
            then some (rep, rep_driver)
            else (if mode == 2 then some (erasure, erasure_ops) else none))

    -- For another mode the table is not set.
    unfoldable pub init_multi_loopback_driver : Configuration → Action W (ℤ × Option (Setup W))
    unfolding init_paths driver_of_mode
    init_multi_loopback_driver config = do
      devices_path ← init_paths config.m_loop_config
      elim (driver_of_mode config.m_loop_config.mode) [
        | none ↦ pure (pos 1, none)
        | some (mode, driver) ↦ pure (
          pos 0,
          some (record {
            os = os;
            mode = mode;
            ndevs = config.m_loop_config.ndevs;
            devices_path = devices_path;
            driver = driver;
            order = order;
            junk = junk;
            junk_error = junk_error;
          }),
        )
      ]
