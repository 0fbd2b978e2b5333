-- ===== src/Compose/Defs.antt =====
-- `init_sfuse_driver` of sfuse.c, and `compose_layers` of SFSFuse.c with the initialisers that it calls.
use safefs.Prelude.{
  ℕ, ◌==◌, ◌||◌, Bool, false, Option, none, some, ℤ, pos, neg_one, if◌then◌else◌, List, [], ◌∷◌,
  Action, fault,
}
use safefs.Layers.{FilePath, Buffer, Stat, FuseOperations, MultiDriver}
use safefs.Alignfuse.{AlignMode, nop, block, unknown, init_align_driver}
use safefs.MultiLoopback.Posix.{Posix}
use safefs.MultiLoopback.{Setup, Loopback}
use safefs.MultiLoopback.Directory.{loopback_oper}
use safefs.MultiLoopback.Init.{init_multi_loopback_driver}
use safefs.Sfuse.{
  EncodeDriver, sfuse_oper, nop_driver, nop_padded_driver, Evp, Libc, det_driver, rand_driver,
}
use safefs.Config.{Configuration, multi_loopback_layer, sfuse_layer, block_align_layer}
use safefs.Compose.Nopfuse.{init_nop_layer}

-- NOPCRYPT, NOPCRYPT_PAD, STANDARD and DETERMINISTIC
abbrev pub nopcrypt : ℕ
nopcrypt = 0

abbrev pub nopcrypt_pad : ℕ
nopcrypt_pad = 1

abbrev pub standard : ℕ
standard = 2

abbrev pub deterministic : ℕ
deterministic = 3

abbrev align_mode : ℕ → AlignMode
align_mode mode = if mode == 0 then nop else (if mode == 1 then block else unknown)

abbrev pub seen : ℕ → List ℕ → Bool
seen layer [] = false
seen layer (l ∷ ls) = layer == l || seen layer ls

-- What the layers call outside the program, what uninitialised memory holds, the driver of
-- multi_loop_drivers/erasure.c, the order in which the threads run, and the bounds of a listing.
pub record Machine (W : Type 0) : Type 0 where
  pub os : Posix W
  pub is_reg : ℕ → Bool
  pub junk : ℕ → ℕ
  pub junk_stat : Stat
  pub junk_fh : ℕ
  pub junk_error : ℤ
  pub evp : Evp
  pub libc : Libc (Loopback W)
  pub rand_pseudo_bytes : Buffer → ℕ → W → Buffer × W
  pub erasure_ops : MultiDriver W
  pub order : List ℕ
  pub full : List FilePath → Bool
  pub rounds : ℕ

-- A pointer to a table, which may not be set.
abbrev pub Operations : Type 0 → Type 0
Operations W = Option (FuseOperations (Loopback W))

module _ {W : Type 0} (m : Machine W) where
  abbrev pub errno_of : Loopback W → ℕ
  errno_of s = m.os.errno s.world

  -- The codec of the mode, for keys of 16 bytes.
  unfoldable pub select_codec : Configuration → Option (EncodeDriver (Loopback W))
  unfolding nop_driver nop_padded_driver det_driver rand_driver
  select_codec config =
      let enc = config.enc_config in
      let block_size = config.block_config.block_size in
      if enc.mode == standard
      then some (rand_driver m.evp enc.key 16 m.junk m.libc block_size m.junk_fh)
      else (if enc.mode == deterministic
          then some (det_driver m.evp enc.key 16 m.junk block_size enc.iv m.junk_fh)
          else (if enc.mode == nopcrypt
              then some nop_driver
              else (if enc.mode == nopcrypt_pad
                  then some (nop_padded_driver block_size)
                  else none)))

  -- For an unknown mode the table stays as it is.
  unfoldable pub init_sfuse_driver :
      Configuration → FuseOperations (Loopback W) → ℤ × FuseOperations (Loopback W)
  unfolding select_codec sfuse_oper
  init_sfuse_driver config originop = elim (select_codec config) [
    | none ↦ (neg_one, originop)
    | some enc_driver ↦ (pos 0, sfuse_oper errno_of m.is_reg m.junk enc_driver originop)
  ]

  -- What `init_multi_loopback_driver` makes of the pointer: for an unknown mode it stays as it is, and
  -- where a path is missing, not made or too many, the program has ended.
  abbrev pub installed :
      Option ((ℤ × Option (Setup W)) × W) → Operations W → Option (Operations W × W)
  installed none operations = none
  installed (some ((res, none), w)) operations = some (operations, w)
  installed (some ((res, some g), w)) operations = some (some (loopback_oper g m.full m.rounds), w)

  -- What a layer above multi_loopback makes of the table below it.
  unfoldable pub init_above :
      Configuration → ℕ → FuseOperations (Loopback W) → FuseOperations (Loopback W)
  unfolding init_sfuse_driver init_align_driver init_nop_layer
  init_above config layer originop =
      if layer == block_align_layer
      then init_align_driver errno_of (align_mode config.block_config.mode)
          config.block_config.block_size m.junk m.junk_stat m.junk_fh originop
      else (if layer == sfuse_layer
          then (init_sfuse_driver config originop).1
          else init_nop_layer originop)

  -- What the layers make of the table so far. Each but the lowest follows the pointer to it, which
  -- nothing has set at first, and the results of the initialisers are not looked at.
  unfoldable pub init_layer : Configuration → ℕ → Operations W → Action W (Operations W)
  unfolding init_above init_multi_loopback_driver
  init_layer config layer operations w =
      if layer == multi_loopback_layer
      then installed
          (init_multi_loopback_driver m.os m.rand_pseudo_bytes m.erasure_ops m.order m.junk
            m.junk_error config w)
          operations
      else elim operations [
        | none ↦ none
        | some originop ↦ some (some (init_above config layer originop), w)
      ]

  -- The loop. A layer keeps the table that it calls in a global, so one that is asked for twice
  -- above the same multi_loopback calls itself without end, which is a fault here.
  unfoldable pub compose_from :
      Configuration → List ℕ → List ℕ → Operations W → Action W (ℤ × Operations W)
  unfolding init_layer
  compose_from config before [] operations w = some ((pos 0, operations), w)
  compose_from config before (layer ∷ layers) operations w =
      if seen layer (0 ∷ 1 ∷ 2 ∷ 3 ∷ [])
      then elim (if seen layer before then none else init_layer config layer operations w) [
        | none ↦ none
        | some (operations', w') ↦
            compose_from config (if layer == multi_loopback_layer then [] else layer ∷ before)
              layers operations' w'
      ]
      else some ((pos 1, operations), w)

  -- Without any layer a null pointer is followed.
  unfoldable pub compose_layers : Configuration → Action W (ℤ × Operations W)
  unfolding compose_from
  compose_layers config = elim config.layers [
    | [] ↦ fault
    | layer ∷ layers ↦ compose_from config [] (layer ∷ layers) none
  ]
