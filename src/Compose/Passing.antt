-- ===== src/Compose/Passing.antt =====
-- A layer of nopfuse.c above another layer of a stack makes no difference.
use safefs.Prelude.{
  ℕ, zero, suc, ◌<◌, ◌==◌, ◌||◌, ◌≡◌, ◌⊎◌, refl, sym, ap, ◌∙◌, inl, inr, Bool, true, false,
  Bool-cases, Option, none, some, ℤ, pos, if◌then◌else◌, List, [], ◌∷◌, ◌++◌, option_cases, arith,
  Action, ◌>>=◌,
}
use safefs.Layers.{MultiDriver, FuseOperations}
use safefs.Config.{Configuration, multi_loopback_layer}
use safefs.MultiLoopback.{DriverMode, Setup, Loopback}
use safefs.MultiLoopback.Directory.{loopback_oper}
use safefs.MultiLoopback.Init.{init_paths, driver_of_mode, init_multi_loopback_driver}
use safefs.Compose.Nopfuse.{init_nop_layer}
use safefs.Compose.Defs.{
  Machine, Operations, installed, init_sfuse_driver, select_codec, seen, init_above, init_layer,
  compose_from, compose_layers,
}

-- No layer of the list is nopfuse.
abbrev pub Without : List ℕ → Type 0
Without [] = Unit
Without (l ∷ ls) = ((l == 3) ≡ false) × Without ls

module _ {W : Type 0} (m : Machine W) (config : Configuration) where
  abbrev add : ℕ → Operations W → Action W (Operations W)
  add = init_layer m config

  abbrev Result : Type 0
  Result = Option ((ℤ × Operations W) × W)

  abbrev from : List ℕ → List ℕ → Operations W → W → Result
  from before ls ops w = compose_from m config before ls ops w

  abbrev known : ℕ → Bool
  known l = seen l (0 ∷ 1 ∷ 2 ∷ 3 ∷ [])

  abbrev behind : ℕ → List ℕ → List ℕ
  behind l before = if l == multi_loopback_layer then [] else l ∷ before

  -- The layer faults, or there is a table behind it.
  abbrev Adds : ℕ → Operations W → W → Type 0
  Adds l ops w =
      (add l ops w ≡ none)
      ⊎ ((t : FuseOperations (Loopback W)) × (w' : W) × (add l ops w ≡ some (some t, w')))

  from_unknown :
      (before ls : List ℕ) (l : ℕ) (ops : Operations W) (w : W)
      → known l ≡ false
      → from before (l ∷ ls) ops w ≡ some ((pos 1, ops), w)
  unfolding compose_from
  from_unknown before ls l ops w e = rw e refl

  from_again :
      (before ls : List ℕ) (l : ℕ) (ops : Operations W) (w : W)
      → known l ≡ true
      → seen l before ≡ true
      → from before (l ∷ ls) ops w ≡ none
  unfolding compose_from
  from_again before ls l ops w e again = rw (e, again) refl

  from_fault :
      (before ls : List ℕ) (l : ℕ) (ops : Operations W) (w : W)
      → known l ≡ true
      → add l ops w ≡ none
      → from before (l ∷ ls) ops w ≡ none
  unfolding compose_from
  from_fault before ls l ops w e failed = elim (Bool-cases (seen l before)) [
    | inl again ↦ from_again before ls l ops w e again
    | inr new ↦ rw (e, new, failed) refl
  ]

  from_next :
      (before ls : List ℕ) (l : ℕ) (ops t : Operations W) (w w' : W)
      → known l ≡ true
      → seen l before ≡ false
      → add l ops w ≡ some (t, w')
      → from before (l ∷ ls) ops w ≡ from (behind l before) ls t w'
  unfolding compose_from
  from_next before ls l ops t w w' e new added = rw (e, new, added) refl

  -- Two runs that go on alike behind their first layer, of the same number, are alike.
  from_alike :
      (a b xs ys : List ℕ) (l : ℕ) (ops : Operations W) (w : W)
      → seen l a ≡ seen l b
      → Adds l ops w
      → ((t : FuseOperations (Loopback W)) (w' : W)
          → seen l b ≡ false
          → from (behind l a) xs (some t) w' ≡ from (behind l b) ys (some t) w')
      → from a (l ∷ xs) ops w ≡ from b (l ∷ ys) ops w
  from_alike a b xs ys l ops w same adds rest = elim (Bool-cases (known l)) [
    | inr unknown ↦ from_unknown a xs l ops w unknown ∙ sym (from_unknown b ys l ops w unknown)
    | inl e ↦ elim (Bool-cases (seen l b)) [
      | inl again ↦ from_again a xs l ops w e (same ∙ again) ∙ sym (from_again b ys l ops w e again)
      | inr new ↦ elim adds [
        | inl failed ↦ from_fault a xs l ops w e failed ∙ sym (from_fault b ys l ops w e failed)
        | inr (t, w', added) ↦
            from_next a xs l ops (some t) w w' e (same ∙ new) added
            ∙ rest t w' new
            ∙ sym (from_next b ys l ops (some t) w w' e new added)
      ]
    ]
  ]

  -- Above a table there is always a table.
  table_above : (l : ℕ) (t : FuseOperations (Loopback W)) (w : W) → Adds l (some t) w
  unfolding init_layer
  table_above l t w = elim (Bool-cases (l == 0)) [
    | inl lowest ↦ rw lowest (keeps _ t)
    | inr above ↦ rw above (inr (init_above m config l t, w, refl))
  ]
    where
      keeps :
          (r : Option ((ℤ × Option (Setup W)) × W)) (t : FuseOperations (Loopback W))
          → (installed m r (some t) ≡ none)
            ⊎ ((u : FuseOperations (Loopback W)) × (w' : W) × (installed m r (some t)
                  ≡ some (some u, w')))
      keeps none t = inl refl
      keeps (some ((res, none), w)) t = inr (t, w, refl)
      keeps (some ((res, some g), w)) t = inr (_, w, refl)

  driver_lem :
      (mode : ℕ)
      → mode < 3
      → (d : DriverMode × MultiDriver W) × (driver_of_mode m.os m.rand_pseudo_bytes m.erasure_ops
            m.order m.junk m.junk_error mode
          ≡ some d)
  unfolding driver_of_mode
  driver_lem zero h = (_, refl)
  driver_lem (suc zero) h = (_, refl)
  driver_lem (suc (suc zero)) h = (_, refl)
  driver_lem (suc (suc (suc n))) h = absurd (omega arith)

  -- In a known mode multi_loopback faults or sets its table.
  init_lem :
      (ops : Operations W) (w : W)
      → config.m_loop_config.mode < 3
      → (installed m
            (init_multi_loopback_driver m.os m.rand_pseudo_bytes m.erasure_ops m.order m.junk
              m.junk_error config w)
            ops
          ≡ none)
        ⊎ ((t : FuseOperations (Loopback W)) × (w' : W) × (installed m
                (init_multi_loopback_driver m.os m.rand_pseudo_bytes m.erasure_ops m.order m.junk
                  m.junk_error config w)
                ops
              ≡ some (some t, w')))
  unfolding init_multi_loopback_driver
  init_lem ops w h =
      let (d, chosen) = driver_lem config.m_loop_config.mode h in
      elim (option_cases (init_paths m.os config.m_loop_config w)) [
        | inl failed ↦ inl (rw (◌>>=◌, failed) refl)
        | inr (r, made) ↦ inr (
          loopback_oper
              (record {
                os = m.os;
                mode = d.0;
                ndevs = config.m_loop_config.ndevs;
                devices_path = r.0;
                driver = d.1;
                order = m.order;
                junk = m.junk;
                junk_error = m.junk_error;
              })
              m.full m.rounds,
          r.1,
          rw (◌>>=◌, made, chosen) refl,
        )
      ]

  table_first : (l : ℕ) (ops : Operations W) (w : W) → config.m_loop_config.mode < 3 → Adds l ops w
  unfolding init_layer
  table_first l none w h = elim (Bool-cases (l == 0)) [
    | inl lowest ↦ rw lowest (init_lem none w h)
    | inr above ↦ rw above (inl refl)
  ]
  table_first l (some t) w h = table_above l t w

  -- Only whether a layer was seen counts.
  from_cong :
      (a b ls : List ℕ) (t : FuseOperations (Loopback W)) (w : W)
      → ((l : ℕ) → (l == 3) ≡ false → seen l a ≡ seen l b)
      → Without ls
      → from a ls (some t) w ≡ from b ls (some t) w
  unfolding compose_from
  from_cong a b [] t w same wl = refl
  from_cong a b (l ∷ ls) t w same (other, wl) =
      from_alike a b ls ls l (some t) w (same l other) (table_above l t w)
        (λ u w' new. from_cong (behind l a) (behind l b) ls u w' (same_behind a b l same) wl)
    where
      same_behind :
          (a b : List ℕ) (l : ℕ)
          → ((l : ℕ) → (l == 3) ≡ false → seen l a ≡ seen l b)
          → (j : ℕ) → (j == 3) ≡ false
          → seen j (behind l a) ≡ seen j (behind l b)
      same_behind a b l same j other = elim (Bool-cases (l == 0)) [
        | inl lowest ↦ rw lowest refl
        | inr above ↦ rw above (ap (λ x. j == l || x) (same j other))
      ]

  passing : (t : FuseOperations (Loopback W)) (w : W) → add 3 (some t) w ≡ some (some t, w)
  unfolding init_layer init_above init_nop_layer
  passing t w = refl

  kept : (l : ℕ) (before : List ℕ) → (l == 3) ≡ false → seen l (3 ∷ before) ≡ seen l before
  kept l before other = rw other refl

  new_behind :
      (l : ℕ) (before : List ℕ)
      → (l == 3) ≡ false
      → seen 3 before ≡ false
      → seen 3 (behind l before) ≡ false
  new_behind l before other new = elim (Bool-cases (l == 0)) [
    | inl lowest ↦ rw lowest refl
    | inr above ↦ rw (above, swap l other) new
  ]
    where
      swap : (l : ℕ) → (l == 3) ≡ false → (3 == l) ≡ false
      swap l other = ground arith

  insert_behind :
      (before xs ys : List ℕ) (t : FuseOperations (Loopback W)) (w : W)
      → seen 3 before ≡ false
      → Without xs
      → Without ys
      → from before (xs ++ 3 ∷ ys) (some t) w ≡ from before (xs ++ ys) (some t) w
  insert_behind before [] ys t w new wx wy =
      from_next before ys 3 (some t) (some t) w w refl new (passing t w)
      ∙ from_cong (3 ∷ before) before ys t w (λ l other. kept l before other) wy
  insert_behind before (l ∷ xs) ys t w new (other, wx) wy =
      from_alike before before (xs ++ 3 ∷ ys) (xs ++ ys) l (some t) w refl (table_above l t w)
        (λ u w' fresh.
          insert_behind (behind l before) xs ys u w' (new_behind l before other new) wx wy)

  pub insert_lem :
      (xs ys : List ℕ) (l : ℕ) (w : W)
      → config.m_loop_config.mode < 3
      → (l == 3) ≡ false
      → Without xs
      → Without ys
      → from [] (l ∷ (xs ++ 3 ∷ ys)) none w ≡ from [] (l ∷ (xs ++ ys)) none w
  insert_lem xs ys l w h other wx wy =
      from_alike [] [] (xs ++ 3 ∷ ys) (xs ++ ys) l none w refl (table_first l none w h)
        (λ u w' fresh. insert_behind (behind l []) xs ys u w' (new_behind l [] other refl) wx wy)

module _ {W : Type 0} (m : Machine W) (config : Configuration) where
  abbrev asking : List ℕ → Configuration
  asking ls = record config { layers = ls }

  -- Which layers the configuration lists does not matter to the loop, which is given them.
  same_run :
      (a b before ls : List ℕ) (ops : Operations W) (w : W)
      → compose_from m (asking a) before ls ops w ≡ compose_from m (asking b) before ls ops w
  unfolding compose_from init_layer init_above init_sfuse_driver select_codec
      init_multi_loopback_driver
  same_run a b before [] ops w = refl
  same_run a b before (l ∷ ls) ops w = refl

  -- A layer of nopfuse directly above another layer of a stack, the lowest or a higher one, makes no
  -- difference: `compose_layers` does the same with it and without it, also where it fails. The
  -- other layers are none of nopfuse, and the mode of multi_loopback is one of the three that there are.
  pub compose_layers-nopfuse :
      (l : ℕ) (xs ys : List ℕ) (w : W)
      → config.m_loop_config.mode < 3
      → (l == 3) ≡ false
      → Without xs
      → Without ys
      → compose_layers m (asking (l ∷ (xs ++ 3 ∷ ys))) w
        ≡ compose_layers m (asking (l ∷ (xs ++ ys))) w
  unfolding compose_layers
  compose_layers-nopfuse l xs ys w h other wx wy =
      insert_lem m (asking (l ∷ (xs ++ 3 ∷ ys))) xs ys l w h other wx wy
      ∙ same_run (l ∷ (xs ++ 3 ∷ ys)) (l ∷ (xs ++ ys)) [] (l ∷ (xs ++ ys)) none w
