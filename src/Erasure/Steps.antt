-- ===== src/Erasure/Steps.antt =====
-- The erasure driver as a state machine: any sequence of calls of its functions.
use mathlib.Core.Option.{none-ne-some}
use safefs.Prelude.{
  if◌then◌else◌, neg_one, ℕ, suc, ◌+◌, ◌-◌, ◌%◌, ◌^◌, ◌≤◌, ◌<◌, ◌≡◌, refl, sym, subst, ◌∙◌, Option,
  none, some, arith, List, Bool, not, true, false, ◌>>=◌, lift, ℤ, bind_inv, lift_inv, pure_inv,
}
use safefs.Layers.{FilePath, Buffer}
use safefs.Erasure.Map.{
  Table, IsTable, hash_contains_key, hash_get, hash_put, move_key, remove_keys,
}
use safefs.Erasure.Defs.{
  offset_of_block, to_off, size_of_block, rs, ro, OffsetKey, block_key, Erasure, Liberasurecode,
  get_file_id, write_offset, place_block, put_block, record_block, get_erasure_block_offset,
  get_erasure_block_size, erasure_get_file_size, erasure_encode, fragments, erasure_rename,
  erasure_create,
}
use safefs.Erasure.Ids.{
  IsConsistent, IsConsistent-get_file_id, IsConsistent-put_file_id, IsConsistent-put_block,
  IsConsistent-renamed, IsConsistent-created, increment_file_size_lem, get_file_id_new,
}

module _ {P O : Type 0} (paths : Table P FilePath) (offsets : Table O OffsetKey)
    (lib : Liberasurecode) (k m : ℕ) (junk : ℕ → ℕ) where
  -- A call that ended.
  pub data Step (s t : Erasure P O) : Type 0 where
    encode :
        (path : FilePath) (before after : List Buffer) (block : Buffer) (offset size ndevs : ℕ)
        → erasure_encode paths offsets lib k m junk path before block offset size ndevs s
          ≡ some (after, t)
        → Step s t
    block_offset :
        (path : FilePath) (offset : ℕ) (r : ℤ)
        → get_erasure_block_offset paths offsets path offset s ≡ some (r, t)
        → Step s t
    block_size :
        (path : FilePath) (offset r : ℕ)
        → get_erasure_block_size paths offsets path offset s ≡ some (r, t)
        → Step s t
    file_size :
        (path : FilePath) (r : ℕ)
        → erasure_get_file_size paths offsets path s ≡ some (r, t)
        → Step s t
    rename : (from to : FilePath) → erasure_rename paths offsets from to s ≡ some (tt, t) → Step s t
    create : (path : FilePath) → erasure_create paths offsets path s ≡ some (tt, t) → Step s t

  -- `n` calls, one after another.
  pub data Run (s : Erasure P O) : ℕ → Erasure P O → Type 0 where
    here : Run s 0 s
    next : {n : ℕ} {t u : Erasure P O} → Run s n t → Step t u → Run s (suc n) u

-- As `init_erasure` leaves the driver.
pub record IsEmpty {P O : Type 0} (paths : Table P FilePath) (offsets : Table O OffsetKey)
    (s : Erasure P O) : Type 0 where
  pub no_id : s.file_id ≡ 0
  pub no_path : (p : FilePath) → hash_get paths s.file_ids p ≡ none
  pub no_block : (key : OffsetKey) → hash_get offsets s.offset_map key ≡ none

module _ {P O : Type 0} (paths : Table P FilePath) (offsets : Table O OffsetKey)
    (path_laws : IsTable paths) (offset_laws : IsTable offsets) where
  abbrev Kept : Erasure P O → Erasure P O → Type 0
  Kept s t = IsConsistent paths offsets path_laws offset_laws t × (t.file_id ≤ s.file_id + 1)

  Kept-file_id :
      (s t : Erasure P O) (path : FilePath) (i : ℕ)
      → IsConsistent paths offsets path_laws offset_laws s
      → s.file_id + 1 < 2 ^ 64
      → get_file_id paths offsets path s ≡ some (i, t)
      → Kept s t
  Kept-file_id s t path i inv small e =
      let (j, n, e', inv', _, le, _) =
        IsConsistent-get_file_id paths offsets path_laws offset_laws s path inv small in
      let (_, same) = pure_inv (sym e' ∙ e) in subst (Kept s) same (inv', le)

  place_block_inv :
      (s t : Erasure P O) (i o size len : ℕ)
      → place_block paths offsets i o size len s ≡ some (tt, t)
      → (d : ℕ) × (put_block paths offsets i o size d len s ≡ t)
  unfolding place_block
  place_block_inv s t i o size len e = go (write_offset paths offsets i o s) e
    where
      go :
          (x : Option ℕ)
          → Path
              (Option (Unit {0} × Erasure P O))
              (elim x [
                | none ↦ none
                | some d ↦ some (tt, put_block paths offsets i o size d len s)
              ])
              (some (tt, t))
          → (d : ℕ) × (put_block paths offsets i o size d len s ≡ t)
      go none e = absurd (none-ne-some _ e)
      go (some d) e = (d, (pure_inv e).1)

  Kept-record_block :
      (s t : Erasure P O) (path : FilePath) (o size len : ℕ)
      → IsConsistent paths offsets path_laws offset_laws s
      → s.file_id + 1 < 2 ^ 64
      → record_block paths offsets path o size len s ≡ some (tt, t)
      → Kept s t
  unfolding record_block
  Kept-record_block s t path o size len inv small e =
      let (i, n, id_eq, inv', i_le, n_le, mine) =
        IsConsistent-get_file_id paths offsets path_laws offset_laws s path inv small in
      let s1 : Erasure P O = record s { file_id = n } in
      let (z, size_eq, _) =
        increment_file_size_lem paths offsets path_laws offset_laws
          (record s1 { file_ids = hash_put paths s.file_ids path i }) path o size in
      let s2 : Erasure P O = record s {
        file_id = n;
        file_ids = hash_put paths s.file_ids path i;
        file_sizes = z;
      } in
      let placed : place_block paths offsets i o size len s2 ≡ some (tt, t) =
        sym (rw (id_eq, ◌>>=◌, size_eq) refl) ∙ e in
      let (d, same) = place_block_inv s2 t i o size len placed in
      subst (Kept s) same (
        IsConsistent-put_block paths offsets path_laws offset_laws s2 i o size d len
            (IsConsistent-put_file_id paths offsets path_laws offset_laws s1 path i z inv' i_le
              mine)
            i_le,
        n_le,
      )

  Kept-erasure_encode :
      (lib : Liberasurecode) (k m : ℕ) (junk : ℕ → ℕ) (s t : Erasure P O) (path : FilePath)
      (before after : List Buffer) (block : Buffer) (o size ndevs : ℕ)
      → IsConsistent paths offsets path_laws offset_laws s
      → s.file_id + 1 < 2 ^ 64
      → erasure_encode paths offsets lib k m junk path before block o size ndevs s ≡ some (after, t)
      → Kept s t
  unfolding erasure_encode
  Kept-erasure_encode lib k m junk s t path before after block o size ndevs inv small e =
      let (_, u, recorded, ended) =
        bind_inv (record_block paths offsets path o size (lib.encode block size).2)
          (λ _. lift (fragments paths offsets lib k m junk block size ndevs)) s e in
      let (_, same) = lift_inv (fragments paths offsets lib k m junk block size ndevs) ended in
      subst (Kept s) same (Kept-record_block s u path o size _ inv small recorded)

  if_state :
      {A : Type 0} (b : Bool) (o : Option A) (s t : Erasure P O) (x r : A)
      → Path (Option (A × Erasure P O)) (if b then some (x, s) else lift o s) (some (r, t))
      → s ≡ t
  if_state true o s t x r e = (pure_inv e).1
  if_state false o s t x r e = (lift_inv o e).1

  Kept-get_erasure_block_offset :
      (s t : Erasure P O) (path : FilePath) (o : ℕ) (r : ℤ)
      → IsConsistent paths offsets path_laws offset_laws s
      → s.file_id + 1 < 2 ^ 64
      → get_erasure_block_offset paths offsets path o s ≡ some (r, t)
      → Kept s t
  unfolding get_erasure_block_offset
  Kept-get_erasure_block_offset s t path o r inv small e =
      let (i, u, id_eq, ended) =
        bind_inv (get_file_id paths offsets path) (λ i. offset_of_block paths offsets i o) s e in
      subst (Kept s)
        (if_state (not (hash_contains_key offsets u.offset_map (block_key i ro o)))
          (elim (hash_get offsets u.offset_map (block_key i ro o)) [
            | none ↦ none
            | some n ↦ some (to_off n)
          ])
          u t neg_one r ended)
        (Kept-file_id s u path i inv small id_eq)

  Kept-get_erasure_block_size :
      (s t : Erasure P O) (path : FilePath) (o r : ℕ)
      → IsConsistent paths offsets path_laws offset_laws s
      → s.file_id + 1 < 2 ^ 64
      → get_erasure_block_size paths offsets path o s ≡ some (r, t)
      → Kept s t
  unfolding get_erasure_block_size
  Kept-get_erasure_block_size s t path o r inv small e =
      let (i, u, id_eq, ended) =
        bind_inv (get_file_id paths offsets path) (λ i. size_of_block paths offsets i o) s e in
      subst (Kept s)
        (if_state (not (hash_contains_key offsets u.offset_map (block_key i rs o)))
          (hash_get offsets u.offset_map (block_key i rs o)) u t (2 ^ 64 - 1) r ended)
        (Kept-file_id s u path i inv small id_eq)

  Kept-erasure_get_file_size :
      (s t : Erasure P O) (path : FilePath) (r : ℕ)
      → IsConsistent paths offsets path_laws offset_laws s
      → erasure_get_file_size paths offsets path s ≡ some (r, t)
      → Kept s t
  unfolding erasure_get_file_size
  Kept-erasure_get_file_size s t path r inv e =
      subst (Kept s)
        (if_state (not (hash_contains_key paths s.file_sizes path))
          (hash_get paths s.file_sizes path) s t 0 r e)
        (inv, omega arith)

  module _ (lib : Liberasurecode) (k m : ℕ) (junk : ℕ → ℕ) where
    Step-IsConsistent :
        (s t : Erasure P O)
        → IsConsistent paths offsets path_laws offset_laws s
        → s.file_id + 1 < 2 ^ 64
        → Step paths offsets lib k m junk s t
        → Kept s t
    unfolding erasure_rename erasure_create
    Step-IsConsistent s t inv small (encode path before after block o size ndevs e) =
        Kept-erasure_encode lib k m junk s t path before after block o size ndevs inv small e
    Step-IsConsistent s t inv small (block_offset path o r e) =
        Kept-get_erasure_block_offset s t path o r inv small e
    Step-IsConsistent s t inv small (block_size path o r e) =
        Kept-get_erasure_block_size s t path o r inv small e
    Step-IsConsistent s t inv small (file_size path r e) =
        Kept-erasure_get_file_size s t path r inv e
    Step-IsConsistent s t inv small (rename from to e) = subst (Kept s) (pure_inv e).1 (
      IsConsistent-renamed paths offsets path_laws offset_laws s from to
          (move_key paths s.file_sizes from to) inv,
      omega arith,
    )
    Step-IsConsistent s t inv small (create path e) = subst (Kept s) (pure_inv e).1 (
      IsConsistent-created paths offsets path_laws offset_laws s path
          (remove_keys paths s.file_sizes path) inv,
      omega arith,
    )

    Run-bounded :
        (s : Erasure P O) {n : ℕ} {t : Erasure P O}
        → IsEmpty paths offsets s
        → Run paths offsets lib k m junk s n t
        → n < 2 ^ 64
        → IsConsistent paths offsets path_laws offset_laws t × (t.file_id ≤ n)
    Run-bounded s empty here few = (
      record {
        distinct = λ p q i h _. absurd (none-ne-some i (sym (empty.no_path p) ∙ h));
        given = λ p i h. absurd (none-ne-some i (sym (empty.no_path p) ∙ h));
        unused = λ i o mark _. empty.no_block (block_key i mark o);
      },
      omega (arith, empty.no_id),
    )
    Run-bounded s empty (next {n} {t} {u} run step) few =
        let (inv, le) = Run-bounded s empty run (omega arith) in
        let (inv', le') = Step-IsConsistent t u inv (omega (arith, le)) step in
        (inv', omega (arith, le, le'))

    -- Whatever calls of its functions the erasure driver has served since `init_erasure`, two files never
    -- have the same identifier, identifiers in use do not exceed the counter, and no block is recorded
    -- under an identifier beyond it. The tables of GLib keep their laws, and the calls are fewer than
    -- 2 ^ 64.
    pub Run-IsConsistent :
        (s : Erasure P O) {n : ℕ} {t : Erasure P O}
        → IsEmpty paths offsets s
        → Run paths offsets lib k m junk s n t
        → n < 2 ^ 64
        → IsConsistent paths offsets path_laws offset_laws t
    Run-IsConsistent s empty run few = (Run-bounded s empty run few).0

    -- In every state that the erasure driver reaches, a file that has no identifier, such as a new one,
    -- has no block: the offset of any of its blocks is -1, whatever was recorded for other files. The
    -- tables of GLib keep their laws, and the calls are fewer than 2 ^ 64 - 1.
    pub get_erasure_block_offset-new :
        (s : Erasure P O) {n : ℕ} {t : Erasure P O} (path : FilePath) (o : ℕ)
        → IsEmpty paths offsets s
        → Run paths offsets lib k m junk s n t
        → n + 1 < 2 ^ 64
        → hash_get paths t.file_ids path ≡ none
        → (u : Erasure P O) × (get_erasure_block_offset paths offsets path o t ≡ some (neg_one, u))
    unfolding get_erasure_block_offset
    get_erasure_block_offset-new s {n} {t} path o empty run few new =
        let (inv, le) = Run-bounded s empty run (omega arith) in
        let i = (t.file_id + 1) % 2 ^ 64 in
        let wrap : i ≡ t.file_id + 1 = omega (arith, le) in
        (
          record t { file_id = i },
          rw
              (
                get_file_id_new paths offsets path_laws offset_laws t path new,
                ◌>>=◌,
                offset_laws.contains_law t.offset_map (block_key i ro o),
                inv.unused i o ro (omega (arith, wrap)),
              )
              refl,
        )
