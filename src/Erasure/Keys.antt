-- ===== src/Erasure/Keys.antt =====
-- What a table holds after an entry was put, moved or removed.
use mathlib.Core.List.{List-discrete}
use native.Mathlib.Decide.{ℕ_discrete}
use safefs.Prelude.{
  option_cases, ℕ, ◌≡◌, ◌≢◌, refl, sym, ap, subst, ◌∙◌, ◌⊎◌, inl, inr, none, some, arith,
}
use safefs.Layers.{FilePath}
use safefs.Erasure.Map.{Table, IsTable, hash_put, hash_get, move_key, remove_keys}

pub not_none : {x : ℕ} → some x ≡ none → ⊥
not_none e = ground arith

pub some_inj : {x y : ℕ} → some x ≡ some y → x ≡ y
some_inj e = ground arith

pub dec_path : (p q : FilePath) → Dec (p ≡ q)
dec_path = List-discrete ℕ_discrete

module _ {H K : Type 0} (table : Table H K) (laws : IsTable table)
    (dec : (j k : K) → Dec (j ≡ k)) where
  pub get-put :
      (t : H) (k j : K) (v i : ℕ)
      → hash_get table (hash_put table t k v) j ≡ some i
      → ((j ≡ k) × (v ≡ i)) ⊎ ((j ≢ k) × (hash_get table t j ≡ some i))
  get-put t k j v i h = elim (dec j k) [
    | yes same ↦ inl (
      same,
      some_inj (
          sym (laws.insert_law t k v)
          ∙ subst (λ x. hash_get table (hash_put table t k v) x ≡ some i) same h),
    )
    | no other ↦ inr (other, sym (laws.insert_other_law t j k v other) ∙ h)
  ]

  pub get-remove :
      (t : H) (k j : K) (i : ℕ)
      → hash_get table (remove_keys table t k) j ≡ some i
      → (j ≢ k) × (hash_get table t j ≡ some i)
  get-remove t k j i h = elim (dec j k) [
    | yes same ↦ absurd (
        not_none (
          sym (subst (λ x. hash_get table (remove_keys table t k) x ≡ some i) same h)
          ∙ laws.remove_law t k))
    | no other ↦ (other, sym (laws.remove_other_law t j k other) ∙ h)
  ]

  pub move_unknown :
      (t : H) (from to : K) → hash_get table t from ≡ none → move_key table t from to ≡ t
  unfolding move_key
  move_unknown t from to h = rw (move_key, h) refl

  pub move_known :
      (t : H) (from to : K) (v : ℕ)
      → hash_get table t from ≡ some v
      → move_key table t from to ≡ remove_keys table (hash_put table t to v) from
  unfolding move_key
  move_known t from to v h = rw (move_key, h) refl

  pub get-move :
      (t : H) (from to j : K) (i : ℕ)
      → hash_get table (move_key table t from to) j ≡ some i
      → ((j ≡ to) × (hash_get table t from ≡ some i))
        ⊎ ((hash_get table t j ≡ some i) × ((v : ℕ) → hash_get table t from ≡ some v → j ≢ from))
  get-move t from to j i h = elim (option_cases (hash_get table t from)) [
    | inl unknown ↦
        (let kept = subst (λ x. hash_get table x j ≡ some i) (move_unknown t from to unknown) h in
          inr (kept, λ v e. absurd (not_none (sym e ∙ unknown))))
    | inr (v, known) ↦
        (let (other, held) =
            get-remove (hash_put table t to v) from j i
              (subst (λ x. hash_get table x j ≡ some i) (move_known t from to v known) h) in
          elim (get-put t to j v i held) [
            | inl (same, e) ↦ inl (same, known ∙ ap some e)
            | inr (_, kept) ↦ inr (kept, λ _ _. other)
          ])
  ]
