-- ===== src/Prelude/Outcome.antt =====
-- What is known of a step of stateful code that ended with a result.
use mathlib.Core.Path.{◌≡◌, refl, ap}
use mathlib.Core.Option.{Option, none, some, some-injective, none-ne-some}
use mathlib.Core.Logic.{◌⊎◌, inl, inr}
use safefs.Prelude.Effect.{Action, lift, ◌>>=◌}

pub option_cases {ℓ} : {A : Type ℓ} (x : Option A) → (x ≡ none) ⊎ ((a : A) × (x ≡ some a))
option_cases none = inl refl
option_cases (some a) = inr (a, refl)

module _ {ℓ κ} {S : Type ℓ} {A : Type κ} where
  pub pure_inv :
      {a b : A} {s t : S} → Path (Option (A × S)) (some (a, s)) (some (b, t)) → (a ≡ b) × (s ≡ t)
  pure_inv {a} {b} {s} {t} e =
      let p : Path (A × S) (a, s) (b, t) = some-injective (a, s) (b, t) e in
      (ap (λ x. x.0) p, ap (λ x. x.1) p)

  pub lift_inv :
      (o : Option A) {b : A} {s t : S}
      → Path (Option (A × S)) (lift o s) (some (b, t))
      → (o ≡ some b) × (s ≡ t)
  lift_inv none e = absurd (none-ne-some _ e)
  lift_inv (some a) e = let (same, state) = pure_inv e in (ap some same, state)

  -- A chain of two steps that ended did the first one.
  pub bind_inv {μ} :
      {B : Type μ} (m : Action S A) (f : A → Action S B) (s : S) {b : B} {t : S}
      → Path (Option (B × S)) ((m >>= f) s) (some (b, t))
      → (a : A) × (u : S) × (m s ≡ some (a, u)) × (f a u ≡ some (b, t))
  bind_inv m f s {b} {t} e = go (m s) refl e
    where
      go :
          (r : Option (A × S))
          → m s ≡ r
          → Path (Option _) (elim r [ none ↦ none | some (a, u) ↦ f a u ]) (some (b, t))
          → (a : A) × (u : S) × (m s ≡ some (a, u)) × (f a u ≡ some (b, t))
      go none first e = absurd (none-ne-some _ e)
      go (some (a, u)) first e = (a, u, first, e)
