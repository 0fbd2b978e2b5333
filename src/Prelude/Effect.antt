-- ===== src/Prelude/Effect.antt =====
-- Stateful code that may run into undefined behaviour: `none` is a fault, such as an access out
-- of the bounds of an array.
use mathlib.Core.Option.{Option, none, some}

abbrev pub Action {ℓ κ} : Type ℓ → Type κ → Type (ℓ ⊔ κ)
Action S A = S → Option (A × S)

abbrev pub pure {ℓ κ} : {S : Type ℓ} {A : Type κ} → A → Action S A
pure a s = some (a, s)

abbrev pub fault {ℓ κ} : {S : Type ℓ} {A : Type κ} → Action S A
fault s = none

infixl 5 ◌>>=◌ ◌>>◌
abbrev pub ◌>>=◌ {ℓ κ μ} :
    {S : Type ℓ} {A : Type κ} {B : Type μ} → Action S A → (A → Action S B) → Action S B
◌>>=◌ m f s = elim (m s) [ none ↦ none | some (a, t) ↦ f a t ]

abbrev pub ◌>>◌ {ℓ κ} : {S : Type ℓ} {B : Type κ} → Action S (Unit {0}) → Action S B → Action S B
m >> k = m >>= λ _. k

-- A pure step that may fault.
abbrev pub lift {ℓ κ} : {S : Type ℓ} {A : Type κ} → Option A → Action S A
lift none s = none
lift (some a) s = some (a, s)
