-- ===== src/MultiLoopback/Interleave.antt =====
-- The threads of multi_loopback.c in any order: what each does to its own device is what is there
-- when all have run.
use safefs.Prelude.{
  ℕ, ◌<◌, ◌≡◌, ◌≢◌, ◌⊎◌, inl, inr, refl, sym, subst, ◌∙◌, some, List, [], ◌∷◌, length, get_elem?,
  set, arith, length-set, get_elem?-set_same, get_elem?-set_other,
}
use safefs.MultiLoopback.Requests.{OpInfo, Reply, threads_func}
use safefs.MultiLoopback.State.{Setup, run_requests}
use safefs.MultiLoopback.Wait.{IsIn, here, there, Every}

-- No thread runs twice.
abbrev pub Distinct : List ℕ → Type 0
Distinct [] = Unit
Distinct (i ∷ is) = Every (λ j. j ≢ i) is × Distinct is

Every-IsIn {ℓ κ} :
    {A : Type ℓ} (P : A → Type κ) (x : A) (xs : List A) → IsIn x xs → Every P xs → P x
Every-IsIn P x [] at ps = elim at [ ]
Every-IsIn P x (y ∷ xs) here (p, ps) = p
Every-IsIn P x (y ∷ xs) (there at) (p, ps) = Every-IsIn P x xs at ps

Every-zip {ℓ κ μ ν} :
    {A : Type ℓ} {P : A → Type κ} {Q : A → Type μ} {R : A → Type ν} (xs : List A)
    → ((x : A) → P x → Q x → R x)
    → Every P xs
    → Every Q xs
    → Every R xs
Every-zip [] f ps qs = tt
Every-zip (x ∷ xs) f (p, ps) (q, qs) = (f x p q, Every-zip xs f ps qs)

pub IsIn-cases {ℓ} : {A : Type ℓ} (x y : A) (ys : List A) → IsIn x (y ∷ ys) → (x ≡ y) ⊎ IsIn x ys
IsIn-cases x y ys here = inl refl
IsIn-cases x y ys (there at) = inr at

abbrev pub run : {W : Type 0} → Setup W → OpInfo → W → Reply × W
run g inf w = threads_func g.os g.mode g.junk_error inf w

module _ {W : Type 0} (g : Setup W) (infs : List OpInfo) (Before : W → ℕ → Type 0)
    (After : W → ℕ → Reply → Type 0) where
  -- The request of a device takes it from `Before` to `After`, and leaves the other devices as they
  -- are.
  pub record IsLocal : Type 0 where
    pub runs :
        (w : W) (i : ℕ) (inf : OpInfo)
        → get_elem? infs i ≡ some inf
        → Before w i
        → After (run g inf w).1 i (run g inf w).0
    pub before_kept :
        (w : W) (i j : ℕ) (inf : OpInfo)
        → get_elem? infs i ≡ some inf
        → Before w i
        → j ≢ i
        → Before w j
        → Before (run g inf w).1 j
    pub after_kept :
        (w : W) (i j : ℕ) (inf : OpInfo) (q : Reply)
        → get_elem? infs i ≡ some inf
        → Before w i
        → j ≢ i
        → After w j q
        → After (run g inf w).1 j q

  abbrev pub Ready : W → ℕ → Type 0
  Ready w i = (inf : OpInfo) × (get_elem? infs i ≡ some inf) × Before w i

  -- A device whose request ran has its reply; the others are as before.
  abbrev pub Ran : List ℕ → List Reply → W → List Reply × W → Type 0
  Ran order replies w (replies', w') =
      (length replies' ≡ length replies)
      × ((i : ℕ) → IsIn i order → (q : Reply) × After w' i q × (get_elem? replies' i ≡ some q))
      × ((i : ℕ)
          → ¬ IsIn i order
          → (get_elem? replies' i ≡ get_elem? replies i)
            × ((q : Reply) → After w i q → After w' i q))

  run_requests-cons :
      (i : ℕ) (is : List ℕ) (inf : OpInfo) (replies : List Reply) (w : W)
      → get_elem? infs i ≡ some inf
      → run_requests g (i ∷ is) infs replies w
        ≡ run_requests g is infs (set replies i (run g inf w).0) (run g inf w).1
  unfolding run_requests
  run_requests-cons i is inf replies w e = rw (run_requests, e) refl

  pub run_requests_lem :
      IsLocal
      → (order : List ℕ) (replies : List Reply) (w : W) → Distinct order
      → Every (Ready w) order
      → Every (λ i. i < length replies) order
      → Ran order replies w (run_requests g order infs replies w)
  unfolding run_requests
  run_requests_lem local [] replies w d ready room =
      (refl, (λ i at. elim at [ ]), λ i no_i. (refl, λ q a. a))
  run_requests_lem local (i ∷ is) replies w (others, d) ((inf, e, b), ready) (room_i, room) =
      let r = (run g inf w).0 in
      let w' = (run g inf w).1 in
      let ready' : Every (Ready w') is =
        Every-zip is (λ j differ k. (k.0, k.1, local.before_kept w i j inf e b differ k.2)) others
          ready in
      let len = length-set replies i r in
      let room' : Every (λ j. j < length (set replies i r)) is =
        Every-zip {P = λ j. j < length replies} {Q = λ j. j < length replies} is
          (λ j h k. omega (arith, len, h)) room room in
      let (len', done, kept) = run_requests_lem local is (set replies i r) w' d ready' room' in
      let not_i : ¬ IsIn i is = λ at. Every-IsIn (λ j. j ≢ i) i is at others refl in
      let (same, holds) = kept i not_i in
      subst (Ran (i ∷ is) replies w) (sym (run_requests-cons i is inf replies w e)) (
        len' ∙ len,
        λ j at. elim (IsIn-cases j i is at) [
          | inl p ↦
              rw p
                (r, holds r (local.runs w i inf e b), same ∙ get_elem?-set_same replies i r room_i)
          | inr later ↦ done j later
        ],
        λ j absent.
            (let differ : j ≢ i = λ p. absent (subst (λ k. IsIn k (i ∷ is)) (sym p) here) in
              let (same_j, holds_j) = kept j (λ at. absent (there at)) in
              (
                same_j ∙ get_elem?-set_other replies i j r differ,
                λ q a. holds_j q (local.after_kept w i j inf q e b differ a),
              )),
      )
