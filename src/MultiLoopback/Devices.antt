-- ===== src/MultiLoopback/Devices.antt =====
-- One request for each device, pushed to the pool and waited for: what the files on the devices hold
-- then, and what the replies say, for any order of the threads.
use safefs.Prelude.{
  ℕ, zero, suc, ◌+◌, ◌<◌, ◌≡◌, ◌≢◌, inl, inr, refl, ap, sym, ◌∙◌, Bool, Option, some, List, [], ◌∷◌,
  length, get_elem?, pos, neg_one, arith,
}
use safefs.Layers.{Buffer}
use safefs.MultiLoopback.Requests.{Reply, Outcome, wait_for_all_requests}
use safefs.MultiLoopback.State.{for_devices}
use safefs.MultiLoopback.Wait.{IsIn, here, there, Every, wait_for_all_requests_lem}
use safefs.MultiLoopback.Interleave.{Distinct}

-- Each thread of the pool serves one device.
pub record IsSchedule (order : List ℕ) (ndevs : ℕ) : Type 0 where
  pub once : Distinct order
  pub devices : (i : ℕ) → IsIn i order → i < ndevs
  pub all_served : (i : ℕ) → i < ndevs → IsIn i order

-- The descriptor and the contents of the file on each device.
abbrev pub OnDevices : {W : Type 0} → (W → ℕ → Option Buffer) → List ℕ → List Buffer → W → Type 0
OnDevices file fds cs w =
    (i fd : ℕ) (c : Buffer)
    → get_elem? fds i ≡ some fd
    → get_elem? cs i ≡ some c
    → file w fd ≡ some c

abbrev pub AllDiffer : List ℕ → Type 0
AllDiffer fds = (i j fd : ℕ) → get_elem? fds i ≡ some fd → get_elem? fds j ≡ some fd → i ≡ j

for_devices_lem {ℓ} :
    {A : Type ℓ} (f : ℕ → Option A) (first count : ℕ)
    → ((i : ℕ) → i < count → (a : A) × (f (first + i) ≡ some a))
    → (as' : List A) × (for_devices f first count ≡ some as')
      × (length as' ≡ count)
      × ((i : ℕ) (a : A) → get_elem? as' i ≡ some a → f (first + i) ≡ some a)
unfolding for_devices
for_devices_lem f first zero each = ([], refl, refl, λ i a e. absurd (cc))
for_devices_lem f first (suc count) each =
    let (a, e) = each 0 (omega arith) in
    let e0 : f first ≡ some a = ap f {x = first} (omega arith) ∙ e in
    let move = λ (i : ℕ). ap f {x = first + 1 + i} {y = first + suc i} (omega arith) in
    let (as', es, len, at) =
      for_devices_lem f (first + 1) count
        (λ i h. let (b, eb) = each (suc i) (omega arith) in (b, move i ∙ eb)) in
    (a ∷ as', rw (for_devices, e0, es) refl, ap suc len, all_at a as' e at move)
  where
    all_at :
        (a : _) (as' : List _)
        → f (first + 0) ≡ some a
        → ((i : ℕ) (b : _) → get_elem? as' i ≡ some b → f (first + 1 + i) ≡ some b)
        → ((i : ℕ) → f (first + 1 + i) ≡ f (first + suc i))
        → (i : ℕ) (b : _) → get_elem? (a ∷ as') i ≡ some b
        → f (first + i) ≡ some b
    all_at a as' e at move zero b p = e ∙ p
    all_at a as' e at move (suc i) b p = sym (move i) ∙ at i b p

-- One request for each device, if each can be built.
pub for_devices_all {ℓ} :
    {A : Type ℓ} (f : ℕ → Option A) (count : ℕ)
    → ((i : ℕ) → i < count → (a : A) × (f i ≡ some a))
    → (as' : List A) × (for_devices f 0 count ≡ some as')
      × (length as' ≡ count)
      × ((i : ℕ) (a : A) → get_elem? as' i ≡ some a → f i ≡ some a)
for_devices_all f count each =
    let shift = λ (i : ℕ). ap f {x = 0 + i} {y = i} (omega arith) in
    let (as', e, len, at) =
      for_devices_lem f 0 count (λ i h. let (a, ea) = each i h in (a, shift i ∙ ea)) in
    (as', e, len, λ i a p. sym (shift i) ∙ at i a p)

pub Every-all {ℓ κ} :
    {A : Type ℓ} (P : A → Type κ) (xs : List A) → ((x : A) → IsIn x xs → P x) → Every P xs
Every-all P [] h = tt
Every-all P (x ∷ xs) h = (h x here, Every-all P xs (λ y at. h y (there at)))

index_of {ℓ} : {A : Type ℓ} (x : A) (xs : List A) → IsIn x xs → (i : ℕ) × (get_elem? xs i ≡ some x)
index_of x [] at = elim at [ ]
index_of x (y ∷ xs) here = (0, refl)
index_of x (y ∷ xs) (there at) = let (i, e) = index_of x xs at in (suc i, e)

pos_not_neg_one : (n : ℕ) → pos n ≢ neg_one
pos_not_neg_one n e = absurd (cc)

-- Where all devices report the same size the wait ends with it.
pub all_succeed :
    (same : Bool) (replies : List Reply) (n : ℕ)
    → 0 < length replies
    → ((i : ℕ) (q : Reply) → get_elem? replies i ≡ some q → q.op_res ≡ pos n)
    → (out : Outcome) × (wait_for_all_requests same replies ≡ some out) × (out.res ≡ pos n)
all_succeed same [] n some_device all = absurd (omega arith)
all_succeed same (first ∷ rs) n some_device all =
    let (out, e, concluded) = wait_for_all_requests_lem same first rs in
    elim concluded [
      | inl (agreed, _) ↦ (out, e, agreed ∙ all 0 first refl)
      | inr (_, (r, at, wrong, _)) ↦
          let (i, er) = index_of r (first ∷ rs) at in
          absurd (
            wrong (
              (λ k. pos_not_neg_one n (sym (all i r er) ∙ k)),
              λ _. all 0 first refl ∙ sym (all i r er),
            ))
    ]
