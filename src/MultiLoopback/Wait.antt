-- ===== src/MultiLoopback/Wait.antt =====
-- What `wait_for_all_requests` concludes from the replies of the devices.
use safefs.Prelude.{
  ==_iff, Bool, true, false, ◌&&◌, not, ◌≡◌, refl, sym, ap, ◌∙◌, ◌≢◌, ◌⊎◌, inl, inr, some, ℤ, pos,
  negsuc, neg_one, eq_ℤ, Bool-cases, List, [], ◌∷◌, arith,
}
use safefs.MultiLoopback.Requests.{Reply, Outcome, scan_replies, wait_for_all_requests}

-- An element of a list, and a property of all its elements.
pub data IsIn {ℓ} {A : Type ℓ} (x : A) : List A → Type ℓ where
  here : {xs : List A} → IsIn x (x ∷ xs)
  there : {y : A} {xs : List A} → IsIn x xs → IsIn x (y ∷ xs)

abbrev pub Every {ℓ κ} : {A : Type ℓ} → (A → Type κ) → List A → Type κ
Every P [] = Unit
Every P (x ∷ xs) = P x × Every P xs

eq_ℤ→≡ : (a b : ℤ) → eq_ℤ a b ≡ true → a ≡ b
eq_ℤ→≡ (pos a) (pos b) h = ap pos ((==_iff a b).0 h)
eq_ℤ→≡ (pos a) (negsuc b) h = absurd (ground arith)
eq_ℤ→≡ (negsuc a) (pos b) h = absurd (ground arith)
eq_ℤ→≡ (negsuc a) (negsuc b) h = ap negsuc ((==_iff a b).0 h)

eq_ℤ_refl : (a : ℤ) → eq_ℤ a a ≡ true
eq_ℤ_refl (pos a) = ground arith
eq_ℤ_refl (negsuc a) = ground arith

differs : (a b : ℤ) → eq_ℤ a b ≡ false → a ≢ b
differs a b h e = true-not-false (sym (eq_ℤ_refl a) ∙ ap (eq_ℤ a) e ∙ h)
  where
    true-not-false : true ≡ false → ⊥
    true-not-false k = ground arith

-- The reply is no failure, and where the results must agree it has the result of device 0.
abbrev pub Agrees : Bool → Reply → Reply → Type 0
Agrees same first r = (r.op_res ≢ neg_one) × (same ≡ true → first.op_res ≡ r.op_res)

-- Either all devices agree and the result is that of device 0, or it is -1 and the error is that
-- of a device that does not agree.
abbrev pub Concluded : Bool → Reply → List Reply → Outcome → Type 0
Concluded same first replies out =
    ((out.res ≡ first.op_res) × Every (Agrees same first) replies)
    ⊎ ((out.res ≡ neg_one)
        × ((r : Reply) × IsIn r replies × (¬ Agrees same first r) × (out.op_error ≡ r.op_error)))

split_test : (a b : Bool) → (a && not b) ≡ true → (a ≡ true) × (b ≡ false)
split_test true true h = absurd (ground arith)
split_test true false h = (refl, refl)
split_test false b h = absurd (ground arith)

failed_test : (a b : Bool) → (a && not b) ≡ false → a ≡ true → b ≡ true
failed_test true true h k = refl
failed_test true false h k = absurd (ground arith)
failed_test false b h k = absurd (ground arith)

-- A device that agrees before the others.
Concluded-further :
    (same : Bool) (first r : Reply) (rs : List Reply) (out : Outcome)
    → Agrees same first r
    → Concluded same first rs out
    → Concluded same first (r ∷ rs) out
Concluded-further same first r rs out a (inl (e, all)) = inl (e, (a, all))
Concluded-further same first r rs out a (inr (e, (x, at, wrong, error))) =
    inr (e, (x, there at, wrong, error))

scan_replies_lem :
    (same : Bool) (first : Reply) (rs : List Reply)
    → Concluded same first rs (scan_replies same first rs)
unfolding scan_replies
scan_replies_lem same first [] = inl (refl, tt)
scan_replies_lem same first (r ∷ rs) =
    let rest = scan_replies_lem same first rs in
    elim (Bool-cases (eq_ℤ r.op_res neg_one)) [
      | inl failed ↦
          rw failed (inr (refl, (r, here, (λ k. k.0 (eq_ℤ→≡ r.op_res neg_one failed)), refl)))
      | inr fine ↦ elim (Bool-cases (same && not (eq_ℤ first.op_res r.op_res))) [
        | inl other ↦
            let (must, differ) = split_test same (eq_ℤ first.op_res r.op_res) other in
            rw (fine, other)
              (inr (refl, (r, here, (λ k. differs first.op_res r.op_res differ (k.1 must)), refl)))
        | inr agrees ↦
            rw (fine, agrees)
              (Concluded-further same first r rs (scan_replies same first rs)
                (
                  differs r.op_res neg_one fine,
                  λ must.
                      eq_ℤ→≡ first.op_res r.op_res
                        (failed_test same (eq_ℤ first.op_res r.op_res) agrees must),
                )
                rest)
      ]
    ]

-- `wait_for_all_requests` returns for at least one device. Its result is that of device 0, and no
-- device returned -1 and, for a read or a write, all results are equal; or its result is -1, and the
-- error is that of a device that returned -1 or, for a read or a write, whose result is another than
-- that of device 0. For other calls the devices may differ in results that are not -1, as the negated
-- errors of opening a directory.
pub wait_for_all_requests_lem :
    (same : Bool) (first : Reply) (rs : List Reply)
    → (out : Outcome) × (wait_for_all_requests same (first ∷ rs) ≡ some out)
      × Concluded same first (first ∷ rs) out
unfolding wait_for_all_requests
wait_for_all_requests_lem same first rs = elim (Bool-cases (eq_ℤ first.op_res neg_one)) [
  | inl failed ↦ (
    record { res = neg_one; op_error = first.op_error },
    rw failed refl,
    inr (refl, (first, here, (λ k. k.0 (eq_ℤ→≡ first.op_res neg_one failed)), refl)),
  )
  | inr fine ↦ (
    scan_replies same first rs,
    rw fine refl,
    Concluded-further same first first rs (scan_replies same first rs)
        (differs first.op_res neg_one fine, λ _. refl) (scan_replies_lem same first rs),
  )
]
