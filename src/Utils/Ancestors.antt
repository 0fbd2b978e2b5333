-- ===== src/Utils/Ancestors.antt =====
-- What `mkdir_p` of utils.c has made when it ends.
use safefs.Prelude.{
  ℕ, zero, suc, ◌==◌, ==_iff, ◌-◌, ◌<◌, ◌≡◌, ◌≢◌, ◌⊎◌, inl, inr, refl, ap, sym, subst, ◌∙◌, true,
  false, some, ℤ, pos, negsuc, neg_one, eq_ℤ, ltb, le→ltb, Bool-cases, [], ◌∷◌, ◌++◌, length,
  append-nil, append_assoc, arith,
}
use safefs.Layers.{FilePath}
use safefs.MultiLoopback.Posix.{Posix}
use safefs.Utils.{path_max, eexist, s_irwxu, make_one, mkdir_from, mkdir_p}

-- The whole path, or what stands before one of its slashes that lie behind `before`.
abbrev pub Leads : FilePath → FilePath → FilePath → Type 0
Leads before rest p =
    (p ≡ before ++ rest)
    ⊎ ((inside : FilePath) × (after : FilePath) × (rest ≡ inside ++ (b'/' ∷ after))
        × (p ≡ before ++ inside))

-- `Exists w p`: there is a file or a directory of this name.
pub record IsMkdir {W : Type 0} (os : Posix W) (Exists : W → FilePath → Type 0) : Type 0 where
  pub made :
      (p : FilePath) (w : W) → (os.mkdir p s_irwxu w).0 ≡ pos 0 → Exists (os.mkdir p s_irwxu w).1 p
  pub there_before :
      (p : FilePath) (w : W)
      → (os.mkdir p s_irwxu w).0 ≢ pos 0
      → os.errno (os.mkdir p s_irwxu w).1 ≡ eexist
      → Exists (os.mkdir p s_irwxu w).1 p
  pub stays : (p q : FilePath) (w : W) → Exists w q → Exists (os.mkdir p s_irwxu w).1 q

-- `Calls os w v`: calls of `mkdir` after which the loop goes on lead from the world `w` to `v`.
pub data Calls {W : Type 0} (os : Posix W) : W → W → Type 0 where
  no_call : {w : W} → Calls os w w
  call :
      {w v : W} (p : FilePath)
      → (make_one os p w).0 ≡ true
      → Calls os (make_one os p w).1 v
      → Calls os w v

eq_zero : (a : ℤ) → (a ≡ pos 0) ⊎ ((a ≢ pos 0) × (eq_ℤ a (pos 0) ≡ false))
eq_zero (pos zero) = inl refl
eq_zero (pos (suc n)) = inr ((λ e. absurd (cc)), ground arith)
eq_zero (negsuc n) = inr ((λ e. absurd (cc)), refl)

module _ {W : Type 0} (os : Posix W) (Exists : W → FilePath → Type 0)
    (mkdir : IsMkdir os Exists) where
  abbrev pub Refused : FilePath → W → Type 0
  Refused p v = ((os.mkdir p s_irwxu v).0 ≢ pos 0) × (os.errno (os.mkdir p s_irwxu v).1 ≢ eexist)

  -- One call makes the directory or finds something there, or is refused.
  make_one_lem :
      (p : FilePath) (w : W)
      → (((make_one os p w).0 ≡ true) × Exists (make_one os p w).1 p)
        ⊎ (((make_one os p w).0 ≡ false) × Refused p w)
  unfolding make_one
  make_one_lem p w =
      let (res, w') = os.mkdir p s_irwxu w in
      elim (eq_zero (os.mkdir p s_irwxu w).0) [
        | inl e ↦ inl (rw e refl, mkdir.made p w e)
        | inr (differs, no_zero) ↦ elim (Bool-cases (os.errno (os.mkdir p s_irwxu w).1 == eexist)) [
          | inl same ↦
              inl (rw (no_zero, same) refl, mkdir.there_before p w differs ((==_iff _ _).0 same))
          | inr other ↦ inr (rw (no_zero, other) refl, (differs, λ e. absurd (ground arith)))
        ]
      ]

  make_one_stays : (p q : FilePath) (w : W) → Exists w q → Exists (make_one os p w).1 q
  unfolding make_one
  make_one_stays p q w h = mkdir.stays p q w h

  make_one_world : (p : FilePath) (w : W) → (make_one os p w).1 ≡ (os.mkdir p s_irwxu w).1
  unfolding make_one
  make_one_world p w = refl

  -- Calls that went through lead to a world where the last one, for one of the names, is refused.
  abbrev pub Stopped : FilePath → FilePath → W → W → Type 0
  Stopped before rest w w' =
      (p : FilePath) × (v : W) × Leads before rest p
      × Calls os w v
      × Refused p v
      × (w' ≡ (os.mkdir p s_irwxu v).1)

  -- Either all of them exist at the end, or the call for one of them was refused.
  abbrev pub Made : FilePath → FilePath → W → ℤ × W → Type 0
  Made before rest w (res, w') =
      ((res ≡ pos 0) × ((p : FilePath) → Leads before rest p → Exists w' p))
      ⊎ ((res ≡ neg_one) × Stopped before rest w w')

  from_plain :
      (before rest : FilePath) (c : ℕ) (w : W)
      → (c == b'/') ≡ false
      → mkdir_from os before (c ∷ rest) w ≡ mkdir_from os (before ++ (c ∷ [])) rest w
  unfolding mkdir_from
  from_plain before rest c w plain = rw (mkdir_from, plain, plain) refl

  from_made :
      (before rest : FilePath) (c : ℕ) (w : W)
      → (c == b'/') ≡ true
      → (make_one os before w).0 ≡ true
      → mkdir_from os before (c ∷ rest) w
        ≡ mkdir_from os (before ++ (c ∷ [])) rest (make_one os before w).1
  unfolding mkdir_from
  from_made before rest c w slash fine = rw (mkdir_from, slash, fine, slash) refl

  from_refused :
      (before rest : FilePath) (c : ℕ) (w : W)
      → (c == b'/') ≡ true
      → (make_one os before w).0 ≡ false
      → mkdir_from os before (c ∷ rest) w ≡ (neg_one, (make_one os before w).1)
  unfolding mkdir_from
  from_refused before rest c w slash bad = rw (mkdir_from, slash, bad, slash) refl

  further :
      (before rest : FilePath) (c : ℕ) (p : FilePath)
      → Leads before (c ∷ rest) p
      → ((p ≡ before) × (c ≡ b'/')) ⊎ Leads (before ++ (c ∷ [])) rest p
  further before rest c p (inl e) = inr (inl (e ∙ sym (append_assoc before (c ∷ []) rest)))
  further before rest c p (inr ([], after, e, ep)) = inl (ep ∙ append-nil before, cc)
  further before rest c p (inr (x ∷ inside, after, e, ep)) =
      let same : c ≡ x = cc in
      let later : rest ≡ inside ++ (b'/' ∷ after) = cc in
      inr (
        inr (
          inside,
          after,
          later,
          ep
              ∙ ap (λ y. before ++ (y ∷ inside)) (sym same)
              ∙ sym (append_assoc before (c ∷ []) inside),
        ))

  earlier :
      (before rest : FilePath) (c : ℕ) (p : FilePath)
      → Leads (before ++ (c ∷ [])) rest p
      → Leads before (c ∷ rest) p
  earlier before rest c p (inl e) = inl (e ∙ append_assoc before (c ∷ []) rest)
  earlier before rest c p (inr (inside, after, e, ep)) =
      inr (c ∷ inside, after, ap (λ t. c ∷ t) e, ep ∙ append_assoc before (c ∷ []) inside)

  -- What the rest of the loop leaves: what was there, and what it makes.
  abbrev Walked : FilePath → FilePath → W → ℤ × W → Type 0
  Walked before rest w r = ((q : FilePath) → Exists w q → Exists r.1 q) × Made before rest w r

  last_call : (before : FilePath) (w : W) → Walked before [] w (mkdir_from os before [] w)
  unfolding mkdir_from
  last_call before w = (
    λ q h. make_one_stays before q w h,
    elim (make_one_lem before w) [
      | inl (fine, there) ↦ inl (
        rw fine refl,
        λ p leads. elim leads [
          | inl e ↦ rw (e ∙ append-nil before) there
          | inr (inside, after, e, ep) ↦ absurd (no_slash inside after e)
        ],
      )
      | inr (bad, refused) ↦ inr (
        rw bad refl,
        (before, w, inl (sym (append-nil before)), no_call, refused, make_one_world before w),
      )
    ],
  )
    where
      no_slash : (inside after : FilePath) → [] ≡ inside ++ (b'/' ∷ after) → ⊥
      no_slash [] after e = absurd (cc)
      no_slash (x ∷ inside) after e = absurd (cc)

  mkdir_from_lem :
      (before rest : FilePath) (w : W) → Walked before rest w (mkdir_from os before rest w)
  mkdir_from_lem before [] w = last_call before w
  mkdir_from_lem before (c ∷ rest) w =
      let before' = before ++ (c ∷ []) in
      let w1 = (make_one os before w).1 in
      let plainly = mkdir_from_lem before' rest w in
      let after_it = mkdir_from_lem before' rest w1 in
      elim (Bool-cases (c == b'/')) [
        | inr plain ↦ subst (Walked before (c ∷ rest) w) (sym (from_plain before rest c w plain)) (
          plainly.0,
          elim plainly.1 [
            | inl (e, all) ↦ inl (
              e,
              λ p leads. elim (further before rest c p leads) [
                | inl (_, slash) ↦ absurd (ground (arith, slash, plain))
                | inr later ↦ all p later
              ],
            )
            | inr (e, (p, v, leads, calls, refused, last)) ↦
                inr (e, (p, v, earlier before rest c p leads, calls, refused, last))
          ],
        )
        | inl slash ↦ elim (make_one_lem before w) [
          | inr (bad, refused) ↦
              subst (Walked before (c ∷ rest) w) (sym (from_refused before rest c w slash bad)) (
                λ q h. make_one_stays before q w h,
                inr (
                  refl,
                  (
                    before,
                    w,
                    inr (
                      [],
                      rest,
                      ap (λ x. x ∷ rest) ((==_iff c b'/').0 slash),
                      sym (append-nil before),
                    ),
                    no_call,
                    refused,
                    make_one_world before w,
                  ),
                ),
              )
          | inl (fine, there) ↦
              subst (Walked before (c ∷ rest) w) (sym (from_made before rest c w slash fine)) (
                λ q h. after_it.0 q (make_one_stays before q w h),
                elim after_it.1 [
                  | inl (e, all) ↦ inl (
                    e,
                    λ p leads. elim (further before rest c p leads) [
                      | inl (same, _) ↦ rw same (after_it.0 before there)
                      | inr later ↦ all p later
                    ],
                  )
                  | inr (e, (p, v, leads, calls, refused, last)) ↦ inr (
                    e,
                    (p, v, earlier before rest c p leads, call before fine calls, refused, last),
                  )
                ],
              )
        ]
      ]

  -- For a path that is not empty and is shorter than PATH_MAX, `mkdir_p` ends with 0 or -1. After
  -- 0 there is something, a directory or not, under the path itself and under every part of it before
  -- a slash that is not its first byte. After -1 the last call of `mkdir`, for one of these, was refused
  -- with another error than EEXIST, in the world that the calls before it left, each of which made its
  -- directory or found something there. `mkdir` makes what it says it makes, EEXIST means that
  -- something has the name, and a call removes nothing.
  pub mkdir_p_lem :
      (c : ℕ) (rest : FilePath) (w : W)
      → length (c ∷ rest) < path_max
      → (res : ℤ) × (w' : W) × (mkdir_p os (c ∷ rest) w ≡ some (res, w'))
        × Made (c ∷ []) rest (os.set_errno 0 w) (res, w')
  unfolding mkdir_p
  mkdir_p_lem c rest w short =
      let r = mkdir_from os (c ∷ []) rest (os.set_errno 0 w) in
      let fits : ltb (path_max - 1) (length (c ∷ rest)) ≡ false =
        le→ltb (path_max - 1) (length (c ∷ rest)) (omega arith) in
      (r.0, r.1, rw fits refl, (mkdir_from_lem (c ∷ []) rest (os.set_errno 0 w)).1)
