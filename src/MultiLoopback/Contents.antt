-- ===== src/MultiLoopback/Contents.antt =====
-- The contents of the devices, as lists of arrays of one length.
use safefs.Prelude.{
  ℕ, zero, suc, ◌≤◌, ◌≡◌, refl, ap, sym, ◌∙◌, some, List, [], ◌∷◌, length, map, take, drop,
  get_elem?, splice, arith, min, ◌-◌, some_injective, length-take, length-drop, length-splice,
  take-append_left, ◌+◌, max,
}
use safefs.Layers.{Buffer}
use safefs.Drivers.Xor.{HaveSize}
use safefs.MultiLoopback.Contract.{splices}

pub HaveSize-at :
    (size : ℕ) (cs : List Buffer) (i : ℕ) (c : Buffer)
    → HaveSize size cs
    → get_elem? cs i ≡ some c
    → length c ≡ size
HaveSize-at size [] i c all e = absurd (cc)
HaveSize-at size (x ∷ cs) zero c (h, all) e = ap length (sym (some_injective e)) ∙ h
HaveSize-at size (x ∷ cs) (suc i) c (h, all) e = HaveSize-at size cs i c all e

pub HaveSize-all :
    (size : ℕ) (cs : List Buffer)
    → ((i : ℕ) (c : Buffer) → get_elem? cs i ≡ some c → length c ≡ size)
    → HaveSize size cs
HaveSize-all size [] each = tt
HaveSize-all size (c ∷ cs) each = (each 0 c refl, HaveSize-all size cs (λ i x e. each (suc i) x e))

pub HaveSize-map :
    (f : Buffer → Buffer) (size size' : ℕ) (cs : List Buffer)
    → HaveSize size cs
    → ((c : Buffer) → length c ≡ size → length (f c) ≡ size')
    → HaveSize size' (map f cs)
HaveSize-map f size size' [] all each = tt
HaveSize-map f size size' (c ∷ cs) (h, all) each = (each c h, HaveSize-map f size size' cs all each)

pub length-splices :
    (offset : ℕ) (bs cs : List Buffer)
    → length bs ≡ length cs
    → length (splices offset bs cs) ≡ length cs
length-splices offset [] [] e = refl
length-splices offset [] (c ∷ cs) e = absurd (omega arith)
length-splices offset (b ∷ bs) [] e = absurd (omega arith)
length-splices offset (b ∷ bs) (c ∷ cs) e = ap suc (length-splices offset bs cs (omega arith))

pub get_elem?-splices :
    (offset : ℕ) (bs cs : List Buffer) (i : ℕ) (b c x : Buffer)
    → get_elem? bs i ≡ some b
    → get_elem? cs i ≡ some c
    → get_elem? (splices offset bs cs) i ≡ some x
    → x ≡ splice offset b c
get_elem?-splices offset [] cs i b c x p q r = absurd (cc)
get_elem?-splices offset (b' ∷ bs) [] i b c x p q r = absurd (cc)
get_elem?-splices offset (b' ∷ bs) (c' ∷ cs) zero b c x p q r =
    rw (sym (some_injective p), sym (some_injective q)) (sym (some_injective r))
get_elem?-splices offset (b' ∷ bs) (c' ∷ cs) (suc i) b c x p q r =
    get_elem?-splices offset bs cs i b c x p q r

pub HaveSize-splices :
    (offset size n : ℕ) (bs cs : List Buffer)
    → length bs ≡ length cs
    → HaveSize n bs
    → HaveSize size cs
    → offset ≤ size
    → HaveSize (max size (offset + n)) (splices offset bs cs)
HaveSize-splices offset size n [] [] e all all' h = tt
HaveSize-splices offset size n [] (c ∷ cs) e all all' h = absurd (omega arith)
HaveSize-splices offset size n (b ∷ bs) [] e all all' h = tt
HaveSize-splices offset size n (b ∷ bs) (c ∷ cs) e (hb, all) (hc, all') h = (
  omega (arith, length-splice offset b c, hb, hc, h),
  HaveSize-splices offset size n bs cs (omega arith) all all' h,
)

-- What a read of `n` bytes gives: those that are there, before what stood in the array.
abbrev pub window : ℕ → ℕ → Buffer → Buffer
window n offset c = take n (drop offset c)

pub length-window :
    (n offset : ℕ) (c : Buffer) → length (window n offset c) ≡ min n (length c - offset)
length-window n offset c = omega (arith, length-take n (drop offset c), length-drop offset c)

pub take-read :
    (n offset : ℕ) (c buf : Buffer)
    → take (min n (length c - offset)) (splice 0 (window n offset c) buf) ≡ window n offset c
take-read n offset c buf =
    let e = length-window n offset c in
    rw (sym e) (
      take-append_left (length (window n offset c)) (window n offset c)
        (drop (0 + length (window n offset c)) buf) (omega arith)
      ∙ whole (window n offset c))
  where
    whole : (xs : Buffer) → take (length xs) xs ≡ xs
    whole [] = refl
    whole (x ∷ xs) = ap (λ t. x ∷ t) (whole xs)
