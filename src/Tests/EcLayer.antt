-- ===== src/Tests/EcLayer.antt =====
-- A file of ec_layer with one fragment of data and one of parity.
use safefs.Prelude.{
  ℕ, ◌+◌, ◌<◌, ◌≤◌, ◌≡◌, refl, ap, ap₂, ◌&&◌, ◌==◌, inl, inr, Bool, true, false, ==_iff, none, some,
  pos, if◌then◌else◌, List, [], ◌∷◌, length, take, max, Bool-cases, length-take, arith,
}
use safefs.Layers.{Buffer}
use safefs.Config.{eq_string}
use safefs.Erasure.{Liberasurecode}
use safefs.EcLayer.{Stdio, encoded_file_new, Ec, ec_read, ec_write}
use safefs.EcLayer.Fragments.{IsStdio}
use safefs.EcLayer.Kept.{IsEcCode}
use safefs.EcLayer.ReadWrite.{IsEcFile, eq_string_refl, ec_write-ec_read_past_end}
use safefs.Tests.World.{World, posix0}
use safefs.Tests.Spread.{world0, path_f, fi_f}

-- Numbers are written as one byte.
abbrev stdio0 : Stdio World
stdio0 = record {
  write_file = (λ name bytes w.
      some (record w { stored = (λ p. if eq_string p name then some bytes else w.stored p) }));
  read_file = (λ name w. w.stored name);
  lu5 = (λ i. i ∷ []);
}

both : (x y : Bool) → (x && y) ≡ true → (x ≡ true) × (y ≡ true)
both true true h = (refl, refl)
both true false h = absurd (cc)
both false y h = absurd (cc)

eq_string→≡ : (s t : List ℕ) → eq_string s t ≡ true → s ≡ t
eq_string→≡ [] [] h = refl
eq_string→≡ [] (b ∷ t) h = absurd (cc)
eq_string→≡ (a ∷ s) [] h = absurd (cc)
eq_string→≡ (a ∷ s) (b ∷ t) h =
    let (first, rest) = both (a == b) (eq_string s t) h in
    ap₂ ◌∷◌ ((==_iff a b).0 first) (eq_string→≡ s t rest)

stdio0-IsStdio : IsStdio stdio0 path_f
stdio0-IsStdio = record {
  write_law = (λ name bytes w. (
    record w { stored = (λ p. if eq_string p name then some bytes else w.stored p) },
    refl,
    rw (eq_string_refl name) refl,
    λ other differ. elim (Bool-cases (eq_string other name)) [
      | inl e ↦ absurd (differ (eq_string→≡ other name e))
      | inr e ↦ rw e refl
    ],
  ));
  data_law = (λ i j differ e. differ (cc));
  parity_law = (λ i j differ e. differ (cc));
  apart_law = (λ i j e. absurd (cc));
  data_short = (λ i. omega arith);
  parity_short = (λ i. omega arith);
}

abbrev copies : Buffer → ℕ → (List Buffer × List Buffer × ℕ)
copies b n = (take n b ∷ [], take n b ∷ [], length (take n b))

abbrev first_copy : List Buffer → ℕ → ℕ → (Buffer × ℕ)
first_copy [] k fragment_size = ([], 0)
first_copy (d ∷ ds) k fragment_size = (d, length d)

abbrev copies0 : Liberasurecode
copies0 = record { encode = copies; decode = first_copy }

copies0-IsEcCode : IsEcCode copies0 1 1
copies0-IsEcCode = record {
  data_law = (λ b n. refl);
  parity_law = (λ b n. refl);
  data_length_law = (λ b n. (refl, tt));
  parity_length_law = (λ b n. (refl, tt));
  decode_law = (λ b n h. ap (λ j. (take n b, j)) (omega (arith, length-take n b, h)));
}

abbrev new_file : Ec World
new_file = record { world = world0; files = (path_f, encoded_file_new) ∷ []; directories = [] }

new_file-IsEcFile : IsEcFile stdio0 copies0 1 1 path_f new_file []
unfolding encoded_file_new
new_file-IsEcFile = record { ef = encoded_file_new; known = refl; kept = inl (refl, refl) }

abbrev text0 : Buffer
text0 = 7 ∷ 8 ∷ 9 ∷ []

ec_write-ec_read_past_end_example :
    (s' : Ec World) × (ec_write posix0 stdio0 copies0 1 1 (λ n. n) path_f text0 3 0 fi_f new_file
      ≡ some (pos 3, s'))
    × ((dst : Buffer) (size at : ℕ)
        → at < max 0 (0 + 3)
        → max 0 (0 + 3) < at + size
        → size ≤ length dst
        → ec_read posix0 stdio0 copies0 1 1 (λ n. n) path_f dst size at fi_f s' ≡ none)
ec_write-ec_read_past_end_example =
    ec_write-ec_read_past_end posix0 stdio0 copies0 1 1 (λ n. n) path_f fi_f copies0-IsEcCode
      stdio0-IsStdio new_file [] text0 3 0 new_file-IsEcFile (omega arith) (omega arith)
