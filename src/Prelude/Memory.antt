-- ===== src/Prelude/Memory.antt =====
-- C arrays of bytes as lists. What an uninitialised array holds is a parameter of its users.
use Prim.Native.Nat.{ℕ, zero, suc, ◌+◌, ◌≤◌}
use mathlib.Core.Path.{◌≡◌, refl, ap}
use mathlib.Core.Bool.{◌&&◌}
use mathlib.Core.Option.{Option, none, some}
use mathlib.Core.List.{List, [], ◌∷◌, ◌++◌}
use native.Mathlib.Omega.{arith}
use safefs.Prelude.Tests.{leb, if◌then◌else◌}
use safefs.Prelude.Lists.{length, take, drop, length-take}
use safefs.Prelude.Splice.{splice}

-- An array of `n` bytes on the stack or fresh from `malloc`.
abbrev pub uninit : (ℕ → ℕ) → ℕ → List ℕ
uninit junk zero = []
uninit junk (suc n) = junk n ∷ uninit junk n

pub length-uninit : (junk : ℕ → ℕ) (n : ℕ) → length (uninit junk n) ≡ n
length-uninit junk zero = refl
length-uninit junk (suc n) = ap suc (length-uninit junk n)

-- `memcpy(&dst[at], src, n)`; `none` when it reads or writes out of bounds.
unfoldable pub memcpy : List ℕ → ℕ → List ℕ → ℕ → Option (List ℕ)
memcpy dst at src n =
    if leb (at + n) (length dst) && leb n (length src)
    then some (take at dst ++ (take n src ++ drop (at + n) dst))
    else none

-- A copy within bounds is a splice.
pub memcpy-splice :
    (dst : List ℕ) (at : ℕ) (src : List ℕ) (n : ℕ)
    → at + n ≤ length dst
    → n ≤ length src
    → memcpy dst at src n ≡ some (splice at (take n src) dst)
unfolding memcpy
memcpy-splice dst at src n h k =
    let e : length (take n src) ≡ n = omega (arith, length-take n src) in rw e (ground arith)
