-- ===== src/Utils.antt =====
-- utils.c: making a directory with those above it, and asking for a file. `generate_random_block`
-- is with the driver that calls it, and `replace_path` with the paths of multi_loopback.
pub mod Ancestors
use safefs.Prelude.{
  ℕ, ◌==◌, ◌-◌, Bool, true, false, ◌||◌, Option, none, some, ℤ, pos, neg_one, eq_ℤ, ltb,
  if◌then◌else◌, List, [], ◌∷◌, ◌++◌, length, Action,
}
use safefs.Layers.{FilePath, Stat}
use safefs.MultiLoopback.Posix.{Posix}

-- PATH_MAX of Linux, and the values of `errno` and the mode that utils.c names.
abbrev pub path_max : ℕ
path_max = 4096

abbrev pub eexist : ℕ
eexist = 17

abbrev pub enametoolong : ℕ
enametoolong = 36

abbrev pub s_irwxu : ℕ
s_irwxu = 448

module _ {W : Type 0} (os : Posix W) where
  -- One call of `mkdir`, and whether the loop goes on after it.
  unfoldable pub make_one : FilePath → W → Bool × W
  make_one path w =
      let (res, w') = os.mkdir path s_irwxu w in (eq_ℤ res (pos 0) || os.errno w' == eexist, w')

  -- The loop, with the bytes before `p` and those from `p` on, and the call behind it.
  unfoldable pub mkdir_from : FilePath → FilePath → W → ℤ × W
  unfolding make_one
  mkdir_from before [] w =
      let (fine, w') = make_one before w in (if fine then pos 0 else neg_one, w')
  mkdir_from before (c ∷ rest) w =
      let (fine, w') : Bool × W = if c == b'/' then make_one before w else (true, w) in
      elim fine [ true ↦ mkdir_from (before ++ (c ∷ [])) rest w' | false ↦ (neg_one, w') ]

  -- The loop starts behind the first byte: of an empty path that is one which nothing has set.
  unfoldable pub mkdir_p : FilePath → Action W ℤ
  unfolding mkdir_from
  mkdir_p path w =
      if ltb (path_max - 1) (length path)
      then some (neg_one, os.set_errno enametoolong (os.set_errno 0 w))
      else elim path [ [] ↦ none | c ∷ rest ↦ some (mkdir_from (c ∷ []) rest (os.set_errno 0 w)) ]

  -- `s_isreg` is `S_ISREG`; `st` is what the array on the stack holds.
  unfoldable pub file_exists : (ℕ → Bool) → Stat → FilePath → W → Bool × W
  file_exists s_isreg st path w =
      let ((err, st'), w') = os.stat path st w in
      (if eq_ℤ err (pos 0) then s_isreg st'.st_mode else false, w')
