-- ===== src/Sfuse/Below.antt =====
-- What multi_loopback promises of an open file is what sfuse needs of the layer below it.
use safefs.Prelude.{ℕ, ◌≡◌, true, Bool, Option, some, pos, List, sym, ◌∙◌, ap, subst, pure_inv}
use safefs.Layers.{FilePath, Buffer, FileInfo, Stat, FuseOperations}
use safefs.MultiLoopback.{Setup}
use safefs.MultiLoopback.Contract.{IsSpreadFile}
use safefs.MultiLoopback.Directory.{loopback_oper}
use safefs.MultiLoopback.Spread.{IsSetup, IsSpread}
use safefs.MultiLoopback.SpreadResize.{loopback_fgetattr_stat}
use safefs.Sfuse.Contract.{IsRawFile}

-- `S_ISREG` holds of what is reported of the file.
abbrev pub IsRegular :
    {S : Type 0}
    → (ℕ → Bool)
    → FilePath
    → FileInfo
    → FuseOperations S
    → (S → Buffer → Type 0)
    → Type 0
IsRegular {S = S} is_reg path fi next Holds =
    (s : S) (c : Buffer) (st st' : Stat) (s' : S)
    → Holds s c
    → next.fgetattr path st fi s ≡ some ((pos 0, st'), s')
    → is_reg st'.st_mode ≡ true

pub IsSpreadFile-IsRawFile :
    {S : Type 0} (is_reg : ℕ → Bool) {path : FilePath} {fi : FileInfo} {next : FuseOperations S}
    {Holds : S → Buffer → Type 0}
    → IsSpreadFile path fi next Holds
    → IsRegular is_reg path fi next Holds
    → IsRawFile is_reg path fi next Holds
IsSpreadFile-IsRawFile is_reg spread regular = record {
  size_law = λ s p st h.
      let (st', s', e, size, h') = spread.size_law s p st h in
      (st', s', e, size, regular s p st st' s' h e, h');
  read_law = λ s p buf n offset h inside l room.
      let (buf', s', e, front, behind, h') = spread.read_law s p buf n offset h inside l room in
      (buf', s', e, front, h');
  write_law = λ s p buf n offset h inside some_bytes l room.
      spread.write_law s p buf n offset h inside l room;
  truncate_law = spread.truncate_law;
}

-- multi_loopback reports a regular file of a file that is spread over regular ones.
pub loopback_oper-IsRegular :
    {W : Type 0} (is_reg : ℕ → Bool) (g : Setup W) (full : List FilePath → Bool) (rounds : ℕ)
    (file : W → ℕ → Option Buffer) (combine : List Buffer → Buffer) (path : FilePath)
    (fi : FileInfo)
    → IsSetup g file combine path
    → ((w w' : W) (fd : ℕ) (c : Buffer) (st st' : Stat)
        → file w fd ≡ some c
        → g.os.fstat fd st w ≡ ((pos 0, st'), w')
        → is_reg st'.st_mode ≡ true)
    → IsRegular is_reg path fi (loopback_oper g full rounds) (IsSpread g file combine fi)
unfolding loopback_oper
loopback_oper-IsRegular is_reg g full rounds file combine path fi setup regular s c st st' s' h
      got =
    let (fd, x, found, w, there, stat, ran) =
      loopback_fgetattr_stat g file combine path fi setup s c st h in
    let (same, _) = pure_inv (sym ran ∙ got) in
    subst (λ r. is_reg r.st_mode ≡ true) (ap (λ r. r.1) same)
      (regular s.world w fd x st found there stat)
