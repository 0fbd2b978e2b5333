-- ===== src/Alignfuse/Errors.antt =====
-- What alignfuse makes of an error of the layer below: its callbacks know -1 alone.
use safefs.Prelude.{ℕ, suc, ◌<◌, ◌≡◌, refl, some, pos, negsuc, ◌>>=◌, arith}
use safefs.Layers.{FilePath, FileInfo, Stat, FuseOperations}
use safefs.BlockAlign.{block_align_truncate}
use safefs.BlockAlign.Contract.{nonzero}
use safefs.Alignfuse.Defs.{
  block, errno_or_zero, alignfuse_ftruncate, alignfuse_oper, init_align_driver,
}

-- In mode BLOCK, when the layer below fails to say the size of the file with an error other than
-- -1, `ftruncate` returns 0 and has done nothing else. A block has at least a byte.
pub ftruncate-fgetattr_error :
    {S : Type 0} (errno : S → ℕ) (next : FuseOperations S) (block_size : ℕ) (junk : ℕ → ℕ)
    (junk_stat st : Stat) (junk_fh size error : ℕ) (path : FilePath) (fi : FileInfo) (s t : S)
    → 0 < block_size
    → next.fgetattr path junk_stat fi s ≡ some ((negsuc (suc error), st), t)
    → (init_align_driver errno block block_size junk junk_stat junk_fh next).ftruncate path size fi
        s
      ≡ some (pos 0, t)
unfolding init_align_driver alignfuse_oper alignfuse_ftruncate errno_or_zero block_align_truncate
ftruncate-fgetattr_error errno next block_size junk junk_stat st junk_fh size error path fi s t p
      failed =
    rw (nonzero block_size p, ◌>>=◌, failed, nonzero (suc error) (omega arith)) refl
