-- ===== src/Alignfuse/Defs.antt =====
-- The functions of alignfuse.c and align/nopalign.c. The latencies that alignfuse_read and
-- alignfuse_write record are left out.
use safefs.Prelude.{
  ℕ, Option, none, some, ℤ, pos, neg, neg_one, eq_ℤ, if◌then◌else◌, Action, pure, fault, ◌>>=◌,
}
use safefs.Layers.{FilePath, Buffer, FileInfo, Stat, FuseOperations}
use safefs.BlockAlign.{
  block_align_read, block_align_write, block_align_create, block_align_open, block_align_truncate,
}

-- `struct align_driver`
pub record AlignDriver (S : Type 0) : Type 0 where
  pub align_read : FilePath → Buffer → ℕ → ℕ → FileInfo → FuseOperations S → Action S (ℤ × Buffer)
  pub align_write : FilePath → Buffer → ℕ → ℕ → FileInfo → FuseOperations S → Action S ℤ
  pub align_create : FilePath → ℕ → FileInfo → FuseOperations S → Action S (ℤ × FileInfo)
  pub align_open : FilePath → FileInfo → FuseOperations S → Action S (ℤ × FileInfo)
  pub align_truncate : FilePath → ℕ → Option FileInfo → FuseOperations S → Action S ℤ

-- NOP and BLOCK of alignfuse.h, and any other number.
pub data AlignMode : Type 0 where
  nop block unknown : AlignMode

module _ {S : Type 0} where
  unfoldable pub nop_align_read :
      FilePath → Buffer → ℕ → ℕ → FileInfo → FuseOperations S → Action S (ℤ × Buffer)
  nop_align_read path buf size offset fi nextlayer = nextlayer.read path buf size offset fi

  unfoldable pub nop_align_write :
      FilePath → Buffer → ℕ → ℕ → FileInfo → FuseOperations S → Action S ℤ
  nop_align_write path buf size offset fi nextlayer = nextlayer.write path buf size offset fi

  unfoldable pub nop_align_create :
      FilePath → ℕ → FileInfo → FuseOperations S → Action S (ℤ × FileInfo)
  nop_align_create path mode fi nextlayer = nextlayer.create path mode fi

  unfoldable pub nop_align_open : FilePath → FileInfo → FuseOperations S → Action S (ℤ × FileInfo)
  nop_align_open path fi nextlayer = nextlayer.open_file path fi

  unfoldable pub nop_align_truncate : FilePath → ℕ → Option FileInfo → FuseOperations S → Action S ℤ
  nop_align_truncate path size none nextlayer = nextlayer.truncate path size
  nop_align_truncate path size (some fi) nextlayer = nextlayer.ftruncate path size fi

-- `errno` is a function of the state.
module _ {S : Type 0} (errno : S → ℕ) where
  -- `if (res == -1) return -errno; return 0;`
  unfoldable pub errno_or_zero : ℤ → Action S ℤ
  errno_or_zero res s = some ((if eq_ℤ res neg_one then neg (pos (errno s)) else pos 0), s)

  -- The callbacks, for the driver and the layer below.
  module _ (align_driver : AlignDriver S) (originalfs_oper : FuseOperations S) where
    unfoldable pub alignfuse_read : FilePath → Buffer → ℕ → ℕ → FileInfo → Action S (ℤ × Buffer)
    alignfuse_read path buf size offset fi =
        align_driver.align_read path buf size offset fi originalfs_oper

    unfoldable pub alignfuse_write : FilePath → Buffer → ℕ → ℕ → FileInfo → Action S ℤ
    alignfuse_write path buf size offset fi =
        align_driver.align_write path buf size offset fi originalfs_oper

    unfoldable pub alignfuse_create : FilePath → ℕ → FileInfo → Action S (ℤ × FileInfo)
    unfolding errno_or_zero
    alignfuse_create path mode fi = do
      (res, fi') ← align_driver.align_create path mode fi originalfs_oper
      code ← errno_or_zero res
      pure (code, fi')

    unfoldable pub alignfuse_open : FilePath → FileInfo → Action S (ℤ × FileInfo)
    unfolding errno_or_zero
    alignfuse_open path fi = do
      (res, fi') ← align_driver.align_open path fi originalfs_oper
      code ← errno_or_zero res
      pure (code, fi')

    unfoldable pub alignfuse_truncate : FilePath → ℕ → Action S ℤ
    unfolding errno_or_zero
    alignfuse_truncate path size = do
      res ← align_driver.align_truncate path size none originalfs_oper
      errno_or_zero res

    unfoldable pub alignfuse_ftruncate : FilePath → ℕ → FileInfo → Action S ℤ
    unfolding errno_or_zero
    alignfuse_ftruncate path size fi = do
      res ← align_driver.align_truncate path size (some fi) originalfs_oper
      errno_or_zero res

    -- The table that `init_align_driver` installs.
    unfoldable pub alignfuse_oper : FuseOperations S
    alignfuse_oper = record originalfs_oper {
      create = alignfuse_create;
      open_file = alignfuse_open;
      read = alignfuse_read;
      write = alignfuse_write;
      truncate = alignfuse_truncate;
      ftruncate = alignfuse_ftruncate;
    }

  -- The driver of a mode, for the block size of the configuration and uninitialised memory. For an
  -- unknown mode its functions are null pointers, so that each call is a fault.
  unfoldable pub select_driver : AlignMode → ℕ → (ℕ → ℕ) → Stat → ℕ → AlignDriver S
  select_driver nop block_size junk junk_stat junk_fh = record {
    align_read = nop_align_read;
    align_write = nop_align_write;
    align_create = nop_align_create;
    align_open = nop_align_open;
    align_truncate = nop_align_truncate;
  }
  select_driver block block_size junk junk_stat junk_fh = record {
    align_read = block_align_read block_size junk junk_stat;
    align_write = block_align_write block_size junk junk_stat;
    align_create = block_align_create;
    align_open = block_align_open;
    align_truncate = block_align_truncate block_size junk junk_stat junk_fh;
  }
  select_driver unknown block_size junk junk_stat junk_fh = record {
    align_read = λ path buf size offset fi nextlayer. fault;
    align_write = λ path buf size offset fi nextlayer. fault;
    align_create = λ path mode fi nextlayer. fault;
    align_open = λ path fi nextlayer. fault;
    align_truncate = λ path size fi nextlayer. fault;
  }

  unfoldable pub init_align_driver :
      AlignMode → ℕ → (ℕ → ℕ) → Stat → ℕ → FuseOperations S → FuseOperations S
  unfolding select_driver
  init_align_driver mode block_size junk junk_stat junk_fh =
      alignfuse_oper (select_driver mode block_size junk junk_stat junk_fh)
