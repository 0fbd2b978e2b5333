-- ===== src/Compose/Nopfuse.antt =====
-- nopfuse.c: a layer that passes every call on. The latencies that it records are left out.
use safefs.Prelude.{ℕ, ℤ, Action}
use safefs.Layers.{FilePath, Buffer, FileInfo, FuseOperations}

module _ {S : Type 0} (originalfs_oper : FuseOperations S) where
  unfoldable pub nopfuse_read : FilePath → Buffer → ℕ → ℕ → FileInfo → Action S (ℤ × Buffer)
  nopfuse_read path buf size offset fi = originalfs_oper.read path buf size offset fi

  unfoldable pub nopfuse_write : FilePath → Buffer → ℕ → ℕ → FileInfo → Action S ℤ
  nopfuse_write path buf size offset fi = originalfs_oper.write path buf size offset fi

  unfoldable pub init_nop_layer : FuseOperations S
  unfolding nopfuse_read nopfuse_write
  init_nop_layer = record originalfs_oper { read = nopfuse_read; write = nopfuse_write }
