-- ===== src/Drivers/Rep.antt =====
-- rep_encode and rep_decode are inverse: every device has the block.
use safefs.Prelude.{
  ℕ, zero, suc, ◌≤◌, ◌≡◌, refl, some, List, [], ◌∷◌, ◌++◌, length, drop, replicate, append-nil,
  arith,
}
use safefs.Layers.{FilePath, Buffer}
use safefs.Drivers.Defs.{rep_rounds, rep_encode, rep_decode}
use safefs.Drivers.Bytes.{whole_copy, drop_end}
use safefs.Drivers.Xor.{HaveSize}

rep_rounds_lem :
    (ms : List Buffer) (block : Buffer) (size n : ℕ)
    → length ms ≡ n
    → HaveSize size ms
    → length block ≡ size
    → rep_rounds ms block size n ≡ some (replicate n block)
unfolding rep_rounds
rep_rounds_lem [] block size zero h all hb = refl
rep_rounds_lem [] block size (suc n) h all hb = absurd (omega arith)
rep_rounds_lem (m ∷ ms) block size zero h all hb = absurd (omega arith)
rep_rounds_lem (m ∷ ms) block size (suc n) h (hm, all) hb =
    rw
      (
        rep_rounds,
        whole_copy m block size hb (omega arith),
        rep_rounds_lem ms block size n (omega arith) all hb,
        drop_end m size hm,
        append-nil block,
      )
      refl

-- `rep_encode` puts the block on every device, and `rep_decode` of what they hold puts it at the
-- start of the buffer and keeps the rest of the buffer. There is at least one device, and each
-- array that the devices' bytes go to has the block's size.
pub rep_decode-rep_encode {ℓ} :
    {W : Type ℓ} (path : FilePath) (w : W) (magicblocks : List Buffer) (block buf : Buffer)
    (offset size ndevs : ℕ)
    → length magicblocks ≡ ndevs
    → 1 ≤ ndevs
    → HaveSize size magicblocks
    → length block ≡ size
    → size ≤ length buf
    → (rep_encode path magicblocks block offset size ndevs w ≡ some (replicate ndevs block, w))
      × ((v : W)
          → rep_decode buf (replicate ndevs block) size ndevs v ≡ some (block ++ drop size buf, v))
unfolding rep_encode rep_decode
rep_decode-rep_encode path w ms block buf offset size zero h some_device all hb room =
    absurd (omega arith)
rep_decode-rep_encode path w ms block buf offset size (suc n) h some_device all hb room = (
  rw (rep_rounds_lem ms block size (suc n) h all hb) refl,
  λ v. rw (whole_copy buf block size hb room) refl,
)
