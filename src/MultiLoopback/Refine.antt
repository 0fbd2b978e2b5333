-- ===== src/MultiLoopback/Refine.antt =====
-- The table of multi_loopback.c as a file: for any driver whose shares combine, and for the drivers
-- of multi_loop_drivers/xor.c and multi_loop_drivers/rep.c.
use safefs.Prelude.{ℕ, ◌<◌, ◌≤◌, ◌≡◌, inl, inr, sym, subst, Bool, Option, some, List, length}
use safefs.Layers.{FilePath, Buffer, FileInfo}
use safefs.MultiLoopback.Requests.{rep, xor}
use safefs.MultiLoopback.State.{Setup, device_path}
use safefs.MultiLoopback.Directory.{loopback_oper}
use safefs.MultiLoopback.Devices.{IsSchedule}
use safefs.MultiLoopback.Contract.{IsDisk, IsSplitter, IsSpreadFile}
use safefs.MultiLoopback.Spread.{IsSetup, IsSpread, loopback_write_lem}
use safefs.MultiLoopback.SpreadRead.{loopback_read_lem}
use safefs.MultiLoopback.SpreadResize.{loopback_ftruncate_lem, loopback_fgetattr_lem}
use safefs.MultiLoopback.Xored.{xor_driver, xored}
use safefs.MultiLoopback.Splitters.{
  rep_driver, first_of, xor_driver-IsSplitter, rep_driver-IsSplitter,
}

module _ {W : Type 0} (g : Setup W) (full : List FilePath → Bool) (rounds : ℕ)
    (file : W → ℕ → Option Buffer) (path : FilePath) (fi : FileInfo) where
  pub loopback_oper-IsSpreadFile :
      (combine : List Buffer → Buffer)
      → IsSetup g file combine path
      → IsSpreadFile path fi (loopback_oper g full rounds) (IsSpread g file combine fi)
  unfolding loopback_oper
  loopback_oper-IsSpreadFile combine setup = record {
    size_law = loopback_fgetattr_lem g file combine path fi setup;
    read_law = loopback_read_lem g file combine path fi setup;
    write_law = loopback_write_lem g file combine path fi setup;
    truncate_law = loopback_ftruncate_lem g file combine path fi setup;
  }

  pub rep_driver-IsSetup :
      IsDisk g.os file
      → g.mode ≡ rep
      → g.driver ≡ rep_driver
      → 1 ≤ g.ndevs
      → IsSchedule g.order g.ndevs
      → ((i : ℕ) → i < g.ndevs → (p : FilePath) × (device_path g path i ≡ some p))
      → IsSetup g file first_of path
  rep_driver-IsSetup disk mode driver some_device schedule fits = record {
    disk = disk;
    splitter = subst (λ d. IsSplitter d file first_of) (sym driver) (rep_driver-IsSplitter file);
    plain = inl mode;
    some_device = some_device;
    schedule = schedule;
    fits = fits;
  }

  -- In mode XOR multi_loopback makes a file of bytes, of which each device has a share and the
  -- exclusive or of the shares is the file: its size is reported; a read from within it or its end,
  -- of less than 2 ^ 31 bytes, returns how many of the bytes are there and puts them at the start of
  -- the buffer, and keeps the buffer behind the bytes asked for; a write there of less than 2 ^ 31
  -- bytes returns their number and puts them over those of the file; a truncation to at most its
  -- size returns 0 and keeps its first bytes. All this holds in whatever order the threads run,
  -- each once, and whatever the random bytes are. There is a device, each has a file of its own
  -- behind the descriptors of the handle, whose calls move all the bytes that they are asked for,
  -- the paths fit their arrays, and the generator fills what it is given and changes no file.
  pub loopback_oper-xor_driver :
      (rand_pseudo_bytes : Buffer → ℕ → W → Buffer × W)
      → ((b : Buffer) (n : ℕ) (w : W) → length b ≡ n → length (rand_pseudo_bytes b n w).0 ≡ n)
      → ((b : Buffer) (n : ℕ) (w : W) (h : ℕ) → file (rand_pseudo_bytes b n w).1 h ≡ file w h)
      → IsDisk g.os file
      → g.mode ≡ xor
      → g.driver ≡ xor_driver rand_pseudo_bytes
      → 1 ≤ g.ndevs
      → IsSchedule g.order g.ndevs
      → ((i : ℕ) → i < g.ndevs → (p : FilePath) × (device_path g path i ≡ some p))
      → IsSpreadFile path fi (loopback_oper g full rounds) (IsSpread g file xored fi)
  loopback_oper-xor_driver rand_pseudo_bytes fills quiet disk mode driver some_device schedule
        fits =
      loopback_oper-IsSpreadFile xored (record {
        disk = disk;
        splitter =
            subst (λ d. IsSplitter d file xored) (sym driver)
              (xor_driver-IsSplitter rand_pseudo_bytes file fills quiet);
        plain = inr mode;
        some_device = some_device;
        schedule = schedule;
        fits = fits;
      })

  -- In mode REP multi_loopback makes a file of bytes, which the first device has: its size is
  -- reported; a read from within it or its end, of less than 2 ^ 31 bytes, returns how many of the
  -- bytes are there and puts them at the start of the buffer, and keeps the buffer behind the bytes
  -- asked for; a write there of less than 2 ^ 31 bytes returns their number and puts them over those
  -- of the file; a truncation to at most its size returns 0 and keeps its first bytes. All this
  -- holds in whatever order the threads run, each once. There is a device, each has a file of its
  -- own behind the descriptors of the handle, whose calls move all the bytes that they are asked
  -- for, and the paths fit their arrays.
  pub loopback_oper-rep_driver :
      IsDisk g.os file
      → g.mode ≡ rep
      → g.driver ≡ rep_driver
      → 1 ≤ g.ndevs
      → IsSchedule g.order g.ndevs
      → ((i : ℕ) → i < g.ndevs → (p : FilePath) × (device_path g path i ≡ some p))
      → IsSpreadFile path fi (loopback_oper g full rounds) (IsSpread g file first_of fi)
  loopback_oper-rep_driver disk mode driver some_device schedule fits =
      loopback_oper-IsSpreadFile first_of
        (rep_driver-IsSetup disk mode driver some_device schedule fits)
