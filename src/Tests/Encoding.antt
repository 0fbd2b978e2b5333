-- ===== src/Tests/Encoding.antt =====
-- sfuse without encryption: the codec that copies, and the one that pads, with blocks of 100 bytes.
use safefs.Prelude.{◌≡◌, none, true, arith}
use safefs.Sfuse.{nop_driver, nop_padded_driver, sfuse_write, sfuse_oper}
use safefs.BlockAlign.Contract.{IsBlockFile}
use safefs.Sfuse.Refine.{sfuse_oper-IsBlockFile}
use safefs.Sfuse.Errors.{sfuse_write-nop_padded_driver}
use safefs.Tests.Blocks.{flat, path0, fi0, junk0, seven_bytes, ten_bytes}
use safefs.Tests.Spread.{path_f, fi_f}
use safefs.Tests.Below.{spread0, Spread0, spread0-IsRawFile}

sfuse_write-nop_padded_driver_example :
    sfuse_write
      (λ _. 5)
      (λ _. true)
      junk0
      (nop_padded_driver 100)
      flat
      path0
      seven_bytes
      7
      0
      fi0
      ten_bytes
    ≡ none
sfuse_write-nop_padded_driver_example =
    sfuse_write-nop_padded_driver (λ _. 5) (λ _. true) junk0 100 flat path0 seven_bytes 7 0 fi0
      ten_bytes (omega arith) (omega arith) (omega arith)

sfuse_oper-IsBlockFile_example :
    IsBlockFile 4 path_f fi_f (sfuse_oper (λ _. 5) (λ _. true) junk0 nop_driver spread0) Spread0
sfuse_oper-IsBlockFile_example =
    sfuse_oper-IsBlockFile (λ _. 5) (λ _. true) junk0 spread0-IsRawFile (omega arith)
