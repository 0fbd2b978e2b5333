-- ===== src/Tests/Layers.antt =====
-- alignfuse over the file of ten bytes, and over layers that fail.
use safefs.Prelude.{ℕ, ◌≡◌, refl, some, pos, negsuc, [], ◌∷◌, arith}
use safefs.Layers.{Buffer, FuseOperations}
use safefs.BlockAlign.{process_read_block}
use safefs.BlockAlign.Errors.{failed_read_lem}
use safefs.Alignfuse.{block, init_align_driver}
use safefs.Alignfuse.ByteFile.{IsByteFile}
use safefs.Alignfuse.Refine.{init_align_driver-IsByteFile, init_align_driver-read_back}
use safefs.Alignfuse.Errors.{ftruncate-fgetattr_error}
use safefs.Tests.Blocks.{
  flat, path0, fi0, st0, Is, ten_bytes, junk0, seven_bytes, flat-IsBlockFile, flat-IsResizable,
}

abbrev errno0 : Buffer → ℕ
errno0 s = 5

abbrev aligned : FuseOperations Buffer
aligned = init_align_driver errno0 block 4 junk0 st0 9 flat

init_align_driver-IsByteFile_example : IsByteFile path0 fi0 aligned Is
init_align_driver-IsByteFile_example =
    init_align_driver-IsByteFile errno0 flat-IsBlockFile flat-IsResizable junk0 st0 (omega arith) 9
      (omega arith)

init_align_driver-read_back_example :
    (t : Buffer) × (s' : Buffer) × (aligned.write path0 seven_bytes 6 5 fi0 ten_bytes
      ≡ some (pos 6, t))
    × (aligned.read path0 ten_bytes 6 5 fi0 t
        ≡ some ((pos 6, 1 ∷ 2 ∷ 3 ∷ 4 ∷ 5 ∷ 6 ∷ 16 ∷ 17 ∷ 18 ∷ 19 ∷ []), s'))
init_align_driver-read_back_example =
    init_align_driver-read_back errno0 flat-IsBlockFile flat-IsResizable junk0 st0 (omega arith) 9
      (omega arith) ten_bytes ten_bytes seven_bytes ten_bytes 6 5 refl (omega arith) (omega arith)
      (omega arith) (omega arith) (omega arith)

-- Every read fails with -5, and every request for the size with -2.
abbrev broken : FuseOperations Buffer
broken = record flat {
  read = λ path buf size offset fi s. some ((negsuc 4, buf), s);
  fgetattr = λ path st fi s. some ((negsuc 1, st), s);
}

failed_read_lem_example :
    process_read_block 4 junk0 st0 seven_bytes 3 0 1
      (record { path = path0; fi = fi0; nextlayer = broken })
      ten_bytes
    ≡ some ((pos 3, 255 ∷ 255 ∷ 255 ∷ 4 ∷ 5 ∷ 6 ∷ 7 ∷ []), ten_bytes)
failed_read_lem_example =
    failed_read_lem 4 junk0 st0 path0 fi0 broken ten_bytes ten_bytes seven_bytes
      (255 ∷ 255 ∷ 255 ∷ 255 ∷ []) 4 3 0 1 (omega arith) refl (omega arith) (omega arith)
      (omega arith) (omega arith) refl

ftruncate-fgetattr_error_example :
    (init_align_driver errno0 block 4 junk0 st0 9 broken).ftruncate path0 6 fi0 ten_bytes
    ≡ some (pos 0, ten_bytes)
ftruncate-fgetattr_error_example =
    ftruncate-fgetattr_error errno0 broken 4 junk0 st0 st0 9 6 0 path0 fi0 ten_bytes ten_bytes
      (omega arith) refl
