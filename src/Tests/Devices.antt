-- ===== src/Tests/Devices.antt =====
-- Two and three devices under multi_loopback.
use safefs.Prelude.{ℕ, ◌+◌, ◌≡◌, refl, some, pos, length, ◌++◌, List, [], ◌∷◌, arith, true, none}
use safefs.Layers.{Buffer}
use safefs.Drivers.{encode_xor, decode_xor, rep_encode, rep_decode}
use safefs.Drivers.Xor.{HaveSize, decode_xor-encode_xor}
use safefs.Drivers.Rep.{rep_decode-rep_encode}
use safefs.MultiLoopback.{Reply, Outcome, wait_for_all_requests}
use safefs.MultiLoopback.Wait.{Concluded, wait_for_all_requests_lem}

-- A generator whose state is the next byte.
abbrev bytes_from : ℕ → Buffer → Buffer
bytes_from seed [] = []
bytes_from seed (x ∷ xs) = seed ∷ bytes_from (seed + 89) xs

length-bytes_from : (seed : ℕ) (b : Buffer) → length (bytes_from seed b) ≡ length b
length-bytes_from seed [] = refl
length-bytes_from seed (x ∷ xs) = omega (arith, length-bytes_from (seed + 89) xs)

abbrev generator : Buffer → ℕ → ℕ → Buffer × ℕ
generator b n seed = (bytes_from seed b, seed + 7)

generator_fills : (b : Buffer) (n seed : ℕ) → length b ≡ n → length (generator b n seed).0 ≡ n
generator_fills b n seed h = omega (arith, length-bytes_from seed b, h)

abbrev block0 : Buffer
block0 = 200 ∷ 17 ∷ 5 ∷ []

abbrev zeros : Buffer
zeros = 0 ∷ 0 ∷ 0 ∷ []

abbrev room0 : Buffer
room0 = 9 ∷ 9 ∷ 9 ∷ 8 ∷ []

decode_xor-encode_xor_example :
    (ms : List Buffer) × (w' : ℕ) × (encode_xor generator
        (47 ∷ [])
        (zeros ∷ zeros ∷ zeros ∷ [])
        block0
        0
        3
        3
        33
      ≡ some (ms, w'))
    × HaveSize 3 ms
    × (length ms ≡ 3)
    × ((v : ℕ) → decode_xor room0 ms 3 3 v ≡ some (block0 ++ (8 ∷ []), v))
decode_xor-encode_xor_example =
    decode_xor-encode_xor generator generator_fills (47 ∷ []) 33 (zeros ∷ zeros ∷ zeros ∷ []) block0
      room0 0 3 3 refl (omega arith) (refl, (refl, (refl, tt))) refl (omega arith)

rep_decode-rep_encode_example :
    (rep_encode {W = ℕ} (47 ∷ []) (zeros ∷ zeros ∷ []) block0 0 3 2 33
      ≡ some (block0 ∷ block0 ∷ [], 33))
    × ((v : ℕ) → rep_decode room0 (block0 ∷ block0 ∷ []) 3 2 v ≡ some (block0 ++ (8 ∷ []), v))
rep_decode-rep_encode_example =
    rep_decode-rep_encode (47 ∷ []) 33 (zeros ∷ zeros ∷ []) block0 room0 0 3 2 refl (omega arith)
      (refl, (refl, tt)) refl (omega arith)

abbrev short_read : Reply
short_read = record { op_res = pos 2; op_error = pos 0; buf = 1 ∷ 2 ∷ []; dp = none }

abbrev full_read : Reply
full_read = record { op_res = pos 3; op_error = pos 0; buf = 1 ∷ 2 ∷ 3 ∷ []; dp = none }

wait_for_all_requests_lem_example :
    (out : Outcome) × (wait_for_all_requests true (full_read ∷ short_read ∷ []) ≡ some out)
    × Concluded true full_read (full_read ∷ short_read ∷ []) out
wait_for_all_requests_lem_example = wait_for_all_requests_lem true full_read (short_read ∷ [])
