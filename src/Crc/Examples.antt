-- ===== src/Crc/Examples.antt =====
-- The checks on concrete messages.
use opendab.Base.{
  ℕ, zero, suc, ◌+◌, ◌*◌, ◌<◌, ◌≡◌, ◌↔◌, refl, arith, true, List, [], ◌∷◌, All, holding, window,
}
use opendab.Crc.{crc_step, crc_loop, crccheck, crc16check, firecrccheck}
use opendab.Crc.Accept.{IsBytes, remainder}
use opendab.Crc.Checks.{crccheck_iff, firecrccheck_iff}

holding-IsBytes : (xs : List ℕ) → All (λ x. x < 256) xs → IsBytes (holding xs)
holding-IsBytes [] h i = omega arith
holding-IsBytes (x ∷ xs) h zero = h.0
holding-IsBytes (x ∷ xs) h (suc i) = holding-IsBytes xs h.1 i

-- Two bytes, and their check value by x^16 + x^12 + x^5 + 1.
abbrev message : List ℕ
message = 0x12 ∷ 0x34 ∷ 0x0e ∷ 0xc9 ∷ []

message-IsBytes : IsBytes (holding message)
message-IsBytes =
    holding-IsBytes message (omega arith, (omega arith, (omega arith, (omega arith, tt))))

message_passes : crccheck (holding message) 4 ≡ true
unfolding crccheck crc_loop crc_step
message_passes = refl

crccheck_iff_example :
    ((crccheck (holding message) 4 ≡ true)
      ↔ (0x0e * 256 + 0xc9 ≡ remainder 0x1021 0xffff (window (holding message) 0 2)))
    × ((crc16check (holding message) 4 ≡ true)
        ↔ (0x0e * 256 + 0xc9 ≡ remainder 0x8005 0xffff (window (holding message) 0 2)))
crccheck_iff_example = crccheck_iff (holding message) 2 message-IsBytes

firecrccheck_iff_example :
    (firecrccheck (holding message) ≡ true)
    ↔ (0x12 * 256 + 0x34 ≡ remainder 0x782f 0 (window (holding message) 2 9))
firecrccheck_iff_example = firecrccheck_iff (holding message) message-IsBytes
