-- ===== src/Wfic/Examples.antt =====
-- Scrambling and interleaving of concrete values.
use opendab.Base.{◌%◌, ◌^◌, ◌≡◌, arith, bit_xor, [], ◌∷◌, Buffer, holding}
use opendab.Wfic.Scrambler.{scramble, dispersal_digit, scramble_lem}
use opendab.Wfic.Order.{byte_to_bit, bit_to_byte, bit_to_byte-byte_to_bit}
use opendab.Wfic.Puncture.{puncture, depuncture}
use opendab.Wfic.Puncture.RoundTrip.{depuncture-puncture}
use opendab.Wfic.Interleaver.{frequency_interleaver, frequency_deinterleaver}
use opendab.Wfic.Interleaver.RoundTrip.{deinterleaver-interleaver}

abbrev bits : Buffer
bits = holding (1 ∷ 0 ∷ 1 ∷ 1 ∷ [])

abbrev blank : Buffer
blank i = 7

abbrev counting : Buffer
counting i = i

scramble_lem_example : scramble bits blank 4 2 ≡ bit_xor 1 (dispersal_digit 2) % 2 ^ 8
scramble_lem_example = scramble_lem bits blank 4 2

deinterleaver-interleaver_example :
    frequency_deinterleaver (frequency_interleaver counting blank) blank 3071 ≡ 3071
deinterleaver-interleaver_example =
    deinterleaver-interleaver counting blank blank 3071 (omega arith)

bit_to_byte-byte_to_bit_example :
    bit_to_byte 1 (byte_to_bit 1 (holding (0x12 ∷ 0xef ∷ [])) 2 blank) 16 blank 1 ≡ 0xef
bit_to_byte-byte_to_bit_example =
    bit_to_byte-byte_to_bit 1 (holding (0x12 ∷ 0xef ∷ [])) blank blank 2 1 (omega arith)
      (omega arith)

depuncture-puncture_example : depuncture (puncture counting blank) blank 3070 ≡ 8
depuncture-puncture_example = depuncture-puncture counting blank blank 3070 (omega arith)
