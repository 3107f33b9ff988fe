-- ===== src/Wfic/Decode/Examples.antt =====
-- The chain with a concrete encoder and decoder: each digit four times, and the first symbol of four.
use opendab.Base.{
  ◌↔◌, ℕ, ◌+◌, ◌*◌, ◌/◌, ◌%◌, ◌<◌, ◌≤◌, ◌≡◌, refl, ap, ◌∙◌, arith, ltb, lt→ltb, ◌==◌, true,
  if◌then◌else◌, Buffer, Bool-cases, inl, inr,
}
use opendab.Wfic.Puncture.Places.{width}
use opendab.Wfic.Decode.{Arrays, soft, decode_blocks, fic_decode, crc16}
use opendab.Wfic.Decode.Agree.{Agree, AreBits}
use opendab.Wfic.Decode.Word.{received}
use opendab.Wfic.Decode.Transmitter.{transmit}
use opendab.Wfic.Decode.Block.{IsScanned}
use opendab.Wfic.Decode.Whole.{fic_decode_lem}
use opendab.Wfic.Decode.Check.{with_check}
use opendab.Wfic.Decode.Unique.{crc16_iff}
use opendab.Wfic.Decode.Delivery.{checked, IsDelivered, fic_decode-checked}

abbrev repeated : Buffer → Buffer
repeated word i = if ltb (i / 4) 768 then word (i / 4) else 0

abbrev first_of_four : Buffer → ℕ → Buffer → Buffer
first_of_four symbols bits out j = if symbols (4 * j) == 129 then 1 else 0

abbrev blank : Buffer
blank i = 7

abbrev striped : ℕ → Buffer
striped k i = (k + i) % 2

abbrev blanks : ℕ → Buffer
blanks k = blank

abbrev arrays : Arrays
arrays = record {
  data_b = blanks;
  data_c = blanks;
  data_d = blanks;
  data_e = blanks;
  data9216 = blank;
  fic_a = blanks;
  fic_b = blanks;
  fic_c = blanks;
  fic_d = blanks;
  fib_a = blanks;
  fib_b = blanks;
}

repeated-AreBits : (word : Buffer) → AreBits 768 word → AreBits 3096 (repeated word)
repeated-AreBits word h i p = elim (Bool-cases (ltb (i / 4) 768)) [
  | inl e ↦ rw e (h (i / 4) (ground (arith, e)))
  | inr e ↦ rw e (omega arith)
]

back : (t : ℕ) → t < 2 → (if soft t == 129 then 1 else 0) ≡ t
unfolding soft
back t q = ground arith

first_of_four-decodes :
    (word symbols out : Buffer)
    → AreBits 768 word
    → Agree 3096 symbols (received (repeated word))
    → Agree 768 (first_of_four symbols 768 out) word
first_of_four-decodes word symbols out bits h j p =
    ap (λ (t : ℕ). if t == 129 then 1 else 0) (h (4 * j) (omega (arith, p)) ∙ sent)
    ∙ back (word j) (bits j p)
  where
    kept : (c : ℕ) → ltb (4 * j % 4) (width c) ≡ true
    kept c = ground arith

    sent : received (repeated word) (4 * j) ≡ soft (word j)
    sent = let e : 4 * j / 4 ≡ j = omega arith in rw (kept (4 * j / 4), e, lt→ltb j 768 p) refl

striped-AreBits : (k : ℕ) → k < 12 → AreBits 240 (striped k)
striped-AreBits k h i p = omega arith

fic_decode-checked_example :
    IsDelivered striped blank
      (fic_decode first_of_four blank (transmit repeated (checked striped)) blank arrays)
fic_decode-checked_example =
    fic_decode-checked first_of_four repeated repeated-AreBits first_of_four-decodes striped
      striped-AreBits blank blank arrays

fic_decode_lem_example :
    IsScanned
      (decode_blocks first_of_four blank blanks arrays).fib_a
      blank
      12
      (fic_decode first_of_four blank blanks blank arrays)
    × ((fic_decode first_of_four blank blanks blank arrays).okfibs ≤ 12)
fic_decode_lem_example = fic_decode_lem first_of_four blank blanks blank arrays

crc16_iff_example :
    (crc16 (striped 0) 256 1 ≡ 0) ↔ Agree 256 (striped 0) (with_check (striped 0) 240)
crc16_iff_example = crc16_iff (striped 0) 240 (λ i p. omega arith)
