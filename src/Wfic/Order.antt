-- ===== src/Wfic/Order.antt =====
-- src/wfic/wfic.c: bytes to bits and back, and the order of bits in 16-bit words. Log files are left
-- out, and the length that is written is the loops' bound.
use opendab.Base.{
  ℕ, ◌+◌, ◌-◌, ◌*◌, ◌/◌, ◌%◌, ◌^◌, ◌<◌, ◌≡◌, refl, ap, ◌∙◌, arith, true, false, ◌==◌, if◌then◌else◌,
  Buffer, store, for_range, Bool-cases, inl, inr,
}
use opendab.Base.Fill.{IsRow, filled_by, blocks_filled}

-- Digit `j` of a byte, from the low or the high end.
abbrev pub digit_of : ℕ → ℕ → ℕ → ℕ
digit_of endian byte j = if endian == 0 then byte / 2 ^ j % 2 else byte / 2 ^ (7 - j) % 2

pub byte_to_bit : ℕ → Buffer → ℕ → Buffer → Buffer
byte_to_bit endian ibuf ilen obuf =
    for_range ilen 0
      (λ i b. for_range 8 0 (λ j b. store b (i * 8 + j) (digit_of endian (ibuf i) j)) b) obuf

abbrev pub byte_at : ℕ → Buffer → ℕ → ℕ
byte_at endian ibuf i =
    if endian == 0
    then (ibuf (i + 0)
        + ibuf (i + 1) * 2
        + ibuf (i + 2) * 2 ^ 2
        + ibuf (i + 3) * 2 ^ 3
        + ibuf (i + 4) * 2 ^ 4
        + ibuf (i + 5) * 2 ^ 5
        + ibuf (i + 6) * 2 ^ 6
        + ibuf (i + 7) * 2 ^ 7)
      % 2 ^ 8
    else (ibuf (i + 0) * 2 ^ 7
        + ibuf (i + 1) * 2 ^ 6
        + ibuf (i + 2) * 2 ^ 5
        + ibuf (i + 3) * 2 ^ 4
        + ibuf (i + 4) * 2 ^ 3
        + ibuf (i + 5) * 2 ^ 2
        + ibuf (i + 6) * 2
        + ibuf (i + 7))
      % 2 ^ 8

-- `for (i=0; i<ilen; i+=8)`, `j` counting the rounds.
unfoldable pub bit_to_byte : ℕ → Buffer → ℕ → Buffer → Buffer
bit_to_byte endian ibuf ilen obuf =
    for_range ((ilen + 7) / 8) 0 (λ j b. store b j (byte_at endian ibuf (8 * j))) obuf

-- The sixteen assignments of a round as a loop.
pub bitswap16 : Buffer → Buffer → ℕ → Buffer
bitswap16 a b len =
    for_range ((len + 15) / 16) 0
      (λ k b. for_range 16 0 (λ j b. store b (k * 16 + j) (a (k * 16 + (15 - j)))) b) b

pub byte_to_bit-digit :
    (endian : ℕ) (ibuf : Buffer) (ilen : ℕ) (obuf : Buffer) (i j : ℕ)
    → i < ilen
    → j < 8
    → byte_to_bit endian ibuf ilen obuf (i * 8 + j) ≡ digit_of endian (ibuf i) j
unfolding byte_to_bit
byte_to_bit-digit endian ibuf ilen obuf i j h q =
    blocks_filled 8 (λ i j. digit_of endian (ibuf i) j) ilen i j obuf eights h q
  where
    eights : IsRow 8
    eights i k x y h p q e = omega (arith, h, p, q, e)

low_bits :
    (endian byte : ℕ) (ds : ℕ → ℕ)
    → byte < 256
    → ((j : ℕ) → j < 8 → ds j ≡ digit_of endian byte j)
    → byte_at endian ds 0 ≡ byte
low_bits endian byte ds small d = elim (Bool-cases (endian == 0)) [
  | inl e ↦ rw e (
      omega (
        arith,
        small,
        low e 0 (omega arith),
        low e 1 (omega arith),
        low e 2 (omega arith),
        low e 3 (omega arith),
        low e 4 (omega arith),
        low e 5 (omega arith),
        low e 6 (omega arith),
        low e 7 (omega arith),
      ))
  | inr e ↦ rw e (
      omega (
        arith,
        small,
        high e 0 (omega arith),
        high e 1 (omega arith),
        high e 2 (omega arith),
        high e 3 (omega arith),
        high e 4 (omega arith),
        high e 5 (omega arith),
        high e 6 (omega arith),
        high e 7 (omega arith),
      ))
]
  where
    low : endian == 0 ≡ true → (j : ℕ) → j < 8 → ds j ≡ byte / 2 ^ j % 2
    low e j q = d j q ∙ rw e refl

    high : endian == 0 ≡ false → (j : ℕ) → j < 8 → ds j ≡ byte / 2 ^ (7 - j) % 2
    high e j q = d j q ∙ rw e refl

-- Bits put together to bytes again are the bytes that they were taken from, in either order.
pub bit_to_byte-byte_to_bit :
    (endian : ℕ) (ibuf mid out : Buffer) (n i : ℕ)
    → i < n
    → ibuf i < 256
    → bit_to_byte endian (byte_to_bit endian ibuf n mid) (8 * n) out i ≡ ibuf i
unfolding bit_to_byte
bit_to_byte-byte_to_bit endian ibuf mid out n i h small =
    filled_by (λ j. byte_at endian bits (8 * j)) ((8 * n + 7) / 8) i out (omega (arith, h))
    ∙ low_bits endian (ibuf i) (λ j. bits (8 * i + j)) small d
  where
    bits : Buffer
    bits = byte_to_bit endian ibuf n mid

    d : (j : ℕ) → j < 8 → bits (8 * i + j) ≡ digit_of endian (ibuf i) j
    d j q =
        ap bits (let e : 8 * i + j ≡ i * 8 + j = omega arith in e)
        ∙ byte_to_bit-digit endian ibuf n mid i j h q

pub bitswap16-reversed :
    (a b : Buffer) (words i : ℕ)
    → i < 16 * words
    → bitswap16 a b (16 * words) i ≡ a (i / 16 * 16 + (15 - i % 16))
unfolding bitswap16
bitswap16-reversed a b words i h =
    ap swapped (let e : i ≡ i / 16 * 16 + i % 16 = omega arith in e)
    ∙ blocks_filled 16 (λ k j. a (k * 16 + (15 - j))) ((16 * words + 15) / 16) (i / 16) (i % 16) b
        sixteens (omega (arith, h)) (omega arith)
  where
    swapped : Buffer
    swapped = bitswap16 a b (16 * words)

    sixteens : IsRow 16
    sixteens i k x y h p q e = omega (arith, h, p, q, e)

-- Reversing the bits of each 16-bit word twice gives them back.
pub bitswap16_twice :
    (a mid out : Buffer) (words i : ℕ)
    → i < 16 * words
    → bitswap16 (bitswap16 a mid (16 * words)) out (16 * words) i ≡ a i
bitswap16_twice a mid out words i h =
    bitswap16-reversed (bitswap16 a mid (16 * words)) out words i h
    ∙ bitswap16-reversed a mid words (i / 16 * 16 + (15 - i % 16)) (omega (arith, h))
    ∙ ap a back
  where
    back : (i / 16 * 16 + (15 - i % 16)) / 16 * 16 + (15 - (i / 16 * 16 + (15 - i % 16)) % 16) ≡ i
    back = omega arith
