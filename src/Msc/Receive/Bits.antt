-- ===== src/Msc/Receive/Bits.antt =====
-- The bits of a symbol as they were sent.
use opendab.Base.{ℕ, ◌+◌, ◌-◌, ◌*◌, ◌/◌, ◌%◌, ◌^◌, ◌<◌, ◌≡◌, ap, ◌∙◌, arith, Buffer}
use opendab.Wfic.Order.{byte_to_bit, bitswap16, byte_to_bit-digit, bitswap16-reversed}
use opendab.Wfic.Interleaver.{carrier}
use opendab.Wfic.Interleaver.RoundTrip.{symbol_bits, carrier_injective}
use opendab.Msc.Receive.{freq_deinterleave}

-- Bit `p` of a symbol: words of 16 bits in memory with the low byte first, their high bits first.
abbrev pub wire_bit : Buffer → ℕ → ℕ
wire_bit cbuf p = cbuf (p / 16 * 2 + (1 - p % 16 / 8)) / 2 ^ (7 - p % 8) % 2

swapped_bit :
    (cbuf b d : Buffer) (p : ℕ)
    → p < 3072
    → bitswap16 (byte_to_bit 0 cbuf 384 b) d (384 * 8) p ≡ wire_bit cbuf p
swapped_bit cbuf b d p h =
    bitswap16-reversed bits d 192 p (omega (arith, h))
    ∙ ap bits (
        let e : p / 16 * 16 + (15 - p % 16) ≡ (p / 16 * 2 + (1 - p % 16 / 8)) * 8 + (7 - p % 8) =
          omega arith in
        e)
    ∙ byte_to_bit-digit 0 cbuf 384 b (p / 16 * 2 + (1 - p % 16 / 8)) (7 - p % 8) (omega (arith, h))
        (omega arith)
  where
    bits : Buffer
    bits = byte_to_bit 0 cbuf 384 b

-- After `freq_deinterleave` the bits `n` and `n + 1536` are the two bits that the carrier of `n` was
-- sent with, for each of the 1536 carriers.
pub freq_deinterleave_lem :
    (bbuf dbuf obuf cbuf : Buffer) (n : ℕ)
    → n < 1536
    → (freq_deinterleave bbuf dbuf obuf cbuf n ≡ wire_bit cbuf (2 * carrier n + 0))
      × (freq_deinterleave bbuf dbuf obuf cbuf (n + 1536) ≡ wire_bit cbuf (2 * carrier n + 1))
unfolding freq_deinterleave
freq_deinterleave_lem bbuf dbuf obuf cbuf n h =
    let small = (carrier_injective n n h h).0 in
    let both =
      symbol_bits (bitswap16 (byte_to_bit 0 cbuf 384 bbuf) dbuf (384 * 8))
        (byte_to_bit 0 cbuf 384 bbuf) obuf n h in
    (
      both.0 ∙ swapped_bit cbuf bbuf dbuf (2 * carrier n + 0) (omega (arith, small)),
      both.1 ∙ swapped_bit cbuf bbuf dbuf (2 * carrier n + 1) (omega (arith, small)),
    )
