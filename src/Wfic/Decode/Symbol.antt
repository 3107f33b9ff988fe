-- ===== src/Wfic/Decode/Symbol.antt =====
-- The bits and the bytes of a transmitted symbol.
use opendab.Base.{ℕ, ◌+◌, ◌-◌, ◌*◌, ◌/◌, ◌%◌, ◌<◌, ◌≡◌, ap, ◌∙◌, arith, Buffer}
use opendab.Wfic.Order.{byte_to_bit, bitswap16, bitswap16-reversed}
use opendab.Wfic.Interleaver.{
  carrier, qpsk_symbol_mapper, qpsk_symbol_demapper, frequency_interleaver, frequency_deinterleaver,
}
use opendab.Wfic.Interleaver.RoundTrip.{carrier_lem, interleaved, mapped, symbol_bits}
use opendab.Wfic.Decode.Agree.{
  Agree, AreBits, byte_to_bit-bit_to_byte, interleaver-AreBits, mapper-AreBits,
}
use opendab.Wfic.Decode.Transmitter.{clear, symbol_of_bits}
use native.Mathlib.Decide.{dec_lt}
use mathlib.Core.Path.{subst}

module _ (p b c d e : Buffer) (bits : AreBits 3072 p) where
  q : Buffer
  q = qpsk_symbol_mapper p clear

  -- What was interleaved.
  y : Buffer
  y = frequency_interleaver q clear

  y-AreBits : (x : ℕ) → y x < 2
  unfolding q y
  y-AreBits =
      interleaver-AreBits q clear (λ x h. mapper-AreBits p clear bits (λ x. omega arith) x)
        (λ x. omega arith)

  -- Each word the other way round.
  turned : Buffer
  turned = bitswap16 y clear 3072

  turned_lem : Agree 3072 turned (λ i. y (i / 16 * 16 + (15 - i % 16)))
  unfolding turned
  turned_lem i h = bitswap16-reversed y clear 192 i h

  taken : Buffer
  taken = byte_to_bit 0 (symbol_of_bits p) 384 b

  taken_lem : Agree 3072 taken turned
  unfolding taken turned y q symbol_of_bits
  taken_lem =
      byte_to_bit-bit_to_byte turned clear b 384
        (λ i h. rw (turned_lem i h) (y-AreBits (i / 16 * 16 + (15 - i % 16))))

  in_order : Agree 3072 (bitswap16 taken c 3072) y
  in_order i h =
      bitswap16-reversed taken c 192 i h
      ∙ taken_lem (i / 16 * 16 + (15 - i % 16)) (omega (arith, h))
      ∙ turned_lem (i / 16 * 16 + (15 - i % 16)) (omega (arith, h))
      ∙ ap y back
    where
      back : (i / 16 * 16 + (15 - i % 16)) / 16 * 16 + (15 - (i / 16 * 16 + (15 - i % 16)) % 16) ≡ i
      back = omega arith

  halves :
      (n : ℕ)
      → n < 1536
      → let bits = qpsk_symbol_demapper (frequency_deinterleaver (bitswap16 taken c 3072) d) e in
        (bits n ≡ p n) × (bits (n + 1536) ≡ p (n + 1536))
  unfolding y q
  halves n h =
      let k = (carrier_lem n h).1 in
      let found = symbol_bits (bitswap16 taken c 3072) d e n h in
      let sent = interleaved q clear n h in
      let held = mapped p clear n h in
      (
        found.0 ∙ in_order (2 * carrier n + 0) (omega (arith, k)) ∙ sent.0 ∙ held.0,
        found.1 ∙ in_order (2 * carrier n + 1) (omega (arith, k)) ∙ sent.1 ∙ held.1,
      )

  -- The four steps on the bytes of a symbol give its bits.
  pub symbol_lem :
      Agree 3072
        (qpsk_symbol_demapper
          (frequency_deinterleaver (bitswap16 (byte_to_bit 0 (symbol_of_bits p) 384 b) c 3072) d)
          e)
        p
  unfolding taken
  symbol_lem i h = elim (dec_lt i 1536) [
    | yes low ↦ (halves i low).0
    | no high ↦
        let s : i - 1536 + 1536 ≡ i = omega (arith, high) in
        subst
          (λ k. qpsk_symbol_demapper (frequency_deinterleaver (bitswap16 taken c 3072) d) e k ≡ p k)
          s (halves (i - 1536) (omega (arith, high, h))).1
  ]
