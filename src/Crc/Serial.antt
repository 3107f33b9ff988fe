-- ===== src/Crc/Serial.antt =====
-- Bit-serial division by a generator polynomial, message bits first to last: what the tables of
-- the checks are meant to speed up.
use opendab.Base.{
  ℕ, zero, suc, ◌+◌, ◌*◌, ◌/◌, ◌%◌, ◌^◌, ◌<◌, ◌≡◌, refl, sym, ap, ap₂, ◌∙◌, arith, bit_xor,
}
use opendab.Base.Bits.{
  bit_xor_cross, bit_xor-mod, bit_xor-div, bit_xor-mul, bit_xor_self, zero-bit_xor, bit_xor-zero,
  parity-bit_xor,
}

-- What the digit that is shifted out takes off: the generator, or nothing.
unfoldable pub take_off : ℕ → ℕ → ℕ
take_off g zero = 0
take_off g (suc t) = g

-- One step of the division of a 16-bit remainder.
unfoldable pub shift_out : ℕ → ℕ → ℕ
unfolding take_off
shift_out g c = bit_xor (c * 2 % 2 ^ 16) (take_off g (c / 2 ^ 15 % 2))

-- The same with a message bit, which comes in at the top.
unfoldable pub feed_bit : ℕ → ℕ → ℕ → ℕ
unfolding shift_out
feed_bit g c t = shift_out g (bit_xor c (t * 2 ^ 15))

-- The lowest `n` bits of `b`, highest first.
unfoldable pub feed_bits : ℕ → ℕ → ℕ → ℕ → ℕ
unfolding feed_bit
feed_bits g zero c b = c
feed_bits g (suc n) c b = feed_bits g n (feed_bit g c (b / 2 ^ n % 2)) b

take_off-bit_xor :
    (g s t : ℕ) → s < 2 → t < 2 → take_off g ((s + t) % 2) ≡ bit_xor (take_off g s) (take_off g t)
unfolding take_off
take_off-bit_xor g zero zero p q = refl
take_off-bit_xor g zero (suc zero) p q = sym (zero-bit_xor g)
take_off-bit_xor g (suc zero) zero p q = sym (bit_xor-zero g)
take_off-bit_xor g (suc zero) (suc zero) p q = sym (bit_xor_self g)
take_off-bit_xor g (suc zero) (suc (suc t)) p q = absurd (omega arith)
take_off-bit_xor g (suc (suc s)) t p q = absurd (omega arith)
take_off-bit_xor g zero (suc (suc t)) p q = absurd (omega arith)

doubled : (c d : ℕ) → bit_xor c d * 2 % 2 ^ 16 ≡ bit_xor (c * 2 % 2 ^ 16) (d * 2 % 2 ^ 16)
doubled c d = ap (λ (t : ℕ). t % 2 ^ 16) (sym (bit_xor-mul 1 c d)) ∙ bit_xor-mod 16 (c * 2) (d * 2)

top_digit : (c d : ℕ) → bit_xor c d / 2 ^ 15 % 2 ≡ (c / 2 ^ 15 % 2 + d / 2 ^ 15 % 2) % 2
top_digit c d =
    omega
      (arith, ap (λ (t : ℕ). t % 2) (bit_xor-div 15 c d), parity-bit_xor (c / 2 ^ 15) (d / 2 ^ 15))

-- A division step is linear over exclusive or.
pub shift_out-bit_xor :
    (g c d : ℕ) → shift_out g (bit_xor c d) ≡ bit_xor (shift_out g c) (shift_out g d)
unfolding shift_out
shift_out-bit_xor g c d =
    ap₂ bit_xor (doubled c d) (ap (take_off g) (top_digit c d) ∙ taken)
    ∙ bit_xor_cross (c * 2 % 2 ^ 16) (d * 2 % 2 ^ 16) (take_off g (c / 2 ^ 15 % 2))
        (take_off g (d / 2 ^ 15 % 2))
  where
    taken :
        take_off g ((c / 2 ^ 15 % 2 + d / 2 ^ 15 % 2) % 2)
        ≡ bit_xor (take_off g (c / 2 ^ 15 % 2)) (take_off g (d / 2 ^ 15 % 2))
    taken = take_off-bit_xor g (c / 2 ^ 15 % 2) (d / 2 ^ 15 % 2) (omega arith) (omega arith)

raised :
    (b e n : ℕ)
    → (bit_xor b e / 2 ^ n % 2) * 2 ^ 15
      ≡ bit_xor ((b / 2 ^ n % 2) * 2 ^ 15) ((e / 2 ^ n % 2) * 2 ^ 15)
raised b e n =
    ap (λ (t : ℕ). t % 2 * 2 ^ 15) (bit_xor-div n b e)
    ∙ ap (λ (t : ℕ). t * 2 ^ 15) (bit_xor-mod 1 (b / 2 ^ n) (e / 2 ^ n))
    ∙ sym (bit_xor-mul 15 (b / 2 ^ n % 2) (e / 2 ^ n % 2))

pub feed_bits-bit_xor :
    (g n c d b e : ℕ)
    → feed_bits g n (bit_xor c d) (bit_xor b e) ≡ bit_xor (feed_bits g n c b) (feed_bits g n d e)
unfolding feed_bits
feed_bits-bit_xor g zero c d b e = refl
feed_bits-bit_xor g (suc n) c d b e =
    ap (λ t. feed_bits g n t (bit_xor b e)) fed
    ∙ feed_bits-bit_xor g n (feed_bit g c (b / 2 ^ n % 2)) (feed_bit g d (e / 2 ^ n % 2)) b e
  where
    fed :
        feed_bit g (bit_xor c d) (bit_xor b e / 2 ^ n % 2)
        ≡ bit_xor (feed_bit g c (b / 2 ^ n % 2)) (feed_bit g d (e / 2 ^ n % 2))
    fed =
        ap (λ t. shift_out g (bit_xor (bit_xor c d) t)) (raised b e n)
        ∙ ap (shift_out g) (bit_xor_cross c d ((b / 2 ^ n % 2) * 2 ^ 15) ((e / 2 ^ n % 2) * 2 ^ 15))
        ∙ shift_out-bit_xor g (bit_xor c ((b / 2 ^ n % 2) * 2 ^ 15))
            (bit_xor d ((e / 2 ^ n % 2) * 2 ^ 15))
