-- ===== src/Wfic/Decode/Agree.antt =====
-- Bits put together to bytes and taken apart again, and what of its input each routine reads.
use opendab.Base.{
  ℕ, zero, suc, ◌+◌, ◌*◌, ◌/◌, ◌%◌, ◌<◌, ◌≡◌, ap, ◌∙◌, arith, Buffer, store, for_range_inv,
  store_below,
}
use opendab.Base.Fill.{filled_by}
use opendab.Wfic.Order.{digit_of, byte_at, byte_to_bit, bit_to_byte, byte_to_bit-digit}
use opendab.Wfic.Interleaver.{carrier, qpsk_symbol_mapper, frequency_interleaver}

abbrev pub Agree : ℕ → Buffer → Buffer → Type 0
Agree n a b = (i : ℕ) → i < n → a i ≡ b i

abbrev pub AreBits : ℕ → Buffer → Type 0
AreBits n b = (i : ℕ) → i < n → b i < 2

digit_of-byte_at : (x : Buffer) (j : ℕ) → AreBits 8 x → j < 8 → digit_of 0 (byte_at 0 x 0) j ≡ x j
digit_of-byte_at x zero b h = omega (
  arith,
  b 0 (omega arith),
  b 1 (omega arith),
  b 2 (omega arith),
  b 3 (omega arith),
  b 4 (omega arith),
  b 5 (omega arith),
  b 6 (omega arith),
  b 7 (omega arith),
)
digit_of-byte_at x (suc zero) b h = omega (
  arith,
  b 0 (omega arith),
  b 1 (omega arith),
  b 2 (omega arith),
  b 3 (omega arith),
  b 4 (omega arith),
  b 5 (omega arith),
  b 6 (omega arith),
  b 7 (omega arith),
)
digit_of-byte_at x (suc (suc zero)) b h = omega (
  arith,
  b 0 (omega arith),
  b 1 (omega arith),
  b 2 (omega arith),
  b 3 (omega arith),
  b 4 (omega arith),
  b 5 (omega arith),
  b 6 (omega arith),
  b 7 (omega arith),
)
digit_of-byte_at x (suc (suc (suc zero))) b h = omega (
  arith,
  b 0 (omega arith),
  b 1 (omega arith),
  b 2 (omega arith),
  b 3 (omega arith),
  b 4 (omega arith),
  b 5 (omega arith),
  b 6 (omega arith),
  b 7 (omega arith),
)
digit_of-byte_at x (suc (suc (suc (suc zero)))) b h = omega (
  arith,
  b 0 (omega arith),
  b 1 (omega arith),
  b 2 (omega arith),
  b 3 (omega arith),
  b 4 (omega arith),
  b 5 (omega arith),
  b 6 (omega arith),
  b 7 (omega arith),
)
digit_of-byte_at x (suc (suc (suc (suc (suc zero))))) b h = omega (
  arith,
  b 0 (omega arith),
  b 1 (omega arith),
  b 2 (omega arith),
  b 3 (omega arith),
  b 4 (omega arith),
  b 5 (omega arith),
  b 6 (omega arith),
  b 7 (omega arith),
)
digit_of-byte_at x (suc (suc (suc (suc (suc (suc zero)))))) b h = omega (
  arith,
  b 0 (omega arith),
  b 1 (omega arith),
  b 2 (omega arith),
  b 3 (omega arith),
  b 4 (omega arith),
  b 5 (omega arith),
  b 6 (omega arith),
  b 7 (omega arith),
)
digit_of-byte_at x (suc (suc (suc (suc (suc (suc (suc zero))))))) b h = omega (
  arith,
  b 0 (omega arith),
  b 1 (omega arith),
  b 2 (omega arith),
  b 3 (omega arith),
  b 4 (omega arith),
  b 5 (omega arith),
  b 6 (omega arith),
  b 7 (omega arith),
)
digit_of-byte_at x (suc (suc (suc (suc (suc (suc (suc (suc j)))))))) b h = absurd (omega arith)

-- Bits put together to bytes, low end first, are taken apart to the same bits.
pub byte_to_bit-bit_to_byte :
    (x mid out : Buffer) (n : ℕ)
    → AreBits (8 * n) x
    → Agree (8 * n) (byte_to_bit 0 (bit_to_byte 0 x (8 * n) mid) n out) x
unfolding bit_to_byte
byte_to_bit-bit_to_byte x mid out n b i h =
    ap (byte_to_bit 0 bytes n out) (let e : i ≡ i / 8 * 8 + i % 8 = omega arith in e)
    ∙ byte_to_bit-digit 0 bytes n out (i / 8) (i % 8) (omega (arith, h)) (omega arith)
    ∙ ap (λ (t : ℕ). digit_of 0 t (i % 8))
        (filled_by (λ j. byte_at 0 x (8 * j)) ((8 * n + 7) / 8) (i / 8) mid (omega (arith, h)))
    ∙ digit_of-byte_at (λ k. x (8 * (i / 8) + k)) (i % 8)
        (λ k p. b (8 * (i / 8) + k) (omega (arith, p, h))) (omega arith)
    ∙ ap x (let e : 8 * (i / 8) + i % 8 ≡ i = omega arith in e)
  where
    bytes : Buffer
    bytes = bit_to_byte 0 x (8 * n) mid

-- Interleaving bits over a clear buffer leaves bits everywhere.
pub interleaver-AreBits :
    (q y : Buffer)
    → AreBits 3072 q
    → ((x : ℕ) → y x < 2)
    → (x : ℕ) → frequency_interleaver q y x < 2
unfolding frequency_interleaver
interleaver-AreBits q y h clear =
    for_range_inv (λ n c. (x : ℕ) → c x < 2)
      (λ n y.
        let k = carrier n in
        store (store y (2 * k + 0) (q (2 * n + 0))) (2 * k + 1) (q (2 * n + 1)))
      1536
      (λ n c p before.
        store_below 2 (store c (2 * carrier n + 0) (q (2 * n + 0))) (2 * carrier n + 1)
          (q (2 * n + 1))
          (store_below 2 c (2 * carrier n + 0) (q (2 * n + 0)) before
            (h (2 * n + 0) (omega (arith, p))))
          (h (2 * n + 1) (omega (arith, p))))
      1536 0 y (omega arith) clear

-- So does mapping.
pub mapper-AreBits :
    (p q : Buffer) → AreBits 3072 p → ((x : ℕ) → q x < 2) → (x : ℕ) → qpsk_symbol_mapper p q x < 2
unfolding qpsk_symbol_mapper
mapper-AreBits p q h clear =
    for_range_inv (λ n c. (x : ℕ) → c x < 2)
      (λ n q. store (store q (2 * n + 0) (p n)) (2 * n + 1) (p (n + 1536))) 1536
      (λ n c u before.
        store_below 2 (store c (2 * n + 0) (p n)) (2 * n + 1) (p (n + 1536))
          (store_below 2 c (2 * n + 0) (p n) before (h n (omega (arith, u))))
          (h (n + 1536) (omega (arith, u))))
      1536 0 q (omega arith) clear
