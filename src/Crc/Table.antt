-- ===== src/Crc/Table.antt =====
-- The three tables of the checks, entry by entry, and the step of the loops that look them up.
use native.Mathlib.Decide.{ℕ_discrete}
use opendab.Base.{
  ℕ, ◌*◌, ◌/◌, ◌%◌, ◌^◌, ◌<◌, ◌≡◌, ◌≢◌, refl, sym, ap, ap₂, ◌∙◌, arith, bit_xor, bit_and, Bool,
  true, List, ◌==◌, ltb, ◌&&◌, ◌||◌, get_or,
}
use opendab.Base.Bits.{
  bit_xor_disjoint, zero-bit_xor, bit_xor-zero, bit_xor_assoc, bit_xor-lt, bit_and-byte,
  bit_xor-mod, bit_xor_self, bit_xor_twice, bit_xor_comm,
}
use opendab.Base.Check.{all_below, all_below_sound}
use opendab.Crc.{crctab, crc16tab, ftab, crc_step}
use opendab.Crc.Serial.{feed_bits, feed_bits-bit_xor}

-- `tab` holds the remainders of the single bytes by `g`, and only byte 0 leaves a low byte of 0.
pub record IsTable (g : ℕ) (tab : List ℕ) : Type 0 where
  pub high : (x : ℕ) → x < 256 → feed_bits g 8 (x * 2 ^ 8) 0 ≡ get_or tab x 0
  pub low : (x : ℕ) → x < 256 → feed_bits g 8 x 0 ≡ x * 2 ^ 8
  pub byte : (x : ℕ) → x < 256 → feed_bits g 8 0 x ≡ get_or tab x 0
  pub word : (x : ℕ) → x < 256 → get_or tab x 0 < 2 ^ 16
  pub kernel : (x : ℕ) → x < 256 → x ≢ 0 → get_or tab x 0 % 256 ≢ 0

row : ℕ → List ℕ → ℕ → Bool
row g tab x =
    (feed_bits g 8 (x * 2 ^ 8) 0 == get_or tab x 0)
    && (feed_bits g 8 x 0 == x * 2 ^ 8)
    && (feed_bits g 8 0 x == get_or tab x 0)
    && (ltb (get_or tab x 0) (2 ^ 16))
    && (ltb x 1 || ltb 0 (get_or tab x 0 % 256))

rows-IsTable : (g : ℕ) (tab : List ℕ) → all_below 256 (row g tab) ≡ true → IsTable g tab
unfolding row
rows-IsTable g tab h = record {
  high = λ x p. ground (arith, all_below_sound 256 (row g tab) x h p);
  low = λ x p. ground (arith, all_below_sound 256 (row g tab) x h p);
  byte = λ x p. ground (arith, all_below_sound 256 (row g tab) x h p);
  word = λ x p. ground (arith, all_below_sound 256 (row g tab) x h p);
  kernel = λ x p n. ground (arith, all_below_sound 256 (row g tab) x h p);
}

pub crctab-IsTable : IsTable 0x1021 crctab
unfolding all_below row feed_bits
crctab-IsTable = rows-IsTable 0x1021 crctab refl

pub crc16tab-IsTable : IsTable 0x8005 crc16tab
unfolding all_below row feed_bits
crc16tab-IsTable = rows-IsTable 0x8005 crc16tab refl

pub ftab-IsTable : IsTable 0x782f ftab
unfolding all_below row feed_bits
ftab-IsTable = rows-IsTable 0x782f ftab refl

module _ (g : ℕ) (tab : List ℕ) (is_table : IsTable g tab) where
  open is_table use {high, low, byte, word, kernel}

  -- A step with the shift and the cast worked out.
  pub crc_step-eq-bit_xor :
      (c b : ℕ)
      → c < 2 ^ 16
      → b < 256
      → crc_step tab c b ≡ bit_xor (c % 256 * 2 ^ 8) (get_or tab (bit_xor (c / 256) b) 0)
  unfolding crc_step
  crc_step-eq-bit_xor c b hc hb =
      bit_xor-mod 16 (c * 2 ^ 8) (get_or tab (bit_and (bit_xor (c / 256) b) 0xff) 0)
      ∙ ap₂ bit_xor (omega arith) (ap (λ (t : ℕ). get_or tab t 0 % 2 ^ 16) index ∙ fits)
    where
      small : bit_xor (c / 256) b < 256
      small = bit_xor-lt 8 (c / 256) b (omega arith) hb

      index : bit_and (bit_xor (c / 256) b) 0xff ≡ bit_xor (c / 256) b
      index = omega (arith, bit_and-byte (bit_xor (c / 256) b), small)

      fits : get_or tab (bit_xor (c / 256) b) 0 % 2 ^ 16 ≡ get_or tab (bit_xor (c / 256) b) 0
      fits = omega (arith, word (bit_xor (c / 256) b) small)

  pub crc_step-lt : (c b : ℕ) → c < 2 ^ 16 → b < 256 → crc_step tab c b < 2 ^ 16
  unfolding crc_step
  crc_step-lt c b hc hb = omega arith

  pub table-bit_xor :
      (x y : ℕ)
      → x < 256
      → y < 256
      → get_or tab (bit_xor x y) 0 ≡ bit_xor (get_or tab x 0) (get_or tab y 0)
  table-bit_xor x y hx hy =
      sym (byte (bit_xor x y) (bit_xor-lt 8 x y hx hy))
      ∙ feed_bits-bit_xor g 8 0 0 x y
      ∙ ap₂ bit_xor (byte x hx) (byte y hy)

  -- One look-up in the table is eight steps of the division.
  pub crc_step-eq-feed_bits :
      (c b : ℕ) → c < 2 ^ 16 → b < 256 → crc_step tab c b ≡ feed_bits g 8 c b
  crc_step-eq-feed_bits c b hc hb =
      crc_step-eq-bit_xor c b hc hb
      ∙ ap (bit_xor (c % 256 * 2 ^ 8)) (table-bit_xor (c / 256) b (omega arith) hb)
      ∙ sym serial
    where
      h : ℕ
      h = c / 256

      l : ℕ
      l = c % 256

      parts : c ≡ bit_xor l (h * 2 ^ 8)
      parts = omega (arith, bit_xor_disjoint 8 h l (omega arith), bit_xor_comm l (h * 2 ^ 8))

      remainder : feed_bits g 8 (bit_xor l (h * 2 ^ 8)) 0 ≡ bit_xor (l * 2 ^ 8) (get_or tab h 0)
      remainder =
          feed_bits-bit_xor g 8 l (h * 2 ^ 8) 0 0
          ∙ ap₂ bit_xor (low l (omega arith)) (high h (omega arith))

      serial : feed_bits g 8 c b ≡ bit_xor (l * 2 ^ 8) (bit_xor (get_or tab h 0) (get_or tab b 0))
      serial =
          ap₂ (feed_bits g 8) (parts ∙ sym (bit_xor-zero _)) (sym (zero-bit_xor b))
          ∙ feed_bits-bit_xor g 8 (bit_xor l (h * 2 ^ 8)) 0 0 b
          ∙ ap₂ bit_xor remainder (byte b hb)
          ∙ bit_xor_assoc (l * 2 ^ 8) (get_or tab h 0) (get_or tab b 0)

  same_index : (x y : ℕ) → x < 256 → y < 256 → get_or tab x 0 % 256 ≡ get_or tab y 0 % 256 → x ≡ y
  same_index x y hx hy e =
      sym (bit_xor_twice x y) ∙ ap (λ t. bit_xor t y) none_left ∙ zero-bit_xor y
    where
      cancels : get_or tab (bit_xor x y) 0 % 256 ≡ 0
      cancels =
          ap (λ (t : ℕ). t % 2 ^ 8) (table-bit_xor x y hx hy)
          ∙ bit_xor-mod 8 (get_or tab x 0) (get_or tab y 0)
          ∙ ap (λ t. bit_xor t (get_or tab y 0 % 256)) e
          ∙ bit_xor_self (get_or tab y 0 % 256)

      none_left : bit_xor x y ≡ 0
      none_left = elim (ℕ_discrete (bit_xor x y) 0) [
        | yes p ↦ p
        | no n ↦ absurd (kernel (bit_xor x y) (bit_xor-lt 8 x y hx hy) n cancels)
      ]

  low-crc_step :
      (c b : ℕ)
      → c < 2 ^ 16
      → b < 256
      → crc_step tab c b % 256 ≡ get_or tab (bit_xor (c / 256) b) 0 % 256
  low-crc_step c b hc hb =
      ap (λ (t : ℕ). t % 2 ^ 8) (crc_step-eq-bit_xor c b hc hb)
      ∙ bit_xor-mod 8 (c % 256 * 2 ^ 8) (get_or tab (bit_xor (c / 256) b) 0)
      ∙ ap (λ t. bit_xor t (get_or tab (bit_xor (c / 256) b) 0 % 256)) (omega arith)
      ∙ zero-bit_xor (get_or tab (bit_xor (c / 256) b) 0 % 256)

  -- Neither the remainder nor the byte can differ where the new remainder does not.
  pub crc_step_injective :
      (c d b e : ℕ)
      → c < 2 ^ 16
      → d < 2 ^ 16
      → b < 256
      → e < 256
      → crc_step tab c b ≡ crc_step tab d e
      → (c % 256 ≡ d % 256) × (bit_xor (c / 256) b ≡ bit_xor (d / 256) e)
  crc_step_injective c d b e hc hd hb he same = (omega (arith, shifted), index)
    where
      index : bit_xor (c / 256) b ≡ bit_xor (d / 256) e
      index =
          same_index (bit_xor (c / 256) b) (bit_xor (d / 256) e)
            (bit_xor-lt 8 (c / 256) b (omega arith) hb) (bit_xor-lt 8 (d / 256) e (omega arith) he)
            (sym (low-crc_step c b hc hb) ∙ ap (λ (t : ℕ). t % 256) same ∙ low-crc_step d e hd he)

      shifted : c % 256 * 2 ^ 8 ≡ d % 256 * 2 ^ 8
      shifted =
          sym (bit_xor_twice (c % 256 * 2 ^ 8) (get_or tab (bit_xor (c / 256) b) 0))
          ∙ ap₂ bit_xor (sym (crc_step-eq-bit_xor c b hc hb) ∙ same ∙ crc_step-eq-bit_xor d e hd he)
              (ap (λ t. get_or tab t 0) index)
          ∙ bit_xor_twice (d % 256 * 2 ^ 8) (get_or tab (bit_xor (d / 256) e) 0)

  -- The new low byte tells the byte that was read.
  pub crc_step-low_injective :
      (c b e : ℕ)
      → c < 2 ^ 16
      → b < 256
      → e < 256
      → crc_step tab c b % 256 ≡ crc_step tab c e % 256
      → b ≡ e
  crc_step-low_injective c b e hc hb he same =
      sym (bit_xor_twice b (c / 256))
      ∙ ap (λ t. bit_xor t (c / 256)) (bit_xor_comm b (c / 256) ∙ index ∙ bit_xor_comm (c / 256) e)
      ∙ bit_xor_twice e (c / 256)
    where
      index : bit_xor (c / 256) b ≡ bit_xor (c / 256) e
      index =
          same_index (bit_xor (c / 256) b) (bit_xor (c / 256) e)
            (bit_xor-lt 8 (c / 256) b (omega arith) hb) (bit_xor-lt 8 (c / 256) e (omega arith) he)
            (sym (low-crc_step c b hc hb) ∙ same ∙ low-crc_step c e hc he)

  -- Reading its own high byte shifts a remainder up.
  pub crc_step_self : (c : ℕ) → c < 2 ^ 16 → crc_step tab c (c / 256) ≡ c % 256 * 256
  crc_step_self c hc =
      crc_step-eq-bit_xor c (c / 256) hc (omega arith)
      ∙ ap (bit_xor (c % 256 * 2 ^ 8)) (ap (λ t. get_or tab t 0) (bit_xor_self (c / 256)) ∙ first)
      ∙ bit_xor-zero (c % 256 * 2 ^ 8)
    where
      first : get_or tab 0 0 ≡ 0
      first = table-bit_xor 0 0 (omega arith) (omega arith) ∙ bit_xor_self (get_or tab 0 0)
