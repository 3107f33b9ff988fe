-- ===== src/Audio/Mp2/Header.antt =====
-- The constant bits of a header and its fields.
use opendab.Base.{
  ℕ, ◌+◌, ◌*◌, ◌/◌, ◌%◌, ◌^◌, ◌<◌, ◌≡◌, ◌↔◌, refl, sym, ap, ◌∙◌, arith, bit_and, bit_xor,
}
use opendab.Base.Bits.{bit_and_mask, bit_and-zero, bit_xor_twice, zero-bit_xor, bit_xor_self}
use opendab.Base.Masks.{bit_and-div, bit_and-mod}
use opendab.Audio.Mp2.{header_error}

abbrev mask : ℕ
mask = 0xfff70e03

-- A field of `width` bits at `place`, of which the mask has the bits of `part`.
masked_field :
    (i place width part : ℕ)
    → mask / 2 ^ place % 2 ^ width ≡ part
    → bit_and i mask / 2 ^ place % 2 ^ width ≡ bit_and (i / 2 ^ place % 2 ^ width) part
masked_field i place width part e =
    ap (λ (t : ℕ). t % 2 ^ width) (bit_and-div place i mask)
    ∙ bit_and-mod width (i / 2 ^ place) (mask / 2 ^ place)
    ∙ ap (bit_and (i / 2 ^ place % 2 ^ width)) e

masked :
    (i : ℕ)
    → i < 2 ^ 32
    → bit_and i mask
      ≡ (i / 2 ^ 20) * 2 ^ 20
        + (i / 2 ^ 16 % 2 ^ 3) * 2 ^ 16
        + (i / 2 ^ 9 % 2 ^ 3) * 2 ^ 9
        + i % 2 ^ 2
masked i h = omega (
  arith,
  h,
  bit_and-div 20 i mask,
  bit_and_mask 12 (i / 2 ^ 20),
  masked_field i 16 4 7 refl,
  bit_and_mask 3 (i / 2 ^ 16 % 2 ^ 4),
  masked_field i 12 4 0 refl,
  bit_and-zero (i / 2 ^ 12 % 2 ^ 4),
  masked_field i 9 3 7 refl,
  bit_and_mask 3 (i / 2 ^ 9 % 2 ^ 3),
  masked_field i 2 7 0 refl,
  bit_and-zero (i / 2 ^ 2 % 2 ^ 7),
  masked_field i 0 2 3 refl,
  bit_and_mask 2 (i / 2 ^ 0 % 2 ^ 2),
)

-- Equal values have no difference, and no others.
xor_iff : (a b : ℕ) → (bit_xor a b ≡ 0) ↔ (a ≡ b)
xor_iff a b = (
  λ e. sym (bit_xor_twice a b) ∙ ap (λ t. bit_xor t b) e ∙ zero-bit_xor b,
  λ e. ap (λ t. bit_xor t b) e ∙ bit_xor_self b,
)

-- The test of the constant bits of a header of four bytes passes exactly if the synchronisation word
-- is all ones, the layer is II with the CRC in use, the sampling frequency is the first one without
-- padding, and there is no emphasis.
pub header_error_iff :
    (i : ℕ)
    → i < 2 ^ 32
    → (header_error i ≡ 0) ↔ (
        (i / 2 ^ 20 ≡ 0xfff) × (i / 2 ^ 16 % 2 ^ 3 ≡ 4) × (i / 2 ^ 9 % 2 ^ 3 ≡ 2) × (i % 2 ^ 2 ≡ 0))
unfolding header_error
header_error_iff i h = (
  λ e.
      let m = (xor_iff (bit_and i mask) 0xfff40400).0 e in
      (
        omega (arith, m, masked i h),
        omega (arith, m, masked i h),
        omega (arith, m, masked i h),
        omega (arith, m, masked i h),
      ),
  λ f. (xor_iff (bit_and i mask) 0xfff40400).1 (omega (arith, masked i h, f.0, f.1, f.2, f.3)),
)
