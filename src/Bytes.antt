-- ===== src/Bytes.antt =====
-- src/wfbyteops.c: packing and swapping bytes. A value is its bit pattern, below 2 ^ 16 for a short
-- and 2 ^ 32 for an int; integers stand in memory with the low byte first.
mod Examples
use native.Mathlib.Nat.{mod-eq_of_lt}
use opendab.Base.{ℕ, ◌+◌, ◌*◌, ◌/◌, ◌%◌, ◌^◌, ◌<◌, ◌≡◌, ap, ◌∙◌, arith, bit_or, Buffer}
use opendab.Base.Bits.{bit_or_disjoint}

unfoldable pub ipack : Buffer → ℕ
ipack f = bit_or (bit_or (bit_or (f 0 * 2 ^ 24 % 2 ^ 32) (f 1 * 2 ^ 16)) (f 2 * 2 ^ 8)) (f 3)

unfoldable pub spack : Buffer → ℕ
spack f = bit_or (f 0 * 2 ^ 8 % 2 ^ 16) (f 1)

-- `swab` on the four and on the two bytes of a value: adjacent bytes change places.
pub iswab : ℕ → ℕ
iswab i =
    (i / 2 ^ 8 % 2 ^ 8)
    + (i % 2 ^ 8) * 2 ^ 8
    + (i / 2 ^ 24 % 2 ^ 8) * 2 ^ 16
    + (i / 2 ^ 16 % 2 ^ 8) * 2 ^ 24

pub sswab : ℕ → ℕ
sswab s = (s / 2 ^ 8 % 2 ^ 8) + (s % 2 ^ 8) * 2 ^ 8

pub bigend : ℕ → ℕ
bigend i =
    (i / 2 ^ 24 % 2 ^ 8)
    + (i / 2 ^ 16 % 2 ^ 8) * 2 ^ 8
    + (i / 2 ^ 8 % 2 ^ 8) * 2 ^ 16
    + (i % 2 ^ 8) * 2 ^ 24

-- What the processor reads at a pointer to a short or an int.
abbrev pub load_short : Buffer → ℕ
load_short f = f 0 + f 1 * 2 ^ 8

abbrev pub load_int : Buffer → ℕ
load_int f = f 0 + f 1 * 2 ^ 8 + f 2 * 2 ^ 16 + f 3 * 2 ^ 24

-- A field of a structure of bit fields, which are laid out from the lowest bit.
abbrev pub field : ℕ → ℕ → ℕ → ℕ
field f low width = f / 2 ^ low % 2 ^ width

-- `spack` and a load followed by `sswab` read two bytes in the same order, high byte first; so do
-- `ipack` and a load followed by `bigend` four, whereas a load followed by `iswab` does not.
pub pack_lem :
    (f : Buffer)
    → f 0 < 256
    → f 1 < 256
    → f 2 < 256
    → f 3 < 256
    → (spack f ≡ f 0 * 2 ^ 8 + f 1)
      × (sswab (load_short f) ≡ spack f)
      × (ipack f ≡ f 0 * 2 ^ 24 + f 1 * 2 ^ 16 + f 2 * 2 ^ 8 + f 3)
      × (bigend (load_int f) ≡ ipack f)
      × (iswab (load_int f) ≡ f 1 + f 0 * 2 ^ 8 + f 3 * 2 ^ 16 + f 2 * 2 ^ 24)
unfolding spack sswab ipack bigend iswab
pack_lem f h0 h1 h2 h3 = (short, omega (arith, short), int, omega (arith, int), omega arith)
  where
    short : bit_or (f 0 * 2 ^ 8 % 2 ^ 16) (f 1) ≡ f 0 * 2 ^ 8 + f 1
    short = ap (λ t. bit_or t (f 1)) (mod-eq_of_lt (omega arith)) ∙ bit_or_disjoint 8 (f 0) (f 1) h1

    top : bit_or (f 0 * 2 ^ 24 % 2 ^ 32) (f 1 * 2 ^ 16) ≡ (f 0 * 2 ^ 8 + f 1) * 2 ^ 16
    top =
        ap (λ t. bit_or t (f 1 * 2 ^ 16)) (mod-eq_of_lt (omega arith))
        ∙ bit_or_disjoint 24 (f 0) (f 1 * 2 ^ 16) (omega arith)
        ∙ omega arith

    three :
        bit_or ((f 0 * 2 ^ 8 + f 1) * 2 ^ 16) (f 2 * 2 ^ 8)
        ≡ ((f 0 * 2 ^ 8 + f 1) * 2 ^ 8 + f 2) * 2 ^ 8
    three = bit_or_disjoint 16 (f 0 * 2 ^ 8 + f 1) (f 2 * 2 ^ 8) (omega arith) ∙ omega arith

    int :
        bit_or (bit_or (bit_or (f 0 * 2 ^ 24 % 2 ^ 32) (f 1 * 2 ^ 16)) (f 2 * 2 ^ 8)) (f 3)
        ≡ f 0 * 2 ^ 24 + f 1 * 2 ^ 16 + f 2 * 2 ^ 8 + f 3
    int =
        ap (λ t. bit_or (bit_or t (f 2 * 2 ^ 8)) (f 3)) top
        ∙ ap (λ t. bit_or t (f 3)) three
        ∙ bit_or_disjoint 8 ((f 0 * 2 ^ 8 + f 1) * 2 ^ 8 + f 2) (f 3) h3
        ∙ omega arith
