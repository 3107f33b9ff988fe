-- ===== src/Base/Bits.antt =====
-- Laws of the bit operations on the native numbers, from the recursion on digits. Exclusive or is
-- taken apart at the lowest digit, and at any power of two.
use Prim.Native.Nat.{
  ℕ, zero, suc, ◌+◌, ◌*◌, ◌/◌, ◌%◌, ◌^◌, ◌≤◌, ◌<◌, ◌-◌, min, max, bit_and, bit_or, bit_xor, digits,
  differ, bit_and-bitwise, bit_or-bitwise, bit_xor-bitwise,
}
use mathlib.Core.Path.{◌≡◌, refl, sym, ap, ap₂, ◌∙◌}
use native.Mathlib.Nat.{
  le_refl, mul_comm, add-zero, pow-suc, pow-succ', one-le-pow, div-div-eq-div-mul, mod-eq_of_lt,
  div-one, mod-one, mod-lt, div-add-mod',
}
use native.Mathlib.Omega.{arith}

-- One round of the recursion for each digit: more fuel than that changes nothing.
enough_digits :
    (rest : ℕ → ℕ) (op : ℕ → ℕ → ℕ) (k l x y : ℕ)
    → x ≤ k
    → x ≤ l
    → digits rest op k x y ≡ digits rest op l x y
enough_digits rest op zero zero x y hk hl = refl
enough_digits rest op (suc k) zero zero y hk hl = refl
enough_digits rest op zero (suc l) zero y hk hl = refl
enough_digits rest op (suc k) (suc l) zero y hk hl = refl
enough_digits rest op (suc k) zero (suc x) y hk hl = absurd (omega arith)
enough_digits rest op zero (suc l) (suc x) y hk hl = absurd (omega arith)
enough_digits rest op (suc k) (suc l) (suc x) y hk hl =
    let halves = enough_digits rest op k l (suc x / 2) (y / 2) (omega arith) (omega arith) in
    rw halves

differ_digits : (a b : ℕ) → a < 2 → b < 2 → differ a b ≡ (a + b) % 2
differ_digits zero zero p q = refl
differ_digits zero (suc zero) p q = refl
differ_digits zero (suc (suc b)) p q = absurd (omega arith)
differ_digits (suc zero) zero p q = refl
differ_digits (suc zero) (suc zero) p q = refl
differ_digits (suc zero) (suc (suc b)) p q = absurd (omega arith)
differ_digits (suc (suc a)) b p q = absurd (omega arith)

pub zero-bit_xor : (b : ℕ) → bit_xor 0 b ≡ b
zero-bit_xor b = bit_xor-bitwise 0 b

pub bit_xor_step : (a b : ℕ) → bit_xor a b ≡ bit_xor (a / 2) (b / 2) * 2 + (a + b) % 2
bit_xor_step zero b = omega (arith, zero-bit_xor b, zero-bit_xor (b / 2))
bit_xor_step (suc a) b = omega (
  arith,
  bit_xor-bitwise (suc a) b,
  bit_xor-bitwise (suc a / 2) (b / 2),
  enough_digits (λ y. y) differ a (suc a / 2) (suc a / 2) (b / 2) (omega arith) (omega arith),
  differ_digits (suc a % 2) (b % 2) (omega arith) (omega arith),
)

-- The digits of a number from the (k + 1)-th on, and below it.
pub div_pow_suc : (a k : ℕ) → a / 2 ^ suc k ≡ a / 2 / 2 ^ k
div_pow_suc a k = rw (pow-succ' 2 k) (sym (div-div-eq-div-mul a 2 (2 ^ k)))

pub div-pow_add : (x m q : ℕ) → x / 2 ^ m / 2 ^ q ≡ x / 2 ^ (m + q)
div-pow_add x zero q =
    ap (λ (t : ℕ). t / 2 ^ q) (div-one x)
    ∙ ap (λ (k : ℕ). x / 2 ^ k) (let e : q ≡ zero + q = omega arith in e)
div-pow_add x (suc m) q =
    ap (λ (t : ℕ). t / 2 ^ q) (div_pow_suc x m)
    ∙ div-pow_add (x / 2) m q
    ∙ sym (div_pow_suc x (m + q))
    ∙ ap (λ (k : ℕ). x / 2 ^ k) (let e : suc (m + q) ≡ suc m + q = omega arith in e)

pub mod_pow_suc : (a k : ℕ) → a % 2 ^ suc k ≡ (a / 2 % 2 ^ k) * 2 + a % 2
mod_pow_suc a k = omega (
  arith,
  div-add-mod' a (2 ^ suc k),
  div-add-mod' (a / 2) (2 ^ k),
  ap (λ (t : ℕ). t * 2 ^ suc k) (div_pow_suc a k),
  ap (λ (t : ℕ). (a / 2 / 2 ^ k) * t) (pow-suc 2 k),
)

bit_xor_comm_fuel : (n a b : ℕ) → a + b ≤ n → bit_xor a b ≡ bit_xor b a
bit_xor_comm_fuel n zero zero h = refl
bit_xor_comm_fuel zero (suc a) b h = absurd (omega arith)
bit_xor_comm_fuel zero zero (suc b) h = absurd (omega arith)
bit_xor_comm_fuel (suc n) a b h =
    omega
      (arith, bit_xor_step a b, bit_xor_step b a, bit_xor_comm_fuel n (a / 2) (b / 2) (omega arith))

pub bit_xor_comm : (a b : ℕ) → bit_xor a b ≡ bit_xor b a
bit_xor_comm a b = bit_xor_comm_fuel (a + b) a b (le_refl _)

pub half-bit_xor : (a b : ℕ) → bit_xor a b / 2 ≡ bit_xor (a / 2) (b / 2)
half-bit_xor a b = omega (arith, bit_xor_step a b)

pub parity-bit_xor : (a b : ℕ) → bit_xor a b % 2 ≡ (a + b) % 2
parity-bit_xor a b = omega (arith, bit_xor_step a b)

bit_xor_assoc_fuel :
    (n a b c : ℕ) → a + b + c ≤ n → bit_xor (bit_xor a b) c ≡ bit_xor a (bit_xor b c)
bit_xor_assoc_fuel n zero b c h = rw (zero-bit_xor b, zero-bit_xor (bit_xor b c))
bit_xor_assoc_fuel zero (suc a) b c h = absurd (omega arith)
bit_xor_assoc_fuel (suc n) (suc a) b c h = omega (
  arith,
  bit_xor_step (bit_xor (suc a) b) c,
  bit_xor_step (suc a) (bit_xor b c),
  ap (λ (t : ℕ). bit_xor t (c / 2)) (half-bit_xor (suc a) b),
  ap (λ (t : ℕ). bit_xor (suc a / 2) t) (half-bit_xor b c),
  parity-bit_xor (suc a) b,
  parity-bit_xor b c,
  bit_xor_assoc_fuel n (suc a / 2) (b / 2) (c / 2) (omega arith),
)

pub bit_xor_assoc : (a b c : ℕ) → bit_xor (bit_xor a b) c ≡ bit_xor a (bit_xor b c)
bit_xor_assoc a b c = bit_xor_assoc_fuel (a + b + c) a b c (le_refl _)

bit_xor_self_fuel : (n a : ℕ) → a ≤ n → bit_xor a a ≡ 0
bit_xor_self_fuel n zero h = refl
bit_xor_self_fuel zero (suc a) h = absurd (omega arith)
bit_xor_self_fuel (suc n) (suc a) h =
    omega (arith, bit_xor_step (suc a) (suc a), bit_xor_self_fuel n (suc a / 2) (omega arith))

pub bit_xor_self : (a : ℕ) → bit_xor a a ≡ 0
bit_xor_self a = bit_xor_self_fuel a a (le_refl _)

pub bit_xor-zero : (a : ℕ) → bit_xor a 0 ≡ a
bit_xor-zero a = omega (arith, bit_xor_comm a 0, zero-bit_xor a)

-- Taking the same mask off again.
pub bit_xor_twice : (a b : ℕ) → bit_xor (bit_xor a b) b ≡ a
bit_xor_twice a b = rw (bit_xor_assoc a b b, bit_xor_self b) (bit_xor-zero a)

pub bit_xor_left_comm : (a b c : ℕ) → bit_xor a (bit_xor b c) ≡ bit_xor b (bit_xor a c)
bit_xor_left_comm a b c = rw (← bit_xor_assoc, bit_xor_comm a b) (bit_xor_assoc b a c)

pub bit_xor_cross :
    (a b c d : ℕ) → bit_xor (bit_xor a b) (bit_xor c d) ≡ bit_xor (bit_xor a c) (bit_xor b d)
bit_xor_cross a b c d =
    rw (bit_xor_assoc a b (bit_xor c d), bit_xor_left_comm b c d)
      (rw (bit_xor_assoc a c (bit_xor b d)))

-- The digits above and below the k-th.
pub bit_xor-div : (k a b : ℕ) → bit_xor a b / 2 ^ k ≡ bit_xor (a / 2 ^ k) (b / 2 ^ k)
bit_xor-div zero a b = rw (div-one (bit_xor a b), div-one a, div-one b)
bit_xor-div (suc k) a b = omega (
  arith,
  half-bit_xor a b,
  bit_xor-div k (a / 2) (b / 2),
  ap (λ (t : ℕ). t / 2 ^ k) (half-bit_xor a b),
  div_pow_suc (bit_xor a b) k,
  ap₂ bit_xor (div_pow_suc a k) (div_pow_suc b k),
)

double_shift : (q k : ℕ) → q * 2 ^ suc k ≡ 2 * (q * 2 ^ k)
double_shift q k = omega (arith, ap (λ (t : ℕ). q * t) (pow-suc 2 k))

bit_xor_fields :
    (a b r s : ℕ) → r < 2 → s < 2 → bit_xor (a * 2 + r) (b * 2 + s) ≡ bit_xor a b * 2 + (r + s) % 2
bit_xor_fields a b r s hr hs =
    omega (arith, bit_xor_step (a * 2 + r) (b * 2 + s), ap₂ bit_xor (half a r hr) (half b s hs))
  where
    half : (x t : ℕ) → t < 2 → (x * 2 + t) / 2 ≡ x
    half x t h = omega arith

-- Of single digits.
pub bit_xor_bits : (r s : ℕ) → r < 2 → s < 2 → bit_xor r s ≡ (r + s) % 2
bit_xor_bits zero s hr hs = omega (arith, zero-bit_xor s)
bit_xor_bits (suc zero) zero hr hs = refl
bit_xor_bits (suc zero) (suc zero) hr hs = refl
bit_xor_bits (suc zero) (suc (suc s)) hr hs = absurd (omega arith)
bit_xor_bits (suc (suc r)) s hr hs = absurd (omega arith)

-- Both operands moved up by the same number of digits.
pub bit_xor-mul : (k a b : ℕ) → bit_xor (a * 2 ^ k) (b * 2 ^ k) ≡ bit_xor a b * 2 ^ k
bit_xor-mul zero a b = ground (arith)
bit_xor-mul (suc k) a b = omega (
  arith,
  double_shift a k,
  double_shift b k,
  double_shift (bit_xor a b) k,
  bit_xor-mul k a b,
  ap₂ bit_xor (double_shift a k ∙ mul_comm 2 (a * 2 ^ k))
      (double_shift b k ∙ mul_comm 2 (b * 2 ^ k)),
  bit_xor_fields (a * 2 ^ k) (b * 2 ^ k) 0 0 (omega arith) (omega arith),
  ap₂ bit_xor (add-zero (a * 2 ^ k * 2)) (add-zero (b * 2 ^ k * 2)),
)

pub bit_xor-mod : (k a b : ℕ) → bit_xor a b % 2 ^ k ≡ bit_xor (a % 2 ^ k) (b % 2 ^ k)
bit_xor-mod zero a b = rw (mod-one (bit_xor a b), mod-one a, mod-one b)
bit_xor-mod (suc k) a b =
    rw
      (
        mod_pow_suc (bit_xor a b) k,
        half-bit_xor a b,
        parity-bit_xor a b,
        mod_pow_suc a k,
        mod_pow_suc b k,
      )
      (omega (
        arith,
        bit_xor-mod k (a / 2) (b / 2),
        bit_xor_fields (a / 2 % 2 ^ k) (b / 2 % 2 ^ k) (a % 2) (b % 2) (omega arith) (omega arith),
      ))

pub bit_xor-lt : (k a b : ℕ) → a < 2 ^ k → b < 2 ^ k → bit_xor a b < 2 ^ k
bit_xor-lt k a b ha hb = omega (
  arith,
  bit_xor-mod k a b,
  ap₂ bit_xor (mod-eq_of_lt ha) (mod-eq_of_lt hb),
  mod-lt (bit_xor a b) (one-le-pow k 2 (omega arith)),
)

-- Disjoint fields: exclusive or is then a sum.
pub bit_xor_disjoint : (k q r : ℕ) → r < 2 ^ k → bit_xor (q * 2 ^ k) r ≡ q * 2 ^ k + r
bit_xor_disjoint zero q r h = ground (arith, bit_xor-zero q)
bit_xor_disjoint (suc k) q r h = ground (
  arith,
  bit_xor_step (q * 2 ^ suc k) r,
  double_shift q k,
  bit_xor_disjoint k q (r / 2) (omega arith),
)

-- `&` digit by digit, and with a mask of low ones.
pub bit_and_step : (a b : ℕ) → bit_and a b ≡ bit_and (a / 2) (b / 2) * 2 + min (a % 2) (b % 2)
bit_and_step zero b = omega (arith, bit_and-bitwise 0 b, bit_and-bitwise 0 (b / 2))
bit_and_step (suc a) b = omega (
  arith,
  bit_and-bitwise (suc a) b,
  bit_and-bitwise (suc a / 2) (b / 2),
  enough_digits (λ y. 0) min a (suc a / 2) (suc a / 2) (b / 2) (omega arith) (omega arith),
)

bit_and-zero_fuel : (k x : ℕ) → x ≤ k → bit_and x 0 ≡ 0
bit_and-zero_fuel k zero below = refl
bit_and-zero_fuel zero (suc x) below = absurd (omega arith)
bit_and-zero_fuel (suc k) (suc x) below =
    let half : bit_and (suc x / 2) 0 ≡ 0 = bit_and-zero_fuel k (suc x / 2) (omega arith) in
    bit_and_step (suc x) 0 ∙ omega (arith, half)

pub bit_and-zero : (x : ℕ) → bit_and x 0 ≡ 0
bit_and-zero x = bit_and-zero_fuel x x (le_refl _)

ones_half : (k : ℕ) → (2 ^ suc k - 1) / 2 ≡ 2 ^ k - 1
ones_half k = omega (arith, one-le-pow k 2 (omega arith), pow-suc 2 k)

pub bit_and_mask : (k x : ℕ) → bit_and x (2 ^ k - 1) ≡ x % 2 ^ k
bit_and_mask zero x = rw mod-one (bit_and-zero x)
bit_and_mask (suc k) x =
    let upper : bit_and (x / 2) ((2 ^ suc k - 1) / 2) ≡ x / 2 % 2 ^ k =
      ap (bit_and (x / 2)) (ones_half k) ∙ bit_and_mask k (x / 2) in
    bit_and_step x (2 ^ suc k - 1)
    ∙ omega (arith, upper, mod_pow_suc x k, pow-suc 2 k, one-le-pow k 2 (omega arith))

pub bit_and-byte : (a : ℕ) → bit_and a 0xff ≡ a % 256
bit_and-byte a = bit_and_mask 8 a

-- `|` digit by digit; of disjoint fields it is a sum.
pub bit_or_step : (a b : ℕ) → bit_or a b ≡ bit_or (a / 2) (b / 2) * 2 + max (a % 2) (b % 2)
bit_or_step zero b = omega (arith, bit_or-bitwise 0 b, bit_or-bitwise 0 (b / 2))
bit_or_step (suc a) b = omega (
  arith,
  bit_or-bitwise (suc a) b,
  bit_or-bitwise (suc a / 2) (b / 2),
  enough_digits (λ y. y) max a (suc a / 2) (suc a / 2) (b / 2) (omega arith) (omega arith),
)

bit_or-zero_fuel : (n a : ℕ) → a ≤ n → bit_or a 0 ≡ a
bit_or-zero_fuel n zero h = refl
bit_or-zero_fuel zero (suc a) h = absurd (omega arith)
bit_or-zero_fuel (suc n) (suc a) h =
    omega (arith, bit_or_step (suc a) 0, bit_or-zero_fuel n (suc a / 2) (omega arith))

pub bit_or-zero : (a : ℕ) → bit_or a 0 ≡ a
bit_or-zero a = bit_or-zero_fuel a a (le_refl _)

pub zero-bit_or : (b : ℕ) → bit_or 0 b ≡ b
zero-bit_or b = bit_or-bitwise 0 b

pub bit_or_disjoint : (k q r : ℕ) → r < 2 ^ k → bit_or (q * 2 ^ k) r ≡ q * 2 ^ k + r
bit_or_disjoint zero q r h = ground (arith, bit_or-zero q)
bit_or_disjoint (suc k) q r h = ground (
  arith,
  bit_or_step (q * 2 ^ suc k) r,
  double_shift q k,
  bit_or_disjoint k q (r / 2) (omega arith),
)
