-- ===== src/Base/Masks.antt =====
-- `&` with a mask, field by field.
use Prim.Native.Nat.{ℕ, zero, suc, ◌+◌, ◌*◌, ◌/◌, ◌%◌, ◌^◌, ◌<◌, min, bit_and}
use mathlib.Core.Path.{◌≡◌, refl, ap, ap₂, ◌∙◌}
use native.Mathlib.Omega.{arith}
use native.Mathlib.Nat.{div-one, mod-one}
use opendab.Base.Bits.{bit_and_step, div_pow_suc, mod_pow_suc}

half-bit_and : (a b : ℕ) → bit_and a b / 2 ≡ bit_and (a / 2) (b / 2)
half-bit_and a b = omega (arith, bit_and_step a b)

pub bit_and-div : (k a b : ℕ) → bit_and a b / 2 ^ k ≡ bit_and (a / 2 ^ k) (b / 2 ^ k)
bit_and-div zero a b = rw (div-one (bit_and a b), div-one a, div-one b) refl
bit_and-div (suc k) a b = omega (
  arith,
  half-bit_and a b,
  bit_and-div k (a / 2) (b / 2),
  ap (λ (t : ℕ). t / 2 ^ k) (half-bit_and a b),
  div_pow_suc (bit_and a b) k,
  ap₂ bit_and (div_pow_suc a k) (div_pow_suc b k),
)

bit_and_fields :
    (a b r s : ℕ) → r < 2 → s < 2 → bit_and (a * 2 + r) (b * 2 + s) ≡ bit_and a b * 2 + min r s
bit_and_fields a b r s hr hs =
    bit_and_step (a * 2 + r) (b * 2 + s)
    ∙ ap₂ (λ (t u : ℕ). t * 2 + u) (ap₂ bit_and (half a r hr) (half b s hs))
        (ap₂ min (low a r hr) (low b s hs))
  where
    half : (x t : ℕ) → t < 2 → (x * 2 + t) / 2 ≡ x
    half x t h = omega arith

    low : (x t : ℕ) → t < 2 → (x * 2 + t) % 2 ≡ t
    low x t h = omega arith

pub bit_and-mod : (k a b : ℕ) → bit_and a b % 2 ^ k ≡ bit_and (a % 2 ^ k) (b % 2 ^ k)
bit_and-mod zero a b = rw (mod-one (bit_and a b), mod-one a, mod-one b) refl
bit_and-mod (suc k) a b =
    rw (mod_pow_suc (bit_and a b) k, half-bit_and a b, mod_pow_suc a k, mod_pow_suc b k)
      (omega (
        arith,
        bit_and_step a b,
        bit_and-mod k (a / 2) (b / 2),
        bit_and_fields (a / 2 % 2 ^ k) (b / 2 % 2 ^ k) (a % 2) (b % 2) (omega arith) (omega arith),
      ))
