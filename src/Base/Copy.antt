-- ===== src/Base/Copy.antt =====
-- Copies of bytes.
use Prim.Native.Nat.{ℕ, ◌+◌, ◌-◌, ◌≤◌, ◌<◌}
use mathlib.Core.Path.{◌≡◌, refl, ap}
use mathlib.Core.Logic.{inl, inr}
use mathlib.Core.Bool.{true, false, ◌&&◌}
use native.Mathlib.Omega.{arith}
use opendab.Base.Tests.{ltb, leb, if◌then◌else◌, Bool-cases}
use opendab.Base.Memory.{Buffer}

-- `memcpy(b + at, from, len)`
unfoldable pub memcpy : Buffer → ℕ → Buffer → ℕ → Buffer
memcpy b at from len x = if leb at x && ltb x (at + len) then from (x - at) else b x

pub memcpy_in : (b from : Buffer) (at len x : ℕ) → x < len → memcpy b at from len (at + x) ≡ from x
unfolding memcpy
memcpy_in b from at len x h = rw (lower at x, upper at x len h) (ap from (cancel at x))
  where
    lower : (at x : ℕ) → leb at (at + x) ≡ true
    lower at x = ground arith

    upper : (at x len : ℕ) → x < len → ltb (at + x) (at + len) ≡ true
    upper at x len h = ground arith

    cancel : (at x : ℕ) → at + x - at ≡ x
    cancel at x = omega arith

pub memcpy_out :
    (b from : Buffer) (at len x : ℕ) → (at ≤ x → at + len ≤ x) → memcpy b at from len x ≡ b x
unfolding memcpy
memcpy_out b from at len x h = elim (Bool-cases (leb at x)) [
  | inl e ↦ rw (e, past (h (ground (arith, e)))) refl
  | inr e ↦ rw e refl
]
  where
    past : at + len ≤ x → ltb x (at + len) ≡ false
    past p = ground arith
