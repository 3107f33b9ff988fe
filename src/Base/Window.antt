-- ===== src/Base/Window.antt =====
-- Stretches of memory as lists.
use Prim.Native.Nat.{ℕ, zero, suc, ◌+◌, ◌<◌}
use mathlib.Core.Path.{◌≡◌, refl, ap, ap₂, ◌∙◌}
use mathlib.Core.List.{◌∷◌, ◌++◌}
use native.Mathlib.Omega.{arith}
use opendab.Base.Memory.{Buffer, window}

-- Stretches with the same values are the same list.
pub window_ext :
    (a b : Buffer) (i k n : ℕ)
    → ((x : ℕ) → x < n → a (i + x) ≡ b (k + x))
    → window a i n ≡ window b k n
window_ext a b i k zero h = refl
window_ext a b i k (suc n) h =
    ap₂ (λ x xs. x ∷ xs) (at i k (h 0 (omega arith)))
      (window_ext a b (i + 1) (k + 1) n (λ x p. next x (h (x + 1) (omega arith))))
  where
    at : (i k : ℕ) → a (i + 0) ≡ b (k + 0) → a i ≡ b k
    at i k e = ground (arith, e)

    next : (x : ℕ) → a (i + (x + 1)) ≡ b (k + (x + 1)) → a (i + 1 + x) ≡ b (k + 1 + x)
    next x e = ground (arith, e)

-- A stretch and the one behind it.
pub window-append :
    (b : Buffer) (i m n : ℕ) → window b i m ++ window b (i + m) n ≡ window b i (m + n)
window-append b i zero n =
    ap₂ (window b) (let e : i + 0 ≡ i = omega arith in e) (let e : n ≡ 0 + n = omega arith in e)
window-append b i (suc m) n =
    ap (λ k. b i ∷ (window b (i + 1) m ++ window b k n))
      (let e : i + suc m ≡ i + 1 + m = omega arith in e)
    ∙ ap (λ xs. b i ∷ xs) (window-append b (i + 1) m n)
    ∙ ap (window b i) (let e : suc (m + n) ≡ suc m + n = omega arith in e)
