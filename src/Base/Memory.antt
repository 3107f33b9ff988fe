-- ===== src/Base/Memory.antt =====
-- Memory behind a C pointer: what each offset from it reads. A store changes one offset.
-- Counted loops over such memory, and their invariant rule.
use Prim.Native.Nat.{ℕ, zero, suc, ◌+◌, ◌<◌}
use mathlib.Core.Path.{◌≡◌, refl, ap, ap₂, ◌∙◌}
use mathlib.Core.Logic.{◌≢◌}
use mathlib.Core.List.{List, [], ◌∷◌}
use native.Mathlib.Omega.{arith}
use opendab.Base.Tests.{◌==◌, if◌then◌else◌}
use opendab.Base.Lists.{get_or}

abbrev pub Buffer : Type 0
Buffer = ℕ → ℕ

-- `*(b + i) = v`
unfoldable pub store : Buffer → ℕ → ℕ → Buffer
store b i v j = if j == i then v else b j

pub store_self : (b : Buffer) (i v : ℕ) → store b i v i ≡ v
unfolding store
store_self b i v = ground arith

pub store_ne : (b : Buffer) (i v j : ℕ) → j ≢ i → store b i v j ≡ b j
unfolding store
store_ne b i v j h = ground arith

-- `b + n`: the same memory, from a later pointer.
abbrev pub shift : Buffer → ℕ → Buffer
shift b n i = b (n + i)

-- Memory that holds a list, and zeroes behind it.
abbrev pub holding : List ℕ → Buffer
holding xs i = get_or xs i 0

-- The first `n` bytes, as a list.
abbrev pub window : Buffer → ℕ → ℕ → List ℕ
window b i zero = []
window b i (suc n) = b i ∷ window b (i + 1) n

-- `for (k = i; k < i + n; k++) s = body k s`
unfoldable pub for_range {ℓ} : {S : Type ℓ} → ℕ → ℕ → (ℕ → S → S) → S → S
for_range zero k round st = st
for_range (suc rounds) k round st = for_range rounds (k + 1) round (round k st)

-- What holds at the first index and is kept by each round holds at the end.
pub for_range_inv {ℓ κ} :
    {S : Type ℓ} (Inv : ℕ → S → Type κ) (round : ℕ → S → S) (last : ℕ)
    → ((k : ℕ) (st : S) → k < last → Inv k st → Inv (k + 1) (round k st))
    → (rounds k : ℕ) (st : S) → k + rounds ≡ last
    → Inv k st
    → Inv last (for_range rounds k round st)
unfolding for_range
for_range_inv Inv round last kept zero k st meet v = let e : k ≡ last = omega arith in rw (← e) v
for_range_inv Inv round last kept (suc rounds) k st meet v =
    for_range_inv Inv round last kept rounds (k + 1) (round k st) (omega arith)
      (kept k st (omega arith) v)

-- Loops whose rounds agree end in the same state.
pub for_range_ext {ℓ} :
    {S : Type ℓ} (round round' : ℕ → S → S) (last : ℕ)
    → ((k : ℕ) (st : S) → k < last → round k st ≡ round' k st)
    → (rounds k : ℕ) (st : S) → k + rounds ≡ last
    → for_range rounds k round st ≡ for_range rounds k round' st
unfolding for_range
for_range_ext round round' last same zero k st meet = refl
for_range_ext round round' last same (suc rounds) k st meet =
    ap (for_range rounds (k + 1) round) (same k st (omega arith))
    ∙ for_range_ext round round' last same rounds (k + 1) (round' k st) (omega arith)

-- Memory whose values are all below a bound stays so.
pub store_below :
    (bound : ℕ) (b : Buffer) (i v : ℕ)
    → ((x : ℕ) → b x < bound)
    → v < bound
    → (x : ℕ) → store b i v x < bound
unfolding store
store_below bound b i v h p x = ground (arith, h x)

-- A loop in two parts.
pub for_range-append {ℓ} :
    {S : Type ℓ} (round : ℕ → S → S) (m n k : ℕ) (st : S)
    → for_range (m + n) k round st ≡ for_range n (k + m) round (for_range m k round st)
unfolding for_range
for_range-append round zero n k st =
    ap₂ (λ i j. for_range i j round st) (let e : 0 + n ≡ n = omega arith in e)
      (let e : k ≡ k + 0 = omega arith in e)
for_range-append round (suc m) n k st =
    ap (λ i. for_range i k round st) (let e : suc m + n ≡ suc (m + n) = omega arith in e)
    ∙ for_range-append round m n (k + 1) (round k st)
    ∙ ap (λ j. for_range n j round (for_range m (k + 1) round (round k st)))
        (let e : k + 1 + m ≡ k + suc m = omega arith in e)
