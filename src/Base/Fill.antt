-- ===== src/Base/Fill.antt =====
-- Loops that store once at each index, and loops of such loops.
use Prim.Native.Nat.{ℕ, ◌+◌, ◌*◌, ◌<◌}
use mathlib.Core.Path.{◌≡◌, ◌∙◌}
use mathlib.Core.Logic.{◌≢◌}
use native.Mathlib.Omega.{arith}
use native.Mathlib.Decide.{dec_lt}
use opendab.Base.Memory.{Buffer, store, store_self, store_ne, for_range, for_range_inv}

stored :
    (v : ℕ → ℕ) (k : ℕ) (c : Buffer) (at : ℕ → ℕ)
    → ((j : ℕ) → j < k → at j ≢ at k)
    → ((j : ℕ) → j < k → c (at j) ≡ v j)
    → (j : ℕ) → j < k + 1
    → store c (at k) (v k) (at j) ≡ v j
stored v k c at apart before j h = elim (dec_lt j k) [
  | yes p ↦ store_ne c (at k) (v k) (at j) (apart j p) ∙ before j p
  | no p ↦ let e : j ≡ k = omega (arith, p, h) in rw e (store_self c (at k) (v k))
]

-- What a loop of single stores at its own index leaves.
pub filled_by :
    (v : ℕ → ℕ) (n i : ℕ) (b : Buffer) → i < n → for_range n 0 (λ k b. store b k (v k)) b i ≡ v i
filled_by v n i b h =
    for_range_inv (λ k c. (j : ℕ) → j < k → c j ≡ v j) (λ k b. store b k (v k)) n
      (λ k c p before. stored v k c (λ j. j) (λ j q e. omega (arith, q, e)) before) n 0 b
      (omega arith) (λ j q. absurd (omega (arith, q))) i h

-- The same at places that differ.
pub filled_at :
    (v at : ℕ → ℕ) (n i : ℕ) (b : Buffer)
    → ((j k : ℕ) → j < k → k < n → at j ≢ at k)
    → i < n
    → for_range n 0 (λ k b. store b (at k) (v k)) b (at i) ≡ v i
filled_at v at n i b apart h =
    for_range_inv (λ k c. (j : ℕ) → j < k → c (at j) ≡ v j) (λ k b. store b (at k) (v k)) n
      (λ k c p before. stored v k c at (λ j q. apart j k q p) before) n 0 b (omega arith)
      (λ j q. absurd (omega (arith, q))) i h

-- The places of `n` rows of `w`: no two of them are the same.
pub record IsGrid (n w : ℕ) (at : ℕ → ℕ → ℕ) : Type 0 where
  pub rows : (i k x y : ℕ) → i < k → k < n → x < w → y < w → at i x ≢ at k y
  pub row : (i x y : ℕ) → i < n → x < y → y < w → at i x ≢ at i y

module _ (n w : ℕ) (at v : ℕ → ℕ → ℕ) (grid : IsGrid n w at) where
  open grid use {rows, row}

  Filled : ℕ → Buffer → Type 0
  Filled k c = (i x : ℕ) → i < k → x < w → c (at i x) ≡ v i x

  fill_row : ℕ → Buffer → Buffer
  fill_row k b = for_range w 0 (λ x b. store b (at k x) (v k x)) b

  fill_row-Filled : (k : ℕ) (c : Buffer) → k < n → Filled k c → Filled (k + 1) (fill_row k c)
  unfolding Filled fill_row
  fill_row-Filled k c last before i x h q = elim (dec_lt i k) [
    | yes p ↦ end.0 i x p q
    | no p ↦ let e : i ≡ k = omega (arith, p, h) in rw e (end.1 x q)
  ]
    where
      end : Filled k (fill_row k c) × ((y : ℕ) → y < w → fill_row k c (at k y) ≡ v k y)
      end =
          for_range_inv (λ m d. Filled k d × ((y : ℕ) → y < m → d (at k y) ≡ v k y))
            (λ x b. store b (at k x) (v k x)) w
            (λ m d p inv. (
              λ i x h q.
                  store_ne d (at k m) (v k m) (at i x) (rows i k x m h last q p) ∙ inv.0 i x h q,
              stored (v k) m d (at k) (λ y q. row k y m last q p) inv.1,
            ))
            w 0 c (omega arith) (before, λ y q. absurd (omega (arith, q)))

  -- What loops over the places of each row, one row behind the other, leave.
  pub grid_filled :
      (i x : ℕ) (b : Buffer)
      → i < n
      → x < w
      → for_range n 0 (λ k b. for_range w 0 (λ x b. store b (at k x) (v k x)) b) b (at i x) ≡ v i x
  unfolding Filled fill_row
  grid_filled i x b h q =
      for_range_inv Filled fill_row n (λ k c p before. fill_row-Filled k c p before) n 0 b
        (omega arith) (λ i x h q. absurd (omega (arith, h))) i x h q

-- The places of a block of `w` in a row of blocks: none is a place of another block.
abbrev pub IsRow : ℕ → Type 0
IsRow w = (i k x y : ℕ) → i < k → x < w → y < w → i * w + x ≢ k * w + y

-- What `n` loops over blocks of `w` leave.
pub blocks_filled :
    (w : ℕ) (v : ℕ → ℕ → ℕ) (n i x : ℕ) (b : Buffer)
    → IsRow w
    → i < n
    → x < w
    → for_range n 0 (λ k b. for_range w 0 (λ x b. store b (k * w + x) (v k x)) b) b (i * w + x)
      ≡ v i x
blocks_filled w v n i x b row h q = grid_filled n w (λ k x. k * w + x) v blocks i x b h q
  where
    blocks : IsGrid n w (λ k x. k * w + x)
    blocks = record {
      rows = λ i k x y p _ q r. row i k x y p q r;
      row = λ i x y _ p _ e. omega (arith, p, e);
    }
