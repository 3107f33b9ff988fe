-- ===== src/Wfic/Puncture/Stores.antt =====
-- Runs of stores at adjacent places.
use native.Mathlib.Decide.{ℕ_discrete}
use opendab.Base.{ℕ, ◌+◌, ◌<◌, ◌≡◌, arith, Buffer, store}

below_four :
    (P : ℕ → Type 0) (j : ℕ) → P 0 → (0 < j → P 1) → (1 < j → P 2) → (2 < j → P 3) → j < 4 → P j
below_four P j a b c d h = elim (ℕ_discrete j 0) [
  | yes e ↦ rw e a
  | no n0 ↦ elim (ℕ_discrete j 1) [
    | yes e ↦ rw e (b (omega (arith, n0)))
    | no n1 ↦ elim (ℕ_discrete j 2) [
      | yes e ↦ rw e (c (omega (arith, n0, n1)))
      | no n2 ↦ let e : j ≡ 3 = omega (arith, n0, n1, n2, h) in rw e (d (omega (arith, n0, n1, n2)))
    ]
  ]
]

-- Three stores in a row, two, and four.
unfoldable pub three_stores : (b v : Buffer) (k : ℕ) → Buffer
three_stores b v k = store (store (store b (k + 0) (v 0)) (k + 1) (v 1)) (k + 2) (v 2)

unfoldable pub two_stores : (b v : Buffer) (k : ℕ) → Buffer
two_stores b v k = store (store b (k + 0) (v 0)) (k + 1) (v 1)

unfoldable pub four_stores : (b v : Buffer) (k : ℕ) → Buffer
four_stores b v k = store (three_stores b v k) (k + 3) (v 3)

pub three_before : (b v : Buffer) (k j : ℕ) → j < k → three_stores b v k j ≡ b j
unfolding three_stores store
three_before b v k j h = ground arith

pub two_before : (b v : Buffer) (k j : ℕ) → j < k → two_stores b v k j ≡ b j
unfolding two_stores store
two_before b v k j h = ground arith

pub four_before : (b v : Buffer) (k j : ℕ) → j < k → four_stores b v k j ≡ b j
unfolding four_stores three_stores store
four_before b v k j h = ground arith

pub three_in : (b v : Buffer) (k j : ℕ) → j < 3 → three_stores b v k (k + j) ≡ v j
unfolding three_stores store
three_in b v k j h =
    below_four (λ j. three_stores b v k (k + j) ≡ v j) j (ground arith) (λ p. ground arith)
      (λ p. ground arith) (λ p. absurd (omega (arith, p, h))) (omega (arith, h))

pub two_in : (b v : Buffer) (k j : ℕ) → j < 2 → two_stores b v k (k + j) ≡ v j
unfolding two_stores store
two_in b v k j h =
    below_four (λ j. two_stores b v k (k + j) ≡ v j) j (ground arith) (λ p. ground arith)
      (λ p. absurd (omega (arith, p, h))) (λ p. absurd (omega (arith, p, h))) (omega (arith, h))

pub four_in : (b v : Buffer) (k j : ℕ) → j < 4 → four_stores b v k (k + j) ≡ v j
unfolding four_stores three_stores store
four_in b v k j h =
    below_four (λ j. four_stores b v k (k + j) ≡ v j) j (ground arith) (λ p. ground arith)
      (λ p. ground arith) (λ p. ground arith) h
