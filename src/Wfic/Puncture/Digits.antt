-- ===== src/Wfic/Puncture/Digits.antt =====
-- The values that puncturing puts out.
use opendab.Base.{ℕ, ◌+◌, ◌*◌, ◌<◌, ◌≡◌, arith, Buffer, store, store_below}
use opendab.Wfic.Puncture.{Punctured, keep3, keep2, puncture}
use opendab.Wfic.Puncture.Places.{width, rounds_inv}

module _ (ibuf obuf : Buffer) (bits : (i : ℕ) → i < 3096 → ibuf i < 2) where
  two_below :
      (at k : ℕ) (b : Buffer)
      → at + 3 < 3096
      → ((x : ℕ) → b x < 2)
      → (x : ℕ) → store (store b (k + 0) (ibuf (at + 0))) (k + 1) (ibuf (at + 1)) x < 2
  two_below at k b h v =
      store_below 2 (store b (k + 0) (ibuf (at + 0))) (k + 1) (ibuf (at + 1))
        (store_below 2 b (k + 0) (ibuf (at + 0)) v (bits (at + 0) (omega (arith, h))))
        (bits (at + 1) (omega (arith, h)))

  keep3_below :
      (c : ℕ) (s : Punctured)
      → c < 774
      → width c ≡ 3
      → ((x : ℕ) → s.obuf x < 2)
      → (x : ℕ) → (keep3 ibuf (4 * c) s).obuf x < 2
  unfolding keep3
  keep3_below c s h w v =
      store_below 2 _ (s.k + 2) (ibuf (4 * c + 2))
        (two_below (4 * c) s.k s.obuf (omega (arith, h)) v) (bits (4 * c + 2) (omega (arith, h)))

  keep2_below :
      (c : ℕ) (s : Punctured)
      → c < 774
      → width c ≡ 2
      → ((x : ℕ) → s.obuf x < 2)
      → (x : ℕ) → (keep2 ibuf (4 * c) s).obuf x < 2
  unfolding keep2
  keep2_below c s h w v = two_below (4 * c) s.k s.obuf (omega (arith, h)) v

  pub puncture_below : ((x : ℕ) → obuf x < 2) → (x : ℕ) → puncture ibuf obuf x < 2
  unfolding puncture
  puncture_below v =
      rounds_inv (λ c s. (x : ℕ) → s.obuf x < 2) (keep3 ibuf) (keep2 ibuf) keep3_below keep2_below
        (record { k = 0; obuf = obuf }) v
