-- ===== src/Wfic/Puncture/Places.antt =====
-- The places of the bits that puncturing keeps.
use mathlib.Core.Path.{subst}
use opendab.Base.{
  ℕ, ◌+◌, ◌-◌, ◌*◌, ◌/◌, ◌%◌, ◌<◌, ◌≤◌, ◌≡◌, min, arith, ltb, ◌&&◌, ◌||◌, if◌then◌else◌, for_range,
  for_range_inv,
}
use opendab.Wfic.Puncture.{Punctured, rounds}

-- Bits kept of the four with number `c`: 21 blocks keep three of four, 3 blocks keep two of the last
-- four in 32, the last 24 bits keep two of four.
abbrev pub width : ℕ → ℕ
width c = if ltb c 672 || (ltb c 768 && ltb (c % 8) 7) then 3 else 2

-- The place of their first.
unfoldable pub place : ℕ → ℕ
place c = 3 * c - min (c - 672) 96 / 8 - (c - 768)

pub place_step : (c : ℕ) → c < 774 → place (c + 1) ≡ place c + width c
unfolding place
place_step c h = ground arith

place_mono : (b c : ℕ) → b ≤ c → place b ≤ place c
unfolding place
place_mono b c h = omega (arith, h)

pub place_lt : (q r c : ℕ) → q < c → c ≤ 774 → r < width q → place q + r < place c
place_lt q r c h e p =
    omega (arith, p, place_step q (omega (arith, h, e)), place_mono (q + 1) c (omega (arith, h)))

early : (c : ℕ) → c < 672 → width c ≡ 3
early c h = ground arith

middle : (b j : ℕ) → b < 96 → j < 7 → width (8 * b + j) ≡ 3
middle b j p q = ground arith

seventh : (b : ℕ) → 84 ≤ b → b < 96 → width (8 * b + 7) ≡ 2
seventh b lo p = ground arith

last : (j : ℕ) → width (768 + j) ≡ 2
last j = ground arith

-- What each quadruple of bits keeps holds after all of them, in the order of the three loops.
module _ (Inv : ℕ → Punctured → Type 0) (three two : ℕ → Punctured → Punctured)
    (keep_three : (c : ℕ) (s : Punctured)
      → c < 774
      → width c ≡ 3
      → Inv c s
      → Inv (c + 1) (three (4 * c) s))
    (keep_two : (c : ℕ) (s : Punctured)
      → c < 774
      → width c ≡ 2
      → Inv c s
      → Inv (c + 1) (two (4 * c) s)) where
  step_three :
      (c n d : ℕ) (s : Punctured)
      → 4 * c ≡ n
      → c + 1 ≡ d
      → c < 774
      → width c ≡ 3
      → Inv c s
      → Inv d (three n s)
  step_three c n d s e f h w v = rw (← e, ← f) (keep_three c s h w v)

  step_two :
      (c n d : ℕ) (s : Punctured)
      → 4 * c ≡ n
      → c + 1 ≡ d
      → c < 774
      → width c ≡ 2
      → Inv c s
      → Inv d (two n s)
  step_two c n d s e f h w v = rw (← e, ← f) (keep_two c s h w v)

  block :
      (b m : ℕ) (s : Punctured)
      → ((j : ℕ) → j < m → (8 * b + j < 774) × (width (8 * b + j) ≡ 3))
      → Inv (8 * b) s
      → Inv (8 * b + m) (for_range m 0 (λ j s. three (32 * b + j * 4) s) s)
  block b m s fits v =
      for_range_inv (λ j s. Inv (8 * b + j) s) (λ j s. three (32 * b + j * 4) s) m
        (λ j s p v.
          step_three (8 * b + j) (32 * b + j * 4) (8 * b + (j + 1)) s (omega arith) (omega arith)
            (fits j p).0 (fits j p).1 v)
        m 0 s (omega arith) (subst (λ n. Inv n s) (let e : 8 * b ≡ 8 * b + 0 = omega arith in e) v)

  first :
      (b : ℕ) (s : Punctured)
      → b < 84
      → Inv (8 * b) s
      → Inv (8 * (b + 1)) (for_range 8 0 (λ j s. three (32 * b + j * 4) s) s)
  first b s p v =
      subst (λ n. Inv n (for_range 8 0 (λ j s. three (32 * b + j * 4) s) s))
        (let e : 8 * b + 8 ≡ 8 * (b + 1) = omega arith in e)
        (block b 8 s (λ j q. (omega (arith, p, q), early (8 * b + j) (omega (arith, p, q)))) v)

  second :
      (b : ℕ) (s : Punctured)
      → 84 ≤ b
      → b < 96
      → Inv (8 * b) s
      → Inv (8 * (b + 1)) (two (32 * b + 7 * 4) (for_range 7 0 (λ j s. three (32 * b + j * 4) s) s))
  second b s lo p v =
      step_two (8 * b + 7) (32 * b + 7 * 4) (8 * (b + 1)) _ (omega arith) (omega arith)
        (omega (arith, p)) (seventh b lo p)
        (block b 7 s (λ j q. (omega (arith, p, q), middle b j p q)) v)

  second_loop :
      (s : Punctured)
      → Inv 672 s
      → Inv 768 (
          for_range 12 84
            (λ b s. two (32 * b + 7 * 4) (for_range 7 0 (λ j s. three (32 * b + j * 4) s) s))
            s)
  second_loop s v =
      (for_range_inv (λ b s. (84 ≤ b) × Inv (8 * b) s)
        (λ b s. two (32 * b + 7 * 4) (for_range 7 0 (λ j s. three (32 * b + j * 4) s) s)) 96
        (λ b s p v. (omega (arith, v.0), second b s v.0 p v.1)) 12 84 s (omega arith)
        (omega arith, v)).1

  pub rounds_inv : (s : Punctured) → Inv 0 s → Inv 774 (rounds three two s)
  rounds_inv s v =
      for_range_inv (λ j s. Inv (768 + j) s) (λ j s. two (24 * 128 + j * 4) s) 6
        (λ j s p v.
          step_two (768 + j) (24 * 128 + j * 4) (768 + (j + 1)) s (omega arith) (omega arith)
            (omega (arith, p)) (last j) v)
        6 0 _ (omega arith)
        (second_loop _ (
          for_range_inv (λ b s. Inv (8 * b) s)
            (λ b s. for_range 8 0 (λ j s. three (32 * b + j * 4) s) s) 84 first 84 0 s (omega arith)
            v))
