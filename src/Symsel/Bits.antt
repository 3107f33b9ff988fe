-- ===== src/Symsel/Bits.antt =====
-- The bits that `wfsymsel` sets for a symbol.
use native.Mathlib.Nat.{div-one}
use opendab.Base.{
  ℕ, zero, suc, ◌+◌, ◌-◌, ◌/◌, ◌%◌, ◌^◌, ◌<◌, ◌≤◌, ◌≡◌, refl, ap, ap₂, ◌∙◌, arith, max, bit_or,
  Bool, true, not, ◌&&◌, ◌||◌, ◌==◌, ==_iff, ltb, ltb→lt, leb, if◌then◌else◌, Bool-cases, inl, inr,
  for_range, for_range_inv,
}
use opendab.Base.Bits.{bit_or_step, div_pow_suc}
use opendab.Base.Check.{all_below, all_below_sound}
use opendab.Symsel.{Selection, select_symbol}

-- Bit `p` of a value.
abbrev pub bit : ℕ → ℕ → ℕ
bit p x = x / 2 ^ p % 2

pub bit-bit_or : (p a b : ℕ) → bit p (bit_or a b) ≡ max (bit p a) (bit p b)
bit-bit_or zero a b = omega (arith, bit_or_step a b, div-one (bit_or a b), div-one a, div-one b)
bit-bit_or (suc p) a b =
    let half : bit_or a b / 2 ≡ bit_or (a / 2) (b / 2) = omega (arith, bit_or_step a b) in
    omega (
      arith,
      bit-bit_or p (a / 2) (b / 2),
      ap (λ (t : ℕ). t / 2 ^ p % 2) half,
      ap (λ (t : ℕ). t % 2) (div_pow_suc (bit_or a b) p),
      ap₂ (λ (t u : ℕ). max (t % 2) (u % 2)) (div_pow_suc a p) (div_pow_suc b p),
    )

-- Whether bit `p` of the 64-bit value belongs to symbol `j`, and of the 32-bit one.
abbrev pub is_low : ℕ → ℕ → Bool
is_low j p = (j + p == 64) || (j + p == 65)

abbrev pub is_high : ℕ → ℕ → Bool
is_high j p = (j + p == 80) || (j + p == 81)

-- A value moved down by `k`, bit by bit.
abbrev is_moved : ℕ → (ℕ → ℕ → Bool) → ℕ → ℕ → ℕ → Bool
is_moved value belongs from k p = bit p (value / 2 ^ k) == (if belongs (k + from) p then 1 else 0)

low_bits : all_below 61 (λ k. all_below 64 (is_moved 0xc000000000000000 is_low 2 k)) ≡ true
unfolding all_below
low_bits = refl

high_bits : all_below 30 (λ k. all_below 32 (is_moved 0xc0000000 is_high 50 k)) ≡ true
unfolding all_below
high_bits = refl

moved :
    (value : ℕ) (belongs : ℕ → ℕ → Bool) (from m n k p : ℕ)
    → all_below m (λ k. all_below n (is_moved value belongs from k)) ≡ true
    → k < m
    → p < n
    → bit p (value / 2 ^ k) ≡ (if belongs (k + from) p then 1 else 0)
moved value belongs from m n k p all a b =
    (==_iff (bit p (value / 2 ^ k)) (if belongs (k + from) p then 1 else 0)).0 (
      all_below_sound n (is_moved value belongs from k) p
        (all_below_sound m (λ k. all_below n (is_moved value belongs from k)) k all a) b)

low_bit :
    (j p : ℕ)
    → 2 ≤ j
    → j < 63
    → p < 64
    → bit p (0xc000000000000000 / 2 ^ (j - 2)) ≡ (if is_low j p then 1 else 0)
low_bit j p a b c =
    moved 0xc000000000000000 is_low 2 61 64 (j - 2) p low_bits (omega (arith, a, b)) c
    ∙ ap (λ j. if is_low j p then 1 else 0) (let e : j - 2 + 2 ≡ j = omega (arith, a) in e)

high_bit :
    (j p : ℕ)
    → 63 ≤ j
    → j < 80
    → p < 32
    → bit p (0xc0000000 / 2 ^ (j - 48 - 2)) ≡ (if is_high j p then 1 else 0)
high_bit j p a b c =
    moved 0xc0000000 is_high 50 30 32 (j - 48 - 2) p high_bits (omega (arith, a, b)) c
    ∙ ap (λ j. if is_high j p then 1 else 0) (let e : j - 48 - 2 + 50 ≡ j = omega (arith, a) in e)

-- What one symbol adds to each bit.
select_symbol-bits :
    (j p q : ℕ) (t : Selection)
    → 2 ≤ j
    → j < 80
    → p < 64
    → q < 32
    → (bit p (select_symbol j t).l ≡ max (bit p t.l) (if ltb j 63 && is_low j p then 1 else 0))
      × (bit q (select_symbol j t).h
          ≡ max (bit q t.h) (if not (ltb j 63) && is_high j q then 1 else 0))
unfolding select_symbol
select_symbol-bits j p q t a b c d = elim (Bool-cases (ltb j 63)) [
  | inl e ↦ rw e (
    bit-bit_or p t.l (0xc000000000000000 / 2 ^ (j - 2))
        ∙ ap (max (bit p t.l)) (low_bit j p a (ltb→lt j 63 e) c),
    omega arith,
  )
  | inr e ↦ rw e (
    omega arith,
    bit-bit_or q t.h (0xc0000000 / 2 ^ (j - 48 - 2))
        ∙ ap (max (bit q t.h)) (high_bit j q (ground (arith, e)) b d),
  )
]

-- Place `x` of the 80 places of the two values, the 32-bit one behind 48 of the 64.
unfoldable pub place : ℕ → Selection → ℕ
place x t =
    max (if ltb x 64 then bit (63 - x) t.l else 0) (if leb 48 x then bit (79 - x) t.h else 0)

-- A symbol stands at the two places before its number.
abbrev pub is_at : ℕ → ℕ → Bool
is_at j x = (j == x + 1) || (j == x + 2)

select_symbol-place :
    (j x : ℕ) (t : Selection)
    → 2 ≤ j
    → j < 80
    → x < 80
    → place x (select_symbol j t) ≡ max (place x t) (if is_at j x then 1 else 0)
unfolding place
select_symbol-place j x t a b c = elim (Bool-cases (ltb x 64)) [
  | inl low ↦
      let l = (select_symbol-bits j (63 - x) 0 t a b (omega arith) (omega arith)).0 in
      elim (Bool-cases (leb 48 x)) [
        | inl high ↦
            let h =
              (select_symbol-bits j 0 (79 - x) t a b (omega arith) (ground (arith, high))).1 in
            rw (low, high, l, h) (ground (arith, low, high, b))
        | inr left ↦ rw (low, left, l) (ground (arith, low, left, b))
      ]
  | inr right ↦
      let high : leb 48 x ≡ true = ground (arith, right) in
      let h = (select_symbol-bits j 0 (79 - x) t a b (omega arith) (ground (arith, high))).1 in
      rw (right, high, h) (ground (arith, right, b, c))
]

-- Whether a symbol of those from `start` to before `stop` stands at a place.
abbrev pub is_among : ℕ → ℕ → ℕ → Bool
is_among start stop x =
    (leb start (x + 1) && ltb (x + 1) stop) || (leb start (x + 2) && ltb (x + 2) stop)

-- The symbols of a range, one after the other.
pub range-place :
    (start stop x : ℕ) (t : Selection)
    → 2 ≤ start
    → start ≤ stop
    → stop ≤ 80
    → x < 80
    → place x (for_range (stop - start) start select_symbol t)
      ≡ max (place x t) (if is_among start stop x then 1 else 0)
range-place start stop x t a b c d =
    (for_range_inv
      (λ k u. (start ≤ k) × (place x u ≡ max (place x t) (if is_among start k x then 1 else 0)))
      select_symbol stop
      (λ k u p v. (
        omega (arith, v.0),
        select_symbol-place k x u (omega (arith, a, v.0)) (omega (arith, p, c)) d ∙ more k v.0 v.1,
      ))
      (stop - start) start t (omega (arith, b)) (omega arith, none_yet)).1
  where
    none_yet : place x t ≡ max (place x t) (if is_among start start x then 1 else 0)
    none_yet = ground arith

    more :
        (k : ℕ) {c : ℕ}
        → start ≤ k
        → c ≡ max (place x t) (if is_among start k x then 1 else 0)
        → max c (if is_at k x then 1 else 0)
          ≡ max (place x t) (if is_among start (k + 1) x then 1 else 0)
    more k h e = ground arith
