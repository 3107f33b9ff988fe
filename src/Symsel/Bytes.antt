-- ===== src/Symsel/Bytes.antt =====
-- The ten bytes of `wfsymsel`, bit by bit.
use opendab.Base.{
  ℕ, zero, suc, ◌+◌, ◌-◌, ◌*◌, ◌/◌, ◌%◌, ◌^◌, ◌<◌, ◌≤◌, ◌≡◌, ◌≢◌, refl, sym, ap, ap₂, ◌∙◌, arith,
  max, bit_and, bit_or, true, false, ◌==◌, ltb, leb, if◌then◌else◌, Buffer, store, for_range,
}
use opendab.Base.Bits.{bit_and-byte, div-pow_add, zero-bit_or}
use opendab.Figs.{Symrange}
use opendab.Symsel.{Selection, selection, swab, wfsymsel}
use opendab.Symsel.Bits.{bit, bit-bit_or, place}

bit-byte : (q y : ℕ) → q < 8 → bit q (y % 256) ≡ bit q y
bit-byte zero y h = omega arith
bit-byte (suc zero) y h = omega arith
bit-byte (suc (suc zero)) y h = omega arith
bit-byte (suc (suc (suc zero))) y h = omega arith
bit-byte (suc (suc (suc (suc zero)))) y h = omega arith
bit-byte (suc (suc (suc (suc (suc zero))))) y h = omega arith
bit-byte (suc (suc (suc (suc (suc (suc zero)))))) y h = omega arith
bit-byte (suc (suc (suc (suc (suc (suc (suc zero))))))) y h = omega arith
bit-byte (suc (suc (suc (suc (suc (suc (suc (suc q)))))))) y h = absurd (omega arith)

-- A byte of swapped pairs.
swapped :
    (t x m m' q : ℕ)
    → t / 2 ^ m % 256 ≡ x / 2 ^ m' % 256
    → q < 8
    → bit q (bit_and (t / 2 ^ m) 0xff) ≡ bit (m' + q) x
swapped t x m m' q e h =
    ap (bit q) (bit_and-byte (t / 2 ^ m) ∙ e)
    ∙ bit-byte q (x / 2 ^ m') h
    ∙ ap (λ (t : ℕ). t % 2) (div-pow_add x m' q)

pub swab_low :
    (x : ℕ)
    → (swab 4 x / 2 ^ 56 % 256 ≡ x / 2 ^ 48 % 256)
      × (swab 4 x / 2 ^ 48 % 256 ≡ x / 2 ^ 56 % 256)
      × (swab 4 x / 2 ^ 40 % 256 ≡ x / 2 ^ 32 % 256)
      × (swab 4 x / 2 ^ 32 % 256 ≡ x / 2 ^ 40 % 256)
      × (swab 4 x / 2 ^ 24 % 256 ≡ x / 2 ^ 16 % 256)
      × (swab 4 x / 2 ^ 16 % 256 ≡ x / 2 ^ 24 % 256)
      × (swab 4 x / 2 ^ 8 % 256 ≡ x / 2 ^ 0 % 256)
      × (swab 4 x / 2 ^ 0 % 256 ≡ x / 2 ^ 8 % 256)
unfolding swab for_range
swab_low x = (
  omega arith,
  omega arith,
  omega arith,
  omega arith,
  omega arith,
  omega arith,
  omega arith,
  omega arith,
)

swab_high :
    (x : ℕ)
    → (swab 2 x / 2 ^ 24 % 256 ≡ x / 2 ^ 16 % 256)
      × (swab 2 x / 2 ^ 16 % 256 ≡ x / 2 ^ 24 % 256)
      × (swab 2 x / 2 ^ 8 % 256 ≡ x / 2 ^ 0 % 256)
      × (swab 2 x / 2 ^ 0 % 256 ≡ x / 2 ^ 8 % 256)
unfolding swab for_range
swab_high x = (omega arith, omega arith, omega arith, omega arith)

-- The place of bit `q` of byte `b`: the bytes of a pair are changed.
abbrev pub place_of : ℕ → ℕ → ℕ
place_of b q = 8 * (if b % 2 == 0 then b + 1 else b - 1) + 7 - q

module _ (t : Selection) (x k : ℕ) where
  place_low : x < 48 → k + x ≡ 63 → place x t ≡ bit k t.l
  unfolding place
  place_low h e =
      let at : 63 - x ≡ k = omega (arith, e) in
      let low : ltb x 64 ≡ true = ground (arith, h) in
      let not_high : leb 48 x ≡ false = ground (arith, h) in rw (low, not_high, at) (omega arith)

  place_high : 64 ≤ x → k + x ≡ 79 → place x t ≡ bit k t.h
  unfolding place
  place_high h e =
      let at : 79 - x ≡ k = omega (arith, e) in
      let not_low : ltb x 64 ≡ false = ground (arith, h) in
      let high : leb 48 x ≡ true = ground (arith, h) in rw (not_low, high, at) (omega arith)

  place_both : (m : ℕ) → 48 ≤ x → k + x ≡ 63 → m + x ≡ 79 → place x t ≡ max (bit k t.l) (bit m t.h)
  unfolding place
  place_both m h e f =
      let at : 63 - x ≡ k = omega (arith, e) in
      let at' : 79 - x ≡ m = omega (arith, f) in
      let low : ltb x 64 ≡ true = ground (arith, e) in
      let high : leb 48 x ≡ true = ground (arith, h) in rw (low, high, at, at') refl

module _ (sel : Buffer) (r : Symrange) (q : ℕ) (h : q < 8) where
  -- Where only the 64-bit value reaches, or only the other, and where both do.
  pub low_byte :
      (b m m' : ℕ)
      → swab 4 (selection r).l / 2 ^ m % 256 ≡ (selection r).l / 2 ^ m' % 256
      → m' + 7 + 8 * (if b % 2 == 0 then b + 1 else b - 1) ≡ 63
      → place_of b q < 48
      → bit q (bit_or 0 (bit_and (swab 4 (selection r).l / 2 ^ m) 0xff))
        ≡ place (place_of b q) (selection r)
  low_byte b m m' e f p =
      ap (bit q) (zero-bit_or (bit_and (swab 4 (selection r).l / 2 ^ m) 0xff))
      ∙ swapped (swab 4 (selection r).l) (selection r).l m m' q e h
      ∙ sym (place_low (selection r) (place_of b q) (m' + q) p (omega (arith, f, h)))

  high_byte :
      (b m m' : ℕ)
      → swab 2 (selection r).h / 2 ^ m % 256 ≡ (selection r).h / 2 ^ m' % 256
      → m' + 7 + 8 * (if b % 2 == 0 then b + 1 else b - 1) ≡ 79
      → 64 ≤ place_of b q
      → bit q (bit_or 0 (bit_and (swab 2 (selection r).h / 2 ^ m) 0xff))
        ≡ place (place_of b q) (selection r)
  high_byte b m m' e f p =
      ap (bit q) (zero-bit_or (bit_and (swab 2 (selection r).h / 2 ^ m) 0xff))
      ∙ swapped (swab 2 (selection r).h) (selection r).h m m' q e h
      ∙ sym (place_high (selection r) (place_of b q) (m' + q) p (omega (arith, f, h)))

  both_byte :
      (b m m' n n' : ℕ)
      → swab 4 (selection r).l / 2 ^ m % 256 ≡ (selection r).l / 2 ^ m' % 256
      → swab 2 (selection r).h / 2 ^ n % 256 ≡ (selection r).h / 2 ^ n' % 256
      → m' + 7 + 8 * (if b % 2 == 0 then b + 1 else b - 1) ≡ 63
      → n' ≡ m' + 16
      → 48 ≤ place_of b q
      → bit q (
          bit_or
            (bit_or 0 (bit_and (swab 4 (selection r).l / 2 ^ m) 0xff))
            (bit_and (swab 2 (selection r).h / 2 ^ n) 0xff))
        ≡ place (place_of b q) (selection r)
  both_byte b m m' n n' e e' f f' p =
      let l = bit_and (swab 4 (selection r).l / 2 ^ m) 0xff in
      let g = bit_and (swab 2 (selection r).h / 2 ^ n) 0xff in
      bit-bit_or q (bit_or 0 l) g
      ∙ ap₂ max
          (ap (bit q) (zero-bit_or l) ∙ swapped (swab 4 (selection r).l) (selection r).l m m' q e h)
          (swapped (swab 2 (selection r).h) (selection r).h n n' q e' h)
      ∙ sym (
          place_both (selection r) (place_of b q) (m' + q) (n' + q) p (omega (arith, f, h))
            (omega (arith, f, f', h)))

  pub selected_bit :
      (b : ℕ) → b < 10 → b ≢ 1 → bit q (wfsymsel sel r b) ≡ place (place_of b q) (selection r)
  unfolding wfsymsel store for_range
  selected_bit zero p n = low_byte 0 56 48 (swab_low (selection r).l).0 refl (omega (arith, h))
  selected_bit (suc zero) p n = absurd (n refl)
  selected_bit (suc (suc zero)) p n =
      low_byte 2 40 32 (swab_low (selection r).l).2 refl (omega (arith, h))
  selected_bit (suc (suc (suc zero))) p n =
      low_byte 3 32 40 (swab_low (selection r).l).3 refl (omega (arith, h))
  selected_bit (suc (suc (suc (suc zero)))) p n =
      low_byte 4 24 16 (swab_low (selection r).l).4 refl (omega (arith, h))
  selected_bit (suc (suc (suc (suc (suc zero))))) p n =
      low_byte 5 16 24 (swab_low (selection r).l).5 refl (omega (arith, h))
  selected_bit (suc (suc (suc (suc (suc (suc zero)))))) p n =
      both_byte 6 8 0 24 16 (swab_low (selection r).l).6 (swab_high (selection r).h).0 refl refl
        (omega (arith, h))
  selected_bit (suc (suc (suc (suc (suc (suc (suc zero))))))) p n =
      both_byte 7 0 8 16 24 (swab_low (selection r).l).7 (swab_high (selection r).h).1 refl refl
        (omega (arith, h))
  selected_bit (suc (suc (suc (suc (suc (suc (suc (suc zero)))))))) p n =
      high_byte 8 8 0 (swab_high (selection r).h).2 refl (omega (arith, h))
  selected_bit (suc (suc (suc (suc (suc (suc (suc (suc (suc zero))))))))) p n =
      high_byte 9 0 8 (swab_high (selection r).h).3 refl (omega (arith, h))
  selected_bit (suc (suc (suc (suc (suc (suc (suc (suc (suc (suc b)))))))))) p n =
      absurd (omega (arith, p))
