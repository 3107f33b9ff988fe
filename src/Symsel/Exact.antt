-- ===== src/Symsel/Exact.antt =====
-- The bits of `wfsymsel` for a sub-channel.
use opendab.Base.{
  ℕ, ◌+◌, ◌-◌, ◌/◌, ◌^◌, ◌<◌, ◌≤◌, ◌≡◌, ◌≢◌, refl, ap₂, ◌∙◌, arith, max, bit_and, bit_or, Bool,
  true, false, ◌&&◌, ◌||◌, ◌==◌, ==_iff, leb, if◌then◌else◌, Bool-cases, inl, inr, Buffer, store,
  for_range,
}
use opendab.Base.Check.{all_below, all_below_sound}
use opendab.Figs.{Subch, Symrange}
use opendab.Symsel.{Selection, selection, select_symbol, swab, wfsymsel, startsym}
use opendab.Symsel.Cover.{startsym_ranges}
use opendab.Symsel.Bits.{bit, bit-bit_or, place, is_among, range-place}
use opendab.Symsel.Bytes.{place_of, low_byte, swab_low, selected_bit}

-- A symbol of range `i` stands at place `x`.
abbrev pub is_in : Symrange → ℕ → ℕ → Bool
is_in r i x = is_among (r.start i) (r.end i + 1) x

-- A symbol of one of the four ranges does.
abbrev pub is_asked : Symrange → ℕ → Bool
is_asked r x = is_in r 0 x || is_in r 1 x || is_in r 2 x || is_in r 3 x

-- The symbols of the ranges are 2 to 79.
abbrev IsRange : Symrange → ℕ → Type 0
IsRange r i = (2 ≤ r.start i) × (r.start i ≤ r.end i + 1) × (r.end i < 80)

startsym-IsRange :
    (r : Symrange) (s : Subch) (i : ℕ)
    → s.startaddr + s.subchsz ≤ 864
    → i < 4
    → IsRange (startsym r s) i
startsym-IsRange r s i h p = omega (arith, h, startsym_ranges r s i p)

add_range :
    (r : Symrange) (i x : ℕ) (t : Selection)
    → IsRange r i
    → x < 80
    → place x (for_range (r.end i + 1 - r.start i) (r.start i) select_symbol t)
      ≡ max (place x t) (if is_in r i x then 1 else 0)
add_range r i x t (a, b, c) d = range-place (r.start i) (r.end i + 1) x t a b (omega (arith, c)) d

abbrev is_unset : ℕ → Bool
is_unset x = place x (record { l = 0; h = 0 }) == 0

none_set : all_below 80 is_unset ≡ true
unfolding all_below place
none_set = refl

no_places : (x : ℕ) → x < 80 → place x (record { l = 0; h = 0 }) ≡ 0
no_places x h =
    (==_iff (place x (record { l = 0; h = 0 })) 0).0 (all_below_sound 80 is_unset x none_set h)

max_or :
    (n : ℕ) (a b : Bool)
    → n ≡ (if a then 1 else 0)
    → max n (if b then 1 else 0) ≡ (if a || b then 1 else 0)
max_or n true true e = omega (arith, e)
max_or n true false e = omega (arith, e)
max_or n false true e = omega (arith, e)
max_or n false false e = omega (arith, e)

or_none : (a : Bool) → ◌≡◌ {A = ℕ} (if a then 1 else 0) (if a || false then 1 else 0)
or_none true = refl
or_none false = refl

add_asked :
    (r : Symrange) (i x : ℕ) (a : Bool) (t : Selection)
    → IsRange r i
    → x < 80
    → place x t ≡ (if a then 1 else 0)
    → place x (for_range (r.end i + 1 - r.start i) (r.start i) select_symbol t)
      ≡ (if a || is_in r i x then 1 else 0)
add_asked r i x a t p h e = add_range r i x t p h ∙ max_or (place x t) a (is_in r i x) e

selection-place :
    (r : Symrange) (x : ℕ)
    → ((i : ℕ) → i < 4 → IsRange r i)
    → x < 80
    → place x (selection r) ≡ (if is_asked r x then 1 else 0)
unfolding selection for_range
selection-place r x ranges h =
    let none : Selection = record { l = 0; h = 0 } in
    let step : ℕ → Selection → Selection =
      λ i t. for_range (r.end i + 1 - r.start i) (r.start i) select_symbol t in
    let one = add_asked r 0 x false none (ranges 0 (omega arith)) h (no_places x h) in
    let two = add_asked r 1 x (is_in r 0 x) (step 0 none) (ranges 1 (omega arith)) h one in
    let three =
      add_asked r 2 x (is_in r 0 x || is_in r 1 x) (step 1 (step 0 none)) (ranges 2 (omega arith)) h
        two in
    add_asked r 3 x (is_in r 0 x || is_in r 1 x || is_in r 2 x) (step 2 (step 1 (step 0 none)))
      (ranges 3 (omega arith)) h three

abbrev is_fic_bit : ℕ → Bool
is_fic_bit q = bit q 0xf0 == (if leb 4 q then 1 else 0)

all_fic_bits : all_below 8 is_fic_bit ≡ true
unfolding all_below
all_fic_bits = refl

fic_bits : (q : ℕ) → q < 8 → bit q 0xf0 ≡ (if leb 4 q then 1 else 0)
fic_bits q h =
    (==_iff (bit q 0xf0) (if leb 4 q then 1 else 0)).0
      (all_below_sound 8 is_fic_bit q all_fic_bits h)

fic_byte :
    (sel : Buffer) (r : Symrange) (q : ℕ)
    → q < 8
    → bit q (wfsymsel sel r 1) ≡ max (place (place_of 1 q) (selection r)) (if leb 4 q then 1 else 0)
unfolding wfsymsel store for_range
fic_byte sel r q h =
    bit-bit_or q (bit_or 0 (bit_and (swab 4 (selection r).l / 2 ^ 48) 0xff)) 0xf0
    ∙ ap₂ max (low_byte sel r q h 1 48 56 (swab_low (selection r).l).1 refl (omega (arith, h)))
        (fic_bits q h)

-- For a sub-channel within the 864 capacity units, whatever the ten bytes held before, a bit of theirs is
-- set exactly if it is one of the upper four of byte 1, or its place is one of the two before the number
-- of a symbol of the sub-channel's four ranges. The places are counted from the highest bit of the five
-- words of 16 bits, and the low byte of each word comes first, where the comment on the function says
-- that the high one does.
pub wfsymsel_lem :
    (sel : Buffer) (r : Symrange) (s : Subch) (b q : ℕ)
    → s.startaddr + s.subchsz ≤ 864
    → b < 10
    → q < 8
    → bit q (wfsymsel sel (startsym r s) b)
      ≡ (if is_asked (startsym r s) (place_of b q) || ((b == 1) && leb 4 q) then 1 else 0)
wfsymsel_lem sel r s b q h p k = elim (Bool-cases (b == 1)) [
  | inl e ↦
      let is_one : b ≡ 1 = (==_iff b 1).0 e in
      rw (is_one, fic_byte sel (startsym r s) q k)
        (max_or (place (place_of 1 q) (selection (startsym r s)))
          (is_asked (startsym r s) (place_of 1 q)) (leb 4 q) (asked 1 (omega arith)))
  | inr e ↦
      let is_other : b ≢ 1 = λ f. ground (arith, e, f) in
      rw (e, selected_bit sel (startsym r s) q k b p is_other, asked b p)
        (or_none (is_asked (startsym r s) (place_of b q)))
]
  where
    asked :
        (b : ℕ)
        → b < 10
        → place (place_of b q) (selection (startsym r s))
          ≡ (if is_asked (startsym r s) (place_of b q) then 1 else 0)
    asked b p =
        selection-place (startsym r s) (place_of b q) (λ i. startsym-IsRange r s i h)
          (ground (arith, p, k))
