-- ===== src/Wfic/Scrambler.antt =====
-- src/wfic/scrambler.c: energy dispersal by a pseudo-random sequence. The log file is left out.
use native.Mathlib.Decide.{dec_lt}
use native.Mathlib.Nat.{mod-eq_of_lt}
use native.Mathlib.Numerals.{add-one}
use opendab.Base.{
  ℕ, zero, suc, ◌+◌, ◌-◌, ◌==◌, ==_iff, Bool, Bool-cases, inl, inr, true, ◌*◌, ◌/◌, ◌%◌, ◌^◌, ◌≤◌,
  ◌<◌, ◌≡◌, refl, sym, ap, ap₂, ◌∙◌, arith, bit_and, bit_or, bit_xor, Buffer, store, ltb, lt→ltb,
  if◌then◌else◌, store_self, store_ne, false, for_range, for_range_inv,
}
use opendab.Base.Check.{all_below, all_below_sound}
use opendab.Base.Bits.{bit_or_disjoint, bit_xor_twice, bit_and_mask, bit_xor-lt, bit_xor_bits}

-- The loop's variables: the shift register `v`, an unsigned short, and the output.
pub record Dispersal : Type 0 where
  pub v : ℕ
  pub obuf : Buffer

-- `v = v << 1; v0 = ((v>>9)&1) ^ ((v>>5)&1); v |= v0`, and the digit v0 itself.
pub new_digit : ℕ → ℕ
new_digit v = let v = v * 2 % 2 ^ 16 in bit_xor (bit_and (v / 2 ^ 9) 1) (bit_and (v / 2 ^ 5) 1)

pub shifted : ℕ → ℕ
shifted v = bit_or (v * 2 % 2 ^ 16) (new_digit v)

pub round : Buffer → ℕ → Dispersal → Dispersal
round ibuf i s = record {
  v = shifted s.v;
  obuf = store s.obuf i (bit_xor (ibuf i) (new_digit s.v) % 2 ^ 8);
}

pub scramble : Buffer → Buffer → ℕ → Buffer
scramble ibuf obuf len = (for_range len 0 (round ibuf) (record { v = 0x1ff; obuf = obuf })).obuf

-- The register after `n` rounds, and the n-th digit of the sequence.
unfoldable pub register : ℕ → ℕ
register zero = 0x1ff
register (suc n) = shifted (register n)

unfoldable pub prbs : ℕ → ℕ
prbs n = new_digit (register n)

-- The digit as a sum of two register digits.
digit : (v : ℕ) → new_digit v ≡ (v / 2 ^ 8 % 2 + v / 2 ^ 4 % 2) % 2
unfolding new_digit
digit v = omega (
  arith,
  bit_and_mask 1 (v * 2 % 2 ^ 16 / 2 ^ 9),
  bit_and_mask 1 (v * 2 % 2 ^ 16 / 2 ^ 5),
  ap₂ bit_xor (ninth v) (fifth v),
  bit_xor_bits (v / 2 ^ 8 % 2) (v / 2 ^ 4 % 2) (omega arith) (omega arith),
)
  where
    ninth : (v : ℕ) → bit_and (v * 2 % 2 ^ 16 / 2 ^ 9) 1 ≡ v / 2 ^ 8 % 2
    ninth v = omega (arith, bit_and_mask 1 (v * 2 % 2 ^ 16 / 2 ^ 9))

    fifth : (v : ℕ) → bit_and (v * 2 % 2 ^ 16 / 2 ^ 5) 1 ≡ v / 2 ^ 4 % 2
    fifth v = omega (arith, bit_and_mask 1 (v * 2 % 2 ^ 16 / 2 ^ 5))

shifted_lem : (v : ℕ) → shifted v ≡ v * 2 % 2 ^ 16 + new_digit v
unfolding shifted
shifted_lem v =
    ap (λ t. bit_or t (new_digit v)) even
    ∙ bit_or_disjoint 1 (v % 2 ^ 15) (new_digit v) (omega (arith, digit v))
    ∙ omega arith
  where
    even : v * 2 % 2 ^ 16 ≡ v % 2 ^ 15 * 2 ^ 1
    even = omega arith

-- The nine digits before round `n`, the oldest first, of the sequence with the polynomial x^9 + x^5 + 1:
-- nine ones, and then each digit the sum, modulo 2, of those nine and five places before it.
unfoldable pub nine_digits : ℕ → ℕ → ℕ
nine_digits zero k = 1
nine_digits (suc n) k =
    if k == 8 then (nine_digits n 0 + nine_digits n 4) % 2 else nine_digits n (k + 1)

-- The digit of round `n`.
unfoldable pub dispersal_digit : ℕ → ℕ
dispersal_digit n = (nine_digits n 0 + nine_digits n 4) % 2

-- A digit of the register moves up by one place.
moved_up : (v d m : ℕ) → m < 8 → d < 2 → (v * 2 % 2 ^ 16 + d) / 2 ^ (m + 1) % 2 ≡ v / 2 ^ m % 2
moved_up v d zero h p = omega (arith, p)
moved_up v d (suc zero) h p = omega (arith, p)
moved_up v d (suc (suc zero)) h p = omega (arith, p)
moved_up v d (suc (suc (suc zero))) h p = omega (arith, p)
moved_up v d (suc (suc (suc (suc zero)))) h p = omega (arith, p)
moved_up v d (suc (suc (suc (suc (suc zero))))) h p = omega (arith, p)
moved_up v d (suc (suc (suc (suc (suc (suc zero)))))) h p = omega (arith, p)
moved_up v d (suc (suc (suc (suc (suc (suc (suc zero))))))) h p = omega (arith, p)
moved_up v d (suc (suc (suc (suc (suc (suc (suc (suc m)))))))) h p = absurd (omega (arith, h))

abbrev starts_set : ℕ → Bool
starts_set k = 0x1ff / 2 ^ (8 - k) % 2 == 1

all_start_set : all_below 9 starts_set ≡ true
unfolding all_below
all_start_set = refl

-- The register holds the nine digits, the oldest in the highest place.
register_lem : (n k : ℕ) → k < 9 → register n / 2 ^ (8 - k) % 2 ≡ nine_digits n k
unfolding register nine_digits
register_lem zero k h =
    (==_iff (0x1ff / 2 ^ (8 - k) % 2) 1).0 (all_below_sound 9 starts_set k all_start_set h)
register_lem (suc n) k h =
    ap (λ (v : ℕ). v / 2 ^ (8 - k) % 2) (shifted_lem (register n)) ∙ elim (Bool-cases (k == 8)) [
      | inl e ↦
          let last : k ≡ 8 = (==_iff k 8).0 e in
          rw (e, last)
            (omega (
              arith,
              digit (register n),
              register_lem n 0 (omega arith),
              register_lem n 4 (omega arith),
            ))
      | inr e ↦
          let place : 8 - k ≡ 8 - (k + 1) + 1 = ground (arith, e, h) in
          rw (e, place)
            (moved_up (register n) (new_digit (register n)) (8 - (k + 1)) (omega arith)
                (omega (arith, digit (register n)))
              ∙ register_lem n (k + 1) (ground (arith, e, h)))
    ]

prbs_lem : (n : ℕ) → prbs n ≡ dispersal_digit n
unfolding prbs dispersal_digit
prbs_lem n =
    omega
      (arith, digit (register n), register_lem n 0 (omega arith), register_lem n 4 (omega arith))

record Scrambled (ibuf obuf : Buffer) (i : ℕ) (s : Dispersal) : Type 0 where
  registered : s.v ≡ register i
  done : (j : ℕ) → j < i → s.obuf j ≡ bit_xor (ibuf j) (prbs j) % 2 ^ 8
  rest : (j : ℕ) → i ≤ j → s.obuf j ≡ obuf j

round-Scrambled :
    (ibuf obuf : Buffer) (i : ℕ) (s : Dispersal)
    → Scrambled ibuf obuf i s
    → Scrambled ibuf obuf (i + 1) (round ibuf i s)
unfolding round register prbs
round-Scrambled ibuf obuf i s inv = record {
  registered = ap shifted inv.registered ∙ ap register (sym (add-one i));
  done = λ j p. elim (dec_lt j i) [
    | yes q ↦ store_ne s.obuf i _ j (omega arith) ∙ inv.done j q
    | no q ↦
        let e : j ≡ i = omega arith in
        rw e
          (store_self s.obuf i _ ∙ ap (λ t. bit_xor (ibuf i) (new_digit t) % 2 ^ 8) inv.registered)
  ];
  rest = λ j p. store_ne s.obuf i _ j (omega arith) ∙ inv.rest j (omega arith);
}

pub prbs-lt : (n : ℕ) → prbs n < 2
unfolding prbs
prbs-lt n = omega (arith, digit (register n))

above : (j len : ℕ) → len ≤ j → ltb j len ≡ false
above j len h = ground arith

scrambled :
    (ibuf obuf : Buffer) (len : ℕ)
    → Scrambled ibuf obuf len (for_range len 0 (round ibuf) (record { v = 0x1ff; obuf = obuf }))
unfolding register
scrambled ibuf obuf len =
    for_range_inv (Scrambled ibuf obuf) (round ibuf) len
      (λ i s p inv. round-Scrambled ibuf obuf i s inv) len 0 _ (omega arith)
      (record { registered = refl; done = λ j p. absurd (omega arith); rest = λ j p. refl })

-- `scramble` adds to each of the first `len` bytes its digit of the sequence with the polynomial
-- x^9 + x^5 + 1 that begins behind nine ones, and touches no other byte.
pub scramble_lem :
    (ibuf obuf : Buffer) (len j : ℕ)
    → scramble ibuf obuf len j
      ≡ (if ltb j len then bit_xor (ibuf j) (dispersal_digit j) % 2 ^ 8 else obuf j)
unfolding scramble
scramble_lem ibuf obuf len j = elim (dec_lt j len) [
  | yes p ↦ rw (lt→ltb j len p, ← prbs_lem j) ((scrambled ibuf obuf len).done j p)
  | no p ↦ rw (above j len (omega arith)) ((scrambled ibuf obuf len).rest j (omega arith))
]

pub scramble-within :
    (ibuf obuf : Buffer) (len j : ℕ)
    → j < len
    → scramble ibuf obuf len j ≡ bit_xor (ibuf j) (prbs j) % 2 ^ 8
unfolding scramble
scramble-within ibuf obuf len j p = (scrambled ibuf obuf len).done j p

-- Scrambling twice gives the bytes back: the receiver undoes the transmitter.
pub scramble_twice :
    (ibuf mid out : Buffer) (len j : ℕ)
    → j < len
    → ibuf j < 256
    → scramble (scramble ibuf mid len) out len j ≡ ibuf j
scramble_twice ibuf mid out len j p b =
    scramble-within (scramble ibuf mid len) out len j p
    ∙ ap (λ t. bit_xor t (prbs j) % 2 ^ 8) (scramble-within ibuf mid len j p)
    ∙ ap (λ (t : ℕ). bit_xor t (prbs j) % 2 ^ 8) whole
    ∙ ap (λ (t : ℕ). t % 2 ^ 8) (bit_xor_twice (ibuf j) (prbs j))
    ∙ mod-eq_of_lt b
  where
    whole : bit_xor (ibuf j) (prbs j) % 2 ^ 8 ≡ bit_xor (ibuf j) (prbs j)
    whole = mod-eq_of_lt (bit_xor-lt 8 (ibuf j) (prbs j) b (omega (arith, prbs-lt j)))
