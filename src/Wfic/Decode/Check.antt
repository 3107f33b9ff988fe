-- ===== src/Wfic/Decode/Check.antt =====
-- src/wfic/wfic.c, crc16: its register, and the check as the transmitter computes it.
use native.Mathlib.Nat.{div-div-eq-div-mul, pow-suc, div-eq_of_lt, div-one}
use opendab.Base.{
  ℕ, zero, suc, ◌+◌, ◌-◌, ◌/◌, ◌%◌, ◌^◌, ◌<◌, ◌≡◌, refl, sym, ap, ap₂, ◌∙◌, arith, bit_xor, ◌==◌,
  if◌then◌else◌, Buffer, for_range, for_range_inv, for_range_ext, ltb, lt→ltb, ltb→lt,
  for_range-append, Bool-cases, inl, inr, true, false, not,
}
use opendab.Base.Bits.{
  bit_and_mask, bit_xor_bits, bit_xor_assoc, zero-bit_xor, bit_xor-lt, half-bit_xor, parity-bit_xor,
  bit_xor-zero,
}
use opendab.Wfic.Decode.{crc16_round, crc16}
use opendab.Wfic.Decode.Agree.{Agree, AreBits}

abbrev pub one_digit : ℕ → ℕ → ℕ
one_digit t crc = for_range 1 0 (λ j crc. crc16_round crc (t / 2 ^ (1 - 1 - j))) crc

-- The register after the first `n` digits of a message.
unfoldable pub register : Buffer → ℕ → ℕ
register buf n = for_range n 0 (λ i. one_digit (buf i)) 0xffff

-- What sixteen digits that are the complement of the register leave of it: the register moved out, and
-- a pattern that does not depend on the message.
pattern_after : ℕ → ℕ
pattern_after zero = 0
pattern_after (suc j) =
    let k = pattern_after j in if k % 2 == 0 then bit_xor (k / 2) 0x8408 else k / 2

pattern_16 : pattern_after 16 ≡ 0xf0b8
unfolding pattern_after
pattern_16 = refl

pub round_lem :
    (crc t : ℕ)
    → crc16_round crc t ≡ (if (crc + t) % 2 == 0 then crc / 2 else bit_xor (crc / 2) 0x8408)
unfolding crc16_round
round_lem crc t =
    ap (λ (c : ℕ). if c == 0 then crc / 2 else bit_xor (crc / 2) 0x8408)
      (ap₂ bit_xor (bit_and_mask 1 crc) (bit_and_mask 1 t)
        ∙ bit_xor_bits (crc % 2) (t % 2) (omega arith) (omega arith)
        ∙ omega arith)

flipped : (k x : ℕ) → x % 2 ≡ (1 + k) % 2 → (x % 2 == 0) ≡ not (k % 2 == 0)
flipped k x e = ground arith

-- A round with the complement of the next digit of `c`.
complement_round :
    (c j t : ℕ)
    → t + c / 2 ^ j % 2 ≡ 1
    → crc16_round (bit_xor (c / 2 ^ j) (pattern_after j)) t
      ≡ bit_xor (c / 2 ^ suc j) (pattern_after (suc j))
unfolding pattern_after
complement_round c j t e =
    let k = pattern_after j in
    let a = c / 2 ^ j in
    let halves : bit_xor a k / 2 ≡ bit_xor (c / 2 ^ suc j) (k / 2) =
      half-bit_xor a k
      ∙ ap (λ (x : ℕ). bit_xor x (k / 2))
          (div-div-eq-div-mul c (2 ^ j) 2 ∙ ap (λ (x : ℕ). c / x) (sym (pow-suc 2 j))) in
    let digit : (bit_xor a k + t) % 2 ≡ (1 + k) % 2 = omega (arith, e, parity-bit_xor a k) in
    round_lem (bit_xor a k) t ∙ elim (Bool-cases (k % 2 == 0)) [
      | inl even ↦
          let odd_digit : ((bit_xor a k + t) % 2 == 0) ≡ false =
            flipped k (bit_xor a k + t) digit ∙ ap not even in
          rw (even, odd_digit)
            (ap (λ (x : ℕ). bit_xor x 0x8408) halves ∙ bit_xor_assoc (c / 2 ^ suc j) (k / 2) 0x8408)
      | inr odd ↦
          let even_digit : ((bit_xor a k + t) % 2 == 0) ≡ true =
            flipped k (bit_xor a k + t) digit ∙ ap not odd in
          rw (odd, even_digit) halves
    ]

pub one_round : (t c : ℕ) → one_digit t c ≡ crc16_round c t
unfolding for_range
one_round t c = ap (crc16_round c) (div-one t)

pub round-below : (c t : ℕ) → c < 2 ^ 16 → crc16_round c t < 2 ^ 16
round-below c t h =
    let low : c / 2 < 2 ^ 16 = omega (arith, h) in
    elim (Bool-cases ((c + t) % 2 == 0)) [
      | inl e ↦ rw (round_lem c t, e) low
      | inr e ↦ rw (round_lem c t, e) (bit_xor-lt 16 (c / 2) 0x8408 low (omega arith))
    ]

pub register-below : (buf : Buffer) (n : ℕ) → register buf n < 2 ^ 16
unfolding register pattern_after
register-below buf n =
    for_range_inv (λ i (c : ℕ). c < 2 ^ 16) (λ i. one_digit (buf i)) n
      (λ i c p below. rw (one_round (buf i) c) (round-below c (buf i) below)) n 0 0xffff
      (omega arith) (omega arith)

-- The rounds on the complement of `c`, from its digit `j` on.
complement_rounds :
    (buf : Buffer) (n c : ℕ)
    → c < 2 ^ 16
    → ((j : ℕ) → j < 16 → buf (n + j) + c / 2 ^ j % 2 ≡ 1)
    → (m j : ℕ) → j + m ≡ 16
    → for_range m (n + j) (λ i. one_digit (buf i)) (bit_xor (c / 2 ^ j) (pattern_after j)) ≡ 0xf0b8
unfolding for_range
complement_rounds buf n c h sealed zero j meet =
    let all : j ≡ 16 = omega (arith, meet) in
    let out : c / 2 ^ 16 ≡ 0 = div-eq_of_lt h in
    rw (all, out) (zero-bit_xor (pattern_after 16) ∙ pattern_16)
complement_rounds buf n c h sealed (suc m) j meet =
    let on : n + j + 1 ≡ n + suc j = omega arith in
    rw on (
      ap (for_range m (n + suc j) (λ i. one_digit (buf i))) (
        one_round (buf (n + j)) (bit_xor (c / 2 ^ j) (pattern_after j))
        ∙ complement_round c j (buf (n + j)) (sealed j (omega (arith, meet))))
      ∙ complement_rounds buf n c h sealed m (suc j) (omega (arith, meet)))

register_after :
    (buf : Buffer) (n : ℕ)
    → ((j : ℕ) → j < 16 → buf (n + j) + register buf n / 2 ^ j % 2 ≡ 1)
    → register buf (n + 16) ≡ 0xf0b8
unfolding register pattern_after
register_after buf n sealed =
    let c = register buf n in
    let start : c ≡ bit_xor (c / 2 ^ 0) (pattern_after 0) =
      sym (bit_xor-zero c) ∙ ap (λ (x : ℕ). bit_xor x 0) (sym (div-one c)) in
    for_range-append (λ i. one_digit (buf i)) n 16 0 0xffff
    ∙ ap₂ (λ k st. for_range 16 k (λ i. one_digit (buf i)) st)
        (let e : 0 + n ≡ n + 0 = omega arith in e) start
    ∙ complement_rounds buf n c (register-below buf n) sealed 16 0 refl

-- If the last 16 digits of a message are the complement of the digits of the register after the others,
-- the lowest first, `crc16` accepts it.
crc16-sealed :
    (buf : Buffer) (n : ℕ)
    → ((j : ℕ) → j < 16 → buf (n + j) + register buf n / 2 ^ j % 2 ≡ 1)
    → crc16 buf (n + 16) 1 ≡ 0
unfolding crc16 register
crc16-sealed buf n sealed = rw (register_after buf n sealed) refl

-- The transmitter's side: a message of `n` digits with its check behind it.
pub with_check : Buffer → ℕ → Buffer
with_check buf n x = if ltb x n then buf x else 1 - register buf n / 2 ^ (x - n) % 2

pub with_check-Agree : (buf : Buffer) (n : ℕ) → Agree n (with_check buf n) buf
unfolding with_check
with_check-Agree buf n x p = rw (lt→ltb x n p) refl

pub with_check-AreBits : (buf : Buffer) (n m : ℕ) → AreBits n buf → AreBits m (with_check buf n)
unfolding with_check
with_check-AreBits buf n m bits x p = elim (Bool-cases (ltb x n)) [
  | inl e ↦ rw e (bits x (ltb→lt x n e))
  | inr e ↦ rw e (omega arith)
]

-- The register depends on the digits before only.
pub register-Agree : (a b : Buffer) (n : ℕ) → Agree n a b → register a n ≡ register b n
unfolding register
register-Agree a b n same =
    for_range_ext (λ i. one_digit (a i)) (λ i. one_digit (b i)) n
      (λ i st p. ap (λ t. one_digit t st) (same i p)) n 0 0xffff (omega arith)

-- A message with its check behind it is accepted.
pub crc16-with_check : (buf : Buffer) (n : ℕ) → crc16 (with_check buf n) (n + 16) 1 ≡ 0
unfolding with_check
crc16-with_check buf n =
    let same = register-Agree (with_check buf n) buf n (with_check-Agree buf n) in
    crc16-sealed (with_check buf n) n (λ j p.
      let behind : ltb (n + j) n ≡ false = ground arith in
      let place : n + j - n ≡ j = omega arith in rw (behind, place, same) (omega arith))
