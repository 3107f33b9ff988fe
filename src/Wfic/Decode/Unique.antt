-- ===== src/Wfic/Decode/Unique.antt =====
-- src/wfic/wfic.c, crc16: only the right check is accepted.
use native.Mathlib.Decide.{dec_lt}
use opendab.Base.{
  ℕ, ◌⊎◌, ==_iff, ◌↔◌, zero, suc, ◌+◌, ◌-◌, ◌/◌, ◌%◌, ◌^◌, ◌<◌, ◌≤◌, ◌≡◌, refl, sym, ap, ◌∙◌, arith,
  bit_xor, ◌==◌, Bool, if◌then◌else◌, Buffer, for_range, for_range-append, Bool-cases, inl, inr,
  true, false,
}
use opendab.Base.Bits.{
  bit_xor-div, div_pow_suc, div-pow_add, bit_xor-zero, zero-bit_xor, bit_xor_twice,
}
use opendab.Wfic.Decode.{crc16_round, crc16}
use opendab.Wfic.Decode.Agree.{Agree, AreBits}
use opendab.Wfic.Decode.Check.{
  one_digit, register, round_lem, one_round, register-below, round-below, with_check,
  with_check-Agree, with_check-AreBits, crc16-with_check, register-Agree,
}

-- Whether a round leaves the polynomial out.
abbrev is_even : ℕ → ℕ → Bool
is_even c t = (c + t) % 2 == 0

-- The polynomial or nothing.
abbrev taken : ℕ → ℕ → ℕ
taken c t = if is_even c t then 0 else 0x8408

round_taken : (c t : ℕ) → crc16_round c t ≡ bit_xor (c / 2) (taken c t)
round_taken c t = round_lem c t ∙ elim (Bool-cases (is_even c t)) [
  | inl e ↦ rw e (sym (bit_xor-zero (c / 2)))
  | inr e ↦ rw e refl
]

-- The top digit of the register tells which.
top : (c t : ℕ) → c < 2 ^ 16 → crc16_round c t / 2 ^ 15 ≡ (if is_even c t then 0 else 1)
top c t h =
    let low : c / 2 / 2 ^ 15 ≡ 0 = omega (arith, h) in
    ap (λ (x : ℕ). x / 2 ^ 15) (round_taken c t)
    ∙ bit_xor-div 15 (c / 2) (taken c t)
    ∙ ap (λ (x : ℕ). bit_xor x (taken c t / 2 ^ 15)) low
    ∙ zero-bit_xor (taken c t / 2 ^ 15)
    ∙ elim (Bool-cases (is_even c t)) [ inl e ↦ rw e refl | inr e ↦ rw e refl ]

further : (x y m : ℕ) → m ≤ 15 → x / 2 ^ m ≡ y / 2 ^ m → x / 2 ^ 15 ≡ y / 2 ^ 15
further x y m p e =
    let all : m + (15 - m) ≡ 15 = omega (arith, p) in
    ap (λ (k : ℕ). x / 2 ^ k) (sym all)
    ∙ sym (div-pow_add x m (15 - m))
    ∙ ap (λ (z : ℕ). z / 2 ^ (15 - m)) e
    ∙ div-pow_add y m (15 - m)
    ∙ ap (λ (k : ℕ). y / 2 ^ k) all

told : (a b : Bool) → ◌≡◌ {A = ℕ} (if a then 0 else 1) (if b then 0 else 1) → a ≡ b
told true true e = refl
told true false e = absurd (omega (arith, e))
told false true e = absurd (omega (arith, e))
told false false e = refl

same_top :
    (c c' t t' m : ℕ)
    → c < 2 ^ 16
    → c' < 2 ^ 16
    → m ≤ 15
    → crc16_round c t / 2 ^ m ≡ crc16_round c' t' / 2 ^ m
    → is_even c t ≡ is_even c' t'
same_top c c' t t' m h h' p e =
    told (is_even c t) (is_even c' t')
      (sym (top c t h) ∙ further (crc16_round c t) (crc16_round c' t') m p e ∙ top c' t' h')

back :
    (c c' t t' m : ℕ)
    → c < 2 ^ 16
    → c' < 2 ^ 16
    → m ≤ 15
    → crc16_round c t / 2 ^ m ≡ crc16_round c' t' / 2 ^ m
    → c / 2 ^ suc m ≡ c' / 2 ^ suc m
back c c' t t' m h h' p e =
    let k = taken c t / 2 ^ m in
    let same : taken c' t' / 2 ^ m ≡ k =
      ap (λ (b : Bool). (if b then 0 else 0x8408) / 2 ^ m) (sym (same_top c c' t t' m h h' p e)) in
    let split = λ (c t : ℕ).
      ap (λ (x : ℕ). x / 2 ^ m) (round_taken c t) ∙ bit_xor-div m (c / 2) (taken c t) in
    let sums : bit_xor (c / 2 / 2 ^ m) k ≡ bit_xor (c' / 2 / 2 ^ m) k =
      sym (split c t) ∙ e ∙ split c' t' ∙ ap (bit_xor (c' / 2 / 2 ^ m)) same in
    div_pow_suc c m
    ∙ sym (bit_xor_twice (c / 2 / 2 ^ m) k)
    ∙ ap (λ (x : ℕ). bit_xor x k) sums
    ∙ bit_xor_twice (c' / 2 / 2 ^ m) k
    ∙ sym (div_pow_suc c' m)

ℕ_cases : (j : ℕ) → (j ≡ 0) ⊎ ((k : ℕ) × (j ≡ k + 1))
ℕ_cases zero = inl refl
ℕ_cases (suc k) = inr (k, omega arith)

rounds : Buffer → ℕ → ℕ → ℕ → ℕ
rounds buf i zero c = c
rounds buf i (suc m) c = rounds buf (i + 1) m (crc16_round c (buf i))

rounds-back :
    (a b : Buffer) (i m c c' : ℕ)
    → m ≤ 16
    → c < 2 ^ 16
    → c' < 2 ^ 16
    → rounds a i m c ≡ rounds b i m c'
    → c / 2 ^ m ≡ c' / 2 ^ m
unfolding rounds
rounds-back a b i zero c c' p h h' e = ap (λ (x : ℕ). x / 2 ^ 0) e
rounds-back a b i (suc m) c c' p h h' e = back c c' (a i) (b i) m h h' (omega (arith, p)) (
    rounds-back a b (i + 1) m (crc16_round c (a i)) (crc16_round c' (b i)) (omega (arith, p))
      (round-below c (a i) h) (round-below c' (b i) h') e)

even_digits : (c t t' : ℕ) → t < 2 → t' < 2 → is_even c t ≡ is_even c t' → t ≡ t'
even_digits c t t' p p' e = ground (arith, e, p, p')

-- From one register, at most 16 digits are told from others by the register behind them.
rounds_injective :
    (a b : Buffer) (i m c : ℕ)
    → AreBits (i + m) a
    → AreBits (i + m) b
    → m ≤ 16
    → c < 2 ^ 16
    → rounds a i m c ≡ rounds b i m c
    → (j : ℕ) → j < m
    → a (i + j) ≡ b (i + j)
unfolding rounds
rounds_injective a b i zero c da db p h e j q = absurd (omega (arith, q))
rounds_injective a b i (suc m) c da db p h e j q = elim (ℕ_cases j) [
  | inl none ↦ let at : i + j ≡ i = omega (arith, none) in rw at first
  | inr (k, more) ↦
      let at : i + j ≡ i + 1 + k = omega (arith, more) in
      rw at (
        rounds_injective a b (i + 1) m (crc16_round c (a i)) (λ x u. da x (omega (arith, u)))
          (λ x u. db x (omega (arith, u))) (omega (arith, p)) (round-below c (a i) h)
          (e ∙ ap (λ t. rounds b (i + 1) m (crc16_round c t)) (sym first)) k
          (omega (arith, more, q)))
]
  where
    first : a i ≡ b i
    first = even_digits c (a i) (b i) (da i (omega arith)) (db i (omega arith)) (
        same_top c c (a i) (b i) m h h (omega (arith, p)) (
          rounds-back a b (i + 1) m (crc16_round c (a i)) (crc16_round c (b i)) (omega (arith, p))
            (round-below c (a i) h) (round-below c (b i) h) e))

rounds_lem :
    (buf : Buffer) (m i c : ℕ) → for_range m i (λ i. one_digit (buf i)) c ≡ rounds buf i m c
unfolding rounds for_range
rounds_lem buf zero i c = refl
rounds_lem buf (suc m) i c =
    ap (for_range m (i + 1) (λ i. one_digit (buf i))) (one_round (buf i) c)
    ∙ rounds_lem buf m (i + 1) (crc16_round c (buf i))

register_split : (buf : Buffer) (n : ℕ) → register buf (n + 16) ≡ rounds buf n 16 (register buf n)
unfolding register
register_split buf n =
    for_range-append (λ i. one_digit (buf i)) n 16 0 0xffff
    ∙ ap (λ k. for_range 16 k (λ i. one_digit (buf i)) (register buf n))
        (let e : 0 + n ≡ n = omega arith in e)
    ∙ rounds_lem buf 16 n (register buf n)

crc16-register :
    (buf : Buffer) (n : ℕ) → crc16 buf n 1 ≡ (if register buf n == 0xf0b8 then 0 else 1)
unfolding crc16 register
crc16-register buf n = refl

accepted : (buf : Buffer) (n : ℕ) → crc16 buf n 1 ≡ 0 → register buf n ≡ 0xf0b8
accepted buf n e = elim (Bool-cases (register buf n == 0xf0b8)) [
  | inl good ↦ (==_iff (register buf n) 0xf0b8).0 good
  | inr bad ↦
      let one : crc16 buf n 1 ≡ 1 = crc16-register buf n ∙ rw bad refl in
      absurd (omega (arith, e, one))
]

-- A message of `n` digits and 16 more is accepted exactly if the 16 are the check that the transmitter puts
-- behind the `n`: the complement of the register after them, the lowest digit first.
pub crc16_iff :
    (buf : Buffer) (n : ℕ)
    → AreBits (n + 16) buf
    → (crc16 buf (n + 16) 1 ≡ 0) ↔ Agree (n + 16) buf (with_check buf n)
crc16_iff buf n bits = (
  only,
  λ same.
      crc16-register buf (n + 16)
      ∙ ap (λ (c : ℕ). if c == 0xf0b8 then 0 else 1)
          (register-Agree buf (with_check buf n) (n + 16) same)
      ∙ sym (crc16-register (with_check buf n) (n + 16))
      ∙ crc16-with_check buf n,
)
  where
    only : crc16 buf (n + 16) 1 ≡ 0 → Agree (n + 16) buf (with_check buf n)
    only good x p = elim (dec_lt x n) [
      | yes in_message ↦ sym (with_check-Agree buf n x in_message)
      | no behind ↦
          let at : n + (x - n) ≡ x = omega (arith, behind) in
          rw at at (
            rounds_injective buf (with_check buf n) n 16 (register buf n) bits
              (with_check-AreBits buf n (n + 16) (λ i q. bits i (omega (arith, q)))) (omega arith)
              (register-below buf n)
              (sym (register_split buf n)
                ∙ accepted buf (n + 16) good
                ∙ sym (accepted (with_check buf n) (n + 16) (crc16-with_check buf n))
                ∙ register_split (with_check buf n) n
                ∙ ap (rounds (with_check buf n) n 16)
                    (register-Agree (with_check buf n) buf n (with_check-Agree buf n)))
              (x - n) (omega (arith, p, behind)))
    ]
