-- ===== src/Device/Tuning.antt =====
-- The dividers that the tuner takes from the last message.
use opendab.Base.{
  ℕ, zero, suc, ◌+◌, ◌*◌, ◌/◌, ◌%◌, ◌^◌, ◌<◌, ◌≡◌, refl, ap, ap₂, ◌∙◌, arith, Bool, true, ◌==◌,
  ==_iff, ltb, ltb→lt, List, [], ◌∷◌, bit_or, for_range, holding,
}
use opendab.Base.Bits.{bit_or_disjoint, bit_and_mask}
use opendab.Base.Check.{all_below, all_below_sound}
use opendab.Bytes.{load_int}
use opendab.Device.{Event, sent, pause, wf_usb_ctrl_msg, wf_tune_msg, reverse_bits, wf_tune, byte}

-- A counter of `len` bits that comes in with its lowest bit first, so in the highest place.
unfoldable pub lowest_first : ℕ → ℕ → ℕ
lowest_first zero op = 0
lowest_first (suc len) op = op / 2 ^ len % 2 + 2 * lowest_first len op

read_7 : all_below 128 (λ x. lowest_first 7 (reverse_bits x 7) == x) ≡ true
unfolding all_below reverse_bits for_range lowest_first
read_7 = refl

read_11 : all_below 2048 (λ x. lowest_first 11 (reverse_bits x 11) == x) ≡ true
unfolding all_below reverse_bits for_range lowest_first
read_11 = refl

below_7 : all_below 128 (λ x. ltb (reverse_bits x 7) 128) ≡ true
unfolding all_below reverse_bits for_range
below_7 = refl

below_11 : all_below 2048 (λ x. ltb (reverse_bits x 11) 2048) ≡ true
unfolding all_below reverse_bits for_range
below_11 = refl

reversed_7 : (x : ℕ) → x < 128 → (lowest_first 7 (reverse_bits x 7) ≡ x) × (reverse_bits x 7 < 128)
reversed_7 x h = (
  (==_iff _ _).0 (all_below_sound 128 (λ x. lowest_first 7 (reverse_bits x 7) == x) x read_7 h),
  ltb→lt _ _ (all_below_sound 128 (λ x. ltb (reverse_bits x 7) 128) x below_7 h),
)

reversed_11 :
    (x : ℕ) → x < 2048 → (lowest_first 11 (reverse_bits x 11) ≡ x) × (reverse_bits x 11 < 2048)
reversed_11 x h = (
  (==_iff _ _).0 (all_below_sound 2048 (λ x. lowest_first 11 (reverse_bits x 11) == x) x read_11 h),
  ltb→lt _ _ (all_below_sound 2048 (λ x. ltb (reverse_bits x 11) 2048) x below_11 h),
)

-- The data of the last message.
abbrev pub last_data : List Event → List ℕ
last_data [] = []
last_data (sent m ∷ []) = m.bytes
last_data (pause n ∷ []) = []
last_data (e ∷ f ∷ es) = last_data (f ∷ es)

-- The register that a message loads.
abbrev pub register : List ℕ → ℕ
register bytes = load_int (holding bytes)

-- What the synthesizer LMX1511 divides by, with the prescaler 64: each counter comes in with its lowest
-- bit first.
abbrev pub divider : ℕ → ℕ
divider reg = lowest_first 11 (reg % 2 ^ 11) * 64 + lowest_first 7 (reg / 2 ^ 11)

-- The register of the last message.
counters : ℕ → ℕ
counters f_vco = bit_or (reverse_bits (f_vco % 64) 7 * 2 ^ 11) (reverse_bits (f_vco / 64) 11)

counters_lem :
    (f_vco : ℕ)
    → f_vco < 2 ^ 17
    → counters f_vco ≡ reverse_bits (f_vco % 64) 7 * 2 ^ 11 + reverse_bits (f_vco / 64) 11
unfolding counters
counters_lem f_vco h =
    bit_or_disjoint 11 (reverse_bits (f_vco % 64) 7) (reverse_bits (f_vco / 64) 11)
      (reversed_11 (f_vco / 64) (omega (arith, h))).1

-- The four bytes of a register.
register_lem :
    (n : ℕ) → n < 2 ^ 32 → byte n 0 + byte n 8 * 2 ^ 8 + byte n 16 * 2 ^ 16 + byte n 24 * 2 ^ 24 ≡ n
register_lem n h = omega (
  arith,
  h,
  bit_and_mask 8 (n / 2 ^ 0),
  bit_and_mask 8 (n / 2 ^ 8),
  bit_and_mask 8 (n / 2 ^ 16),
  bit_and_mask 8 (n / 2 ^ 24),
)

-- For each frequency that fits into the counters, the last message of `wf_tune` makes the tuner divide
-- by it, in units of the reference frequency.
pub wf_tune-divider :
    (lband : Bool) (f_vco : ℕ)
    → f_vco < 2 ^ 17
    → divider (register (last_data (wf_tune lband f_vco))) ≡ f_vco
unfolding wf_tune wf_tune_msg wf_usb_ctrl_msg counters
wf_tune-divider lband f_vco h =
    ap divider (register_lem (counters f_vco) (omega (arith, whole, low, high)))
    ∙ ap₂ (λ b a. lowest_first 11 b * 64 + lowest_first 7 a)
        (let e : counters f_vco % 2 ^ 11 ≡ reverse_bits (f_vco / 64) 11 =
            omega (arith, whole, low) in
          e)
        (let e : counters f_vco / 2 ^ 11 ≡ reverse_bits (f_vco % 64) 7 =
            omega (arith, whole, low) in
          e)
    ∙ ap₂ (λ (b a : ℕ). b * 64 + a) (reversed_11 (f_vco / 64) (omega (arith, h))).0
        (reversed_7 (f_vco % 64) (omega arith)).0
    ∙ omega arith
  where
    whole : counters f_vco ≡ reverse_bits (f_vco % 64) 7 * 2 ^ 11 + reverse_bits (f_vco / 64) 11
    whole = counters_lem f_vco h

    low : reverse_bits (f_vco / 64) 11 < 2048
    low = (reversed_11 (f_vco / 64) (omega (arith, h))).1

    high : reverse_bits (f_vco % 64) 7 < 128
    high = (reversed_7 (f_vco % 64) (omega arith)).1
