-- ===== src/Wfic/Decode/Reads.antt =====
-- What of the bits of its blocks the last loop reads.
use native.Mathlib.Decide.{dec_lt}
use opendab.Base.{
  ℕ, zero, suc, ◌+◌, ◌-◌, ◌*◌, ◌/◌, ◌^◌, ◌<◌, ◌≤◌, ◌≡◌, refl, ap, ap₂, arith, ◌==◌, if◌then◌else◌,
  Buffer, for_range, for_range_ext, [], ◌∷◌, ◌++◌, length, get_or, get_or-append, get_or-last,
  length-append, Bool-cases, inl, inr,
}
use opendab.Wfic.Decode.{crc16_round, crc16}
use opendab.Wfic.Decode.Agree.{Agree}
use opendab.Wfic.Decode.Block.{good, bytes_of}

abbrev one_digit : ℕ → ℕ → ℕ
one_digit t crc = for_range 1 0 (λ j crc. crc16_round crc (t / 2 ^ (1 - 1 - j))) crc

crc16-Agree : (a b : Buffer) → Agree 256 a b → crc16 a 256 1 ≡ crc16 b 256 1
unfolding crc16
crc16-Agree a b h =
    ap (λ (crc : ℕ). if crc == 0xf0b8 then 0 else 1)
      (for_range_ext (λ i. one_digit (a i)) (λ i. one_digit (b i)) 256
        (λ i crc p. ap (λ t. one_digit t crc) (h i p)) 256 0 0xffff (omega arith))

pub bytes_of-Agree : (a b : Buffer) (r : ℕ) → Agree (8 * r + 8) a b → bytes_of a r ≡ bytes_of b r
unfolding bytes_of
bytes_of-Agree a b r h =
    rw
      (
        h (8 * r + 0) (omega arith),
        h (8 * r + 1) (omega arith),
        h (8 * r + 2) (omega arith),
        h (8 * r + 3) (omega arith),
        h (8 * r + 4) (omega arith),
        h (8 * r + 5) (omega arith),
        h (8 * r + 6) (omega arith),
        h (8 * r + 7) (omega arith),
      )
      refl

pub good-Agree :
    (f g : ℕ → Buffer) (n : ℕ) → ((k : ℕ) → k < n → Agree 256 (f k) (g k)) → good f n ≡ good g n
unfolding good
good-Agree f g zero h = refl
good-Agree f g (suc n) h =
    ap₂ (λ l (e : ℕ). if e == 0 then l ++ (n ∷ []) else l)
      (good-Agree f g n (λ k p. h k (omega arith))) (crc16-Agree (f n) (g n) (h n (omega arith)))

-- Good blocks are among those that are looked at.
pub good-lt : (f : ℕ → Buffer) (k n : ℕ) → n < length (good f k) → get_or (good f k) n 0 < k
unfolding good
good-lt f zero n h = absurd (omega (arith, h))
good-lt f (suc k) n h = elim (Bool-cases (crc16 (f k) 256 1 == 0)) [
  | inl e ↦ rw e (elim (dec_lt n (length (good f k))) [
    | yes old ↦ rw (get_or-append (good f k) (k ∷ []) n 0 old) (omega (arith, good-lt f k n old))
    | no new ↦
        let last : n ≡ length (good f k) =
          omega (arith, new, rw e at h, length-append (good f k) (k ∷ [])) in
        rw (last, get_or-last (good f k) k 0) (omega arith)
  ])
  | inr e ↦ rw e (omega (arith, good-lt f k n (rw e at h)))
]

pub length-good : (f : ℕ → Buffer) (k : ℕ) → length (good f k) ≤ k
unfolding good
length-good f zero = omega arith
length-good f (suc k) = elim (Bool-cases (crc16 (f k) 256 1 == 0)) [
  | inl e ↦ rw e (omega (arith, length-good f k, length-append (good f k) (k ∷ [])))
  | inr e ↦ rw e (omega (arith, length-good f k))
]
