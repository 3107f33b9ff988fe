-- ===== src/Wfic/Decode/Delivery.antt =====
-- From the transmitter's blocks to the output of `fic_decode`, where each block ends with its check.
use native.Mathlib.Decide.{dec_lt}
use opendab.Base.{
  ℕ, zero, suc, ◌+◌, ◌*◌, ◌<◌, ◌≤◌, ◌≡◌, refl, ap, ◌∙◌, arith, Buffer, [], ◌∷◌, ◌++◌, length,
  get_or, length-append, get_or-append, get_or-last,
}
use opendab.Wfic.Decode.{Arrays, Scan, crc16, fic_decode}
use opendab.Wfic.Decode.Agree.{Agree, AreBits}
use opendab.Wfic.Decode.Word.{received}
use opendab.Wfic.Decode.Transmitter.{transmit}
use opendab.Wfic.Decode.Block.{good, bytes_of}
use opendab.Wfic.Decode.Reads.{bytes_of-Agree}
use opendab.Wfic.Decode.Check.{with_check, with_check-Agree, with_check-AreBits, crc16-with_check}
use opendab.Wfic.Decode.Whole.{fic_decode-transmit}

AllGood : (ℕ → Buffer) → Type 0
AllGood f = (k : ℕ) → crc16 (f k) 256 1 ≡ 0

good_all_next : (f : ℕ → Buffer) → AllGood f → (k : ℕ) → good f (suc k) ≡ good f k ++ (k ∷ [])
unfolding good AllGood
good_all_next f all k = rw (all k) refl

length-good_all : (f : ℕ → Buffer) → AllGood f → (k : ℕ) → length (good f k) ≡ k
unfolding good
length-good_all f all zero = refl
length-good_all f all (suc k) =
    ap length (good_all_next f all k)
    ∙ omega (arith, length-append (good f k) (k ∷ []), length-good_all f all k)

get_or-good_all : (f : ℕ → Buffer) → AllGood f → (k n : ℕ) → n < k → get_or (good f k) n 0 ≡ n
get_or-good_all f all zero n p = absurd (omega arith)
get_or-good_all f all (suc k) n p =
    let count = length-good_all f all k in
    ap (λ l. get_or l n 0) (good_all_next f all k) ∙ elim (dec_lt n k) [
      | yes old ↦
          get_or-append (good f k) (k ∷ []) n 0 (omega (arith, old, count))
          ∙ get_or-good_all f all k n old
      | no new ↦
          let last : n ≡ length (good f k) = omega (arith, new, p, count) in
          ap (λ m. get_or (good f k ++ (k ∷ [])) m 0) last
          ∙ get_or-last (good f k) k 0
          ∙ omega (arith, last, count)
    ]

-- What the transmitter sends: twelve blocks of 240 digits, each with its check.
abbrev pub checked : (ℕ → Buffer) → ℕ → Buffer
checked infos k = with_check (infos k) 240

-- The output has the 30 bytes of each of the twelve, and nothing else is changed.
pub record IsDelivered (infos : ℕ → Buffer) (obuf : Buffer) (s : Scan) : Type 0 where
  pub counted : s.okfibs ≡ 12
  pub copied : (k r : ℕ) → k < 12 → r < 30 → s.obuf (30 * k + r) ≡ bytes_of (infos k) r
  pub rest : (x : ℕ) → 360 ≤ x → s.obuf x ≡ obuf x

checked-AllGood : (infos : ℕ → Buffer) → AllGood (checked infos)
unfolding AllGood
checked-AllGood infos k = crc16-with_check (infos k) 240

-- If the decoder finds each word of 768 bits in the symbols of its code, then twelve blocks of 30 bytes
-- that are transmitted with their checks all come out of `fic_decode`, in order, and nothing else is
-- changed.
pub fic_decode-checked :
    (k_viterbi : Buffer → ℕ → Buffer → Buffer) (encode : Buffer → Buffer)
    → ((word : Buffer) → AreBits 768 word → AreBits 3096 (encode word))
    → ((word symbols out : Buffer)
        → AreBits 768 word
        → Agree 3096 symbols (received (encode word))
        → Agree 768 (k_viterbi symbols 768 out) word)
    → (infos : ℕ → Buffer) → ((k : ℕ) → k < 12 → AreBits 240 (infos k))
    → (stack obuf : Buffer) (a : Arrays)
    → IsDelivered infos obuf (fic_decode k_viterbi stack (transmit encode (checked infos)) obuf a)
fic_decode-checked k_viterbi encode encodes decodes infos bits stack obuf a =
    let f = checked infos in
    let all = checked-AllGood infos in
    let count = length-good_all f all 12 in
    let s =
      fic_decode-transmit k_viterbi encode encodes decodes f
        (λ k p. with_check-AreBits (infos k) 240 256 (bits k p)) stack obuf a in
    record {
      counted = s.counted ∙ count;
      copied = λ k r p q.
          s.copied k r (omega (arith, p, count)) q
          ∙ ap (λ m. bytes_of (f m) r) (get_or-good_all f all 12 k p)
          ∙ bytes_of-Agree (f k) (infos k) r
              (λ i h. with_check-Agree (infos k) 240 i (omega (arith, h, q)));
      rest = λ x p. s.rest x (omega (arith, p, count));
    }
