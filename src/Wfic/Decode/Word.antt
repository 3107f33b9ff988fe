-- ===== src/Wfic/Decode/Word.antt =====
-- A word and its coded bits: depuncturing, decoding and descrambling.
use opendab.Base.{
  ℕ, ◌+◌, ◌/◌, ◌%◌, ◌^◌, ◌<◌, ◌≡◌, refl, sym, ap, ◌∙◌, arith, bit_xor, ltb, ltb→lt, if◌then◌else◌,
  Buffer, store, for_range, Bool-cases, inl, inr,
}
use opendab.Base.Fill.{filled_by}
use opendab.Base.Bits.{bit_xor-lt}
use opendab.Wfic.Scrambler.{scramble, prbs, prbs-lt, scramble-within, scramble_twice}
use opendab.Wfic.Puncture.{depuncture}
use opendab.Wfic.Puncture.Places.{width, place, place_lt}
use opendab.Wfic.Puncture.RoundTrip.{depuncture_lem, depuncture-puncture}
use opendab.Wfic.Decode.{soft, viterbi}
use opendab.Wfic.Decode.Agree.{Agree, AreBits}
use opendab.Wfic.Decode.Transmitter.{clear, coded}

-- Scrambling reads no other bits than those it scrambles.
scramble-Agree :
    (a b out out' : Buffer) (n : ℕ) → Agree n a b → Agree n (scramble a out n) (scramble b out' n)
scramble-Agree a b out out' n h i p =
    scramble-within a out n i p
    ∙ ap (λ t. bit_xor t (prbs i) % 2 ^ 8) (h i p)
    ∙ sym (scramble-within b out' n i p)

pub scramble-AreBits :
    (word out : Buffer) (n : ℕ) → AreBits n word → AreBits n (scramble word out n)
scramble-AreBits word out n h i p =
    omega
      (arith, scramble-within word out n i p, bit_xor-lt 1 (word i) (prbs i) (h i p) (prbs-lt i))

-- Depuncturing reads no other than the 2304 bits that puncturing stores.
depuncture-Agree :
    (a b out out' : Buffer) → Agree 2304 a b → Agree 3096 (depuncture a out) (depuncture b out')
depuncture-Agree a b out out' h i p =
    depuncture_lem a out i p
    ∙ elim (Bool-cases (ltb (i % 4) (width (i / 4)))) [
      | inl e ↦ rw e (h (place (i / 4) + i % 4) (below (ltb→lt _ _ e)))
      | inr e ↦ rw e refl
    ]
    ∙ sym (depuncture_lem b out' i p)
  where
    below : i % 4 < width (i / 4) → place (i / 4) + i % 4 < 2304
    below q =
        let end : place 774 ≡ 2304 = unfold place in refl in
        omega (arith, end, place_lt (i / 4) (i % 4) 774 (omega (arith, p)) (omega arith) q)

-- The symbols that a decoder gets of a code word: 128 for each digit that is not sent.
abbrev pub received : Buffer → Buffer
received code i = if ltb (i % 4) (width (i / 4)) then soft (code i) else 128

-- The decoder finds each word in the symbols of its code.
module _ (k_viterbi : Buffer → ℕ → Buffer → Buffer) (encode : Buffer → Buffer)
    (decodes : (word symbols out : Buffer)
      → AreBits 768 word
      → Agree 3096 symbols (received (encode word))
      → Agree 768 (k_viterbi symbols 768 out) word) where
  module _ (stack word fa fb : Buffer) where
    scrambled : Buffer
    scrambled = scramble word clear 768

    symbols : Buffer
    symbols = for_range 3096 0 (λ i b. store b i (soft (depuncture fa fb i))) stack

    symbols_lem :
        Agree 2304 fa (coded encode word) → Agree 3096 symbols (received (encode scrambled))
    unfolding symbols coded scrambled
    symbols_lem h i p =
        filled_by (λ i. soft (depuncture fa fb i)) 3096 i stack p
        ∙ ap soft (
            depuncture-Agree fa (coded encode word) fb clear h i p
            ∙ depuncture-puncture (encode (scramble word clear 768)) clear clear i p)
        ∙ elim (Bool-cases (ltb (i % 4) (width (i / 4)))) [
          | inl e ↦ rw e refl
          | inr e ↦ rw e erased
        ]
      where
        erased : soft 8 ≡ 128
        erased = unfold soft in refl

    pub word_lem :
        (fc fd : Buffer)
        → AreBits 768 word
        → Agree 2304 fa (coded encode word)
        → Agree 768 (scramble (viterbi k_viterbi stack (depuncture fa fb) 3096 fc) fd 768) word
    unfolding viterbi symbols scrambled
    word_lem fc fd bits h i p =
        scramble-Agree (k_viterbi symbols 768 fc) scrambled fd fd 768
          (decodes scrambled symbols fc (scramble-AreBits word clear 768 bits) (symbols_lem h)) i p
        ∙ scramble_twice word clear fd 768 i p (omega (arith, bits i p))
