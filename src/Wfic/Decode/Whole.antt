-- ===== src/Wfic/Decode/Whole.antt =====
-- The chain of `fic_decode` as a whole, from transmitted blocks to the output.
use opendab.Base.{ℕ, ◌+◌, ◌*◌, ◌/◌, ◌%◌, ◌<◌, ◌≤◌, ◌≡◌, ap, ap₂, ◌∙◌, arith, Buffer, length, get_or}
use opendab.Base.Fill.{filled_by, IsGrid, grid_filled}
use opendab.Wfic.Scrambler.{scramble}
use opendab.Wfic.Decode.{
  Arrays, decode_symbols, merge_split, decode_words, split_blocks, decode_blocks, fic_decode,
}
use opendab.Wfic.Decode.Agree.{Agree, AreBits}
use opendab.Wfic.Decode.Symbol.{symbol_lem}
use opendab.Wfic.Decode.Word.{received, scramble-AreBits, word_lem}
use opendab.Wfic.Decode.Transmitter.{clear, word_of_blocks, coded, transmit}
use opendab.Wfic.Decode.Block.{good, bytes_of, IsScanned, scan_lem}
use opendab.Wfic.Decode.Reads.{length-good, good-Agree, good-lt, bytes_of-Agree}
use opendab.Wfic.Puncture.Digits.{puncture_below}

merged :
    (a : Arrays) (k i : ℕ)
    → k < 3
    → i < 3072
    → (merge_split a).data9216 (3072 * k + i) ≡ a.data_e k i
unfolding merge_split
merged a k i p q =
    grid_filled 3072 3 (λ i k. 3072 * k + i) (λ i k. a.data_e k i) columns i k a.data9216 q p
  where
    columns : IsGrid 3072 3 (λ i k. 3072 * k + i)
    columns = record {
      rows = λ i k x y p q r s e. omega (arith, p, q, r, s, e);
      row = λ i x y p q r e. omega (arith, p, q, r, e);
    }

splitted :
    (a : Arrays) (k i : ℕ)
    → i < 2304
    → (merge_split a).fic_a k i ≡ (merge_split a).data9216 (2304 * k + i)
unfolding merge_split
splitted a k i p = filled_by (λ i. (merge_split a).data9216 (2304 * k + i)) 2304 i (a.fic_a k) p

-- The encoder makes bits of bits, and the decoder finds each word in the symbols of its code.
module _ (k_viterbi : Buffer → ℕ → Buffer → Buffer) (encode : Buffer → Buffer)
    (encodes : (word : Buffer) → AreBits 768 word → AreBits 3096 (encode word))
    (decodes : (word symbols out : Buffer)
      → AreBits 768 word
      → Agree 3096 symbols (received (encode word))
      → Agree 768 (k_viterbi symbols 768 out) word)
    (blocks : ℕ → Buffer) (bits : (k : ℕ) → k < 12 → AreBits 256 (blocks k)) where
  word : ℕ → Buffer
  word = word_of_blocks blocks

  word-AreBits : (q : ℕ) → q < 4 → AreBits 768 (word q)
  unfolding word
  word-AreBits q h j p = bits (3 * q + j / 256) (omega (arith, h, p)) (j % 256) (omega arith)

  coded-AreBits : (q : ℕ) → q < 4 → (i : ℕ) → coded encode (word q) i < 2
  unfolding coded
  coded-AreBits q h =
      puncture_below (encode (scramble (word q) clear 768)) clear
        (encodes (scramble (word q) clear 768)
          (scramble-AreBits (word q) clear 768 (word-AreBits q h)))
        (λ x. omega arith)

  -- The bits that symbol `s` carries.
  carried : ℕ → Buffer
  carried s i = coded encode (word ((3072 * s + i) / 2304)) ((3072 * s + i) % 2304)

  carried-AreBits : (s : ℕ) → s < 3 → AreBits 3072 (carried s)
  unfolding carried
  carried-AreBits s h i p = coded-AreBits ((3072 * s + i) / 2304) (omega (arith, h, p)) _

  module _ (stack : Buffer) (a : Arrays) where
    symbols : Arrays
    symbols = decode_symbols (transmit encode blocks) a

    symbols_lem : (s : ℕ) → s < 3 → Agree 3072 (symbols.data_e s) (carried s)
    unfolding symbols decode_symbols transmit carried word
    symbols_lem s h =
        symbol_lem (carried s) (a.data_b s) (a.data_c s) (a.data_d s) (a.data_e s)
          (carried-AreBits s h)

    split_lem : (q : ℕ) → q < 4 → Agree 2304 ((merge_split symbols).fic_a q) (coded encode (word q))
    unfolding carried
    split_lem q h i p =
        splitted symbols q i p
        ∙ ap (merge_split symbols).data9216 (let m : 2304 * q + i ≡ 3072 * s + r = omega arith in m)
        ∙ merged symbols s r (omega (arith, h, p)) (omega arith)
        ∙ symbols_lem s (omega (arith, h, p)) r (omega arith)
        ∙ ap₂ (λ q i. coded encode (word q) i)
            (let m : (3072 * s + r) / 2304 ≡ q = omega (arith, p) in m)
            (let m : (3072 * s + r) % 2304 ≡ i = omega (arith, p) in m)
      where
        s : ℕ
        s = (2304 * q + i) / 3072

        r : ℕ
        r = (2304 * q + i) % 3072

    fib_a : ℕ → Buffer
    fib_a = (decode_blocks k_viterbi stack (transmit encode blocks) a).fib_a

    blocks_lem : (k : ℕ) → k < 12 → Agree 256 (fib_a k) (blocks k)
    unfolding fib_a decode_blocks split_blocks decode_words symbols word
    blocks_lem k h i p =
        filled_by (λ i. words.fic_d (k / 3) (256 * (k % 3) + i)) 256 i (words.fib_a k) p
        ∙ word_lem k_viterbi encode decodes stack (word (k / 3)) (merged_bits.fic_a (k / 3))
            (merged_bits.fic_b (k / 3)) (merged_bits.fic_c (k / 3)) (merged_bits.fic_d (k / 3))
            (word-AreBits (k / 3) (omega (arith, h))) (split_lem (k / 3) (omega (arith, h)))
            (256 * (k % 3) + i) (omega (arith, p))
        ∙ ap₂ (λ k i. blocks k i)
            (let m : 3 * (k / 3) + (256 * (k % 3) + i) / 256 ≡ k = omega (arith, p) in m)
            (let m : (256 * (k % 3) + i) % 256 ≡ i = omega (arith, p) in m)
      where
        merged_bits : Arrays
        merged_bits = merge_split symbols

        words : Arrays
        words = decode_words k_viterbi stack merged_bits

    good_lem : good fib_a 12 ≡ good blocks 12
    good_lem = good-Agree fib_a blocks 12 blocks_lem

  -- If the decoder finds each word of 768 bits in the symbols of its code, then of twelve blocks of bits
  -- that are transmitted `fic_decode` puts the first 30 bytes of those with a good CRC into the output,
  -- one behind the other and in their order, and returns their number.
  pub fic_decode-transmit :
      (stack obuf : Buffer) (a : Arrays)
      → IsScanned blocks obuf 12 (fic_decode k_viterbi stack (transmit encode blocks) obuf a)
  unfolding fic_decode fib_a
  fic_decode-transmit stack obuf a =
      let s =
        scan_lem (fib_a stack a) (decode_blocks k_viterbi stack (transmit encode blocks) a).fib_b
          obuf in
      let e : good (fib_a stack a) 12 ≡ good blocks 12 = good_lem stack a in
      record {
        counted = s.counted ∙ ap length e;
        pointed = s.pointed ∙ ap (λ l. 30 * length l) e;
        copied = λ n r p q.
            s.copied n r (omega (arith, p, ap length e)) q
            ∙ ap (λ l. bytes_of (fib_a stack a (get_or l n 0)) r) e
            ∙ bytes_of-Agree (fib_a stack a (get_or (good blocks 12) n 0))
                (blocks (get_or (good blocks 12) n 0)) r
                (λ i h.
                  blocks_lem stack a (get_or (good blocks 12) n 0) (good-lt blocks 12 n p) i
                    (omega (arith, h, q)));
        rest = λ x p. s.rest x (omega (arith, p, ap length e));
      }

-- Whatever the symbols are, `fic_decode` puts into the output the first 30 bytes of those of the twelve
-- decoded blocks that have a good CRC, in their order, returns their number, which is at most twelve,
-- and changes nothing behind them.
pub fic_decode_lem :
    (k_viterbi : Buffer → ℕ → Buffer → Buffer) (stack : Buffer) (symbols : ℕ → Buffer)
    (obuf : Buffer) (a : Arrays)
    → IsScanned
        (decode_blocks k_viterbi stack symbols a).fib_a
        obuf
        12
        (fic_decode k_viterbi stack symbols obuf a)
      × ((fic_decode k_viterbi stack symbols obuf a).okfibs ≤ 12)
unfolding fic_decode
fic_decode_lem k_viterbi stack symbols obuf a =
    let b = decode_blocks k_viterbi stack symbols a in
    let s = scan_lem b.fib_a b.fib_b obuf in (s, omega (arith, s.counted, length-good b.fib_a 12))
