-- ===== src/Wfic/Decode.antt =====
-- src/wfic/wfic.c, fic_decode: the chain that decodes the symbols of the Fast Information Channel to
-- blocks, crc16 of a block, and `viterbi` of src/wfic/viterbi.c. The decoder itself, `k_viterbi`, is a
-- parameter: from the symbols, the number of bits and the output it gives the output. The log files
-- are left out, and so is the table that `init_viterbi` makes for the decoder. Three or four calls in
-- turn, each on its own arrays, are written as a family over the number of the array.
pub mod Agree
pub mod Symbol
pub mod Word
pub mod Block
pub mod Reads
pub mod Transmitter
pub mod Whole
pub mod Check
pub mod Unique
pub mod Delivery
mod Examples
use opendab.Base.{
  ℕ, ◌+◌, ◌-◌, ◌*◌, ◌/◌, ◌%◌, ◌^◌, bit_and, bit_xor, ◌==◌, if◌then◌else◌, Buffer, store, for_range,
  memcpy,
}
use opendab.Wfic.Order.{byte_to_bit, bit_to_byte, bitswap16}
use opendab.Wfic.Scrambler.{scramble}
use opendab.Wfic.Puncture.{depuncture}
use opendab.Wfic.Interleaver.{qpsk_symbol_demapper, frequency_deinterleaver}

-- A round of the inner loop on the digit `t` of the message; `crc` is an unsigned short.
pub crc16_round : ℕ → ℕ → ℕ
crc16_round crc t =
    let c15 = bit_xor (bit_and crc 1) (bit_and t 1) in
    if c15 == 0 then crc / 2 else bit_xor (crc / 2) 0x8408

-- 0 for a good message.
pub crc16 : Buffer → ℕ → ℕ → ℕ
crc16 buf len width =
    let crc =
      for_range len 0
        (λ i crc. for_range width 0 (λ j crc. crc16_round crc (buf i / 2 ^ (width - 1 - j))) crc)
        0xffff in
    if crc == 0xf0b8 then 0 else 1

-- A digit as a symbol: 1 is 129, 0 is 127, and 128 is in place of a digit that was punctured.
pub soft : ℕ → ℕ
soft t = if t == 1 then 128 + 1 else if t == 0 then 128 - 1 else 128

-- The array of symbols is on the stack; `stack` is what it held.
pub viterbi : (Buffer → ℕ → Buffer → Buffer) → Buffer → Buffer → ℕ → Buffer → Buffer
viterbi k_viterbi stack ibuf ilen obuf =
    k_viterbi (for_range ilen 0 (λ i b. store b i (soft (ibuf i))) stack) (ilen / 4 - (7 - 1)) obuf

-- The global arrays: `data_b 0` is `data2b`, `data_b 1` is `data3b`, `data_b 2` is `data4b`.
pub record Arrays : Type 0 where
  pub data_b : ℕ → Buffer
  pub data_c : ℕ → Buffer
  pub data_d : ℕ → Buffer
  pub data_e : ℕ → Buffer
  pub data9216 : Buffer
  pub fic_a : ℕ → Buffer
  pub fic_b : ℕ → Buffer
  pub fic_c : ℕ → Buffer
  pub fic_d : ℕ → Buffer
  pub fib_a : ℕ → Buffer
  pub fib_b : ℕ → Buffer

-- From the bytes of each symbol to its bits in order.
pub decode_symbols : (ℕ → Buffer) → Arrays → Arrays
decode_symbols sym a =
    let data_b = λ (i : ℕ). byte_to_bit 0 (sym i) 384 (a.data_b i) in
    let data_c = λ (i : ℕ). bitswap16 (data_b i) (a.data_c i) 3072 in
    let data_d = λ (i : ℕ). frequency_deinterleaver (data_c i) (a.data_d i) in
    let data_e = λ (i : ℕ). qpsk_symbol_demapper (data_d i) (a.data_e i) in
    record a { data_b = data_b; data_c = data_c; data_d = data_d; data_e = data_e }

-- Merge to one vector of 9216 bits, and split that into four of 2304.
pub merge_split : Arrays → Arrays
merge_split a =
    let data9216 =
      for_range 3072 0 (λ i b. for_range 3 0 (λ k b. store b (3072 * k + i) (a.data_e k i)) b)
        a.data9216 in
    let fic_a =
      λ (k : ℕ). for_range 2304 0 (λ i b. store b i (data9216 (2304 * k + i))) (a.fic_a k) in
    record a { data9216 = data9216; fic_a = fic_a }

-- Depuncture, decode and descramble each of the four.
pub decode_words : (Buffer → ℕ → Buffer → Buffer) → Buffer → Arrays → Arrays
decode_words k_viterbi stack a =
    let fic_b = λ (k : ℕ). depuncture (a.fic_a k) (a.fic_b k) in
    let fic_c = λ (k : ℕ). viterbi k_viterbi stack (fic_b k) 3096 (a.fic_c k) in
    let fic_d = λ (k : ℕ). scramble (fic_c k) (a.fic_d k) 768 in
    record a { fic_b = fic_b; fic_c = fic_c; fic_d = fic_d }

-- Split each of the four into three blocks.
pub split_blocks : Arrays → Arrays
split_blocks a = record a {
  fib_a = λ (k : ℕ).
      for_range 256 0 (λ i b. store b i (a.fic_d (k / 3) (256 * (k % 3) + i))) (a.fib_a k);
}

-- The variables of the last loop: `optr` as the offset into `obuf`.
pub record Scan : Type 0 where
  pub fib_b : ℕ → Buffer
  pub optr : ℕ
  pub obuf : Buffer
  pub okfibs : ℕ

pub set_block : (ℕ → Buffer) → ℕ → Buffer → ℕ → Buffer
set_block f k b i = if i == k then b else f i

-- A round: the block is put together to bytes, and its first 30 are kept if its CRC is good.
pub scan_block : (ℕ → Buffer) → ℕ → Scan → Scan
scan_block fib_a i s =
    let err = crc16 (fib_a i) 256 1 in
    let bytes = bit_to_byte 1 (fib_a i) 256 (s.fib_b i) in
    let s = record s { fib_b = set_block s.fib_b i bytes } in
    if err == 0
    then record s {
      obuf = memcpy s.obuf s.optr bytes 30;
      optr = s.optr + 30;
      okfibs = s.okfibs + 1;
    }
    else s

pub decode_blocks : (Buffer → ℕ → Buffer → Buffer) → Buffer → (ℕ → Buffer) → Arrays → Arrays
decode_blocks k_viterbi stack sym a =
    split_blocks (decode_words k_viterbi stack (merge_split (decode_symbols sym a)))

-- `sym 0`, `sym 1` and `sym 2` are `sym2`, `sym3` and `sym4`.
pub fic_decode : (Buffer → ℕ → Buffer → Buffer) → Buffer → (ℕ → Buffer) → Buffer → Arrays → Scan
fic_decode k_viterbi stack sym obuf a =
    let a = decode_blocks k_viterbi stack sym a in
    for_range 12 0 (scan_block a.fib_a)
      (record { fib_b = a.fib_b; optr = 0; obuf = obuf; okfibs = 0 })
