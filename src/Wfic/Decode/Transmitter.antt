-- ===== src/Wfic/Decode/Transmitter.antt =====
-- The transmitter's side, for the statements: how blocks of bits become the bytes of three symbols.
-- The convolutional encoder is a parameter, as the decoder is.
use opendab.Base.{ℕ, ◌+◌, ◌*◌, ◌/◌, ◌%◌, Buffer}
use opendab.Wfic.Order.{bit_to_byte, bitswap16}
use opendab.Wfic.Scrambler.{scramble}
use opendab.Wfic.Puncture.{puncture}
use opendab.Wfic.Interleaver.{qpsk_symbol_mapper, frequency_interleaver}

abbrev pub clear : Buffer
clear i = 0

-- A symbol as the device sends it: mapped, interleaved, each word's highest bit first.
unfoldable pub symbol_of_bits : Buffer → Buffer
symbol_of_bits p =
    bit_to_byte 0 (bitswap16 (frequency_interleaver (qpsk_symbol_mapper p clear) clear) clear 3072)
      3072 clear

-- The three blocks of word `k`, end to end.
abbrev pub word_of_blocks : (ℕ → Buffer) → ℕ → Buffer
word_of_blocks blocks k j = blocks (3 * k + j / 256) (j % 256)

-- A word scrambled, encoded and punctured.
unfoldable pub coded : (Buffer → Buffer) → Buffer → Buffer
coded encode word = puncture (encode (scramble word clear 768)) clear

-- The four coded words end to end, as three symbols.
unfoldable pub transmit : (Buffer → Buffer) → (ℕ → Buffer) → ℕ → Buffer
transmit encode blocks s =
    symbol_of_bits
      (λ i. coded encode (word_of_blocks blocks ((3072 * s + i) / 2304)) ((3072 * s + i) % 2304))
