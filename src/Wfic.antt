-- ===== src/Wfic.antt =====
-- The decoder library of src/wfic: energy dispersal, QPSK and frequency deinterleaving, bit order,
-- puncturing, the Viterbi decoder, and the chain that decodes the Fast Information Channel.
-- An output buffer is memory that goes in with what it held and comes out with what was stored.
pub mod Scrambler
pub mod Order
pub mod Puncture
pub mod Interleaver
pub mod Decode
mod Examples
