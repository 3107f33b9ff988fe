-- ===== src/Msc/Receive.antt =====
-- `freq_deinterleave` and `msc_assemble` of src/wfmsc.c: from the bytes of a symbol to the circular
-- buffer.
pub mod Bits
pub mod Step
pub mod Whole
pub mod Ranges
use opendab.Base.{
  ℕ, ◌+◌, ◌-◌, ◌*◌, ◌%◌, ◌^◌, Bool, true, false, not, ◌&&◌, ◌==◌, ltb, leb, if◌then◌else◌, Buffer,
  shift, for_range,
}
use opendab.Figs.{Symrange, bits_per_sym}
use opendab.Wfic.Order.{byte_to_bit, bitswap16}
use opendab.Wfic.Interleaver.{frequency_deinterleaver, qpsk_symbol_demapper}
use opendab.Msc.{Ring, reset_cbuf, wcbuf}

-- The local arrays `bbuf` and `dbuf` hold anything at first.
pub freq_deinterleave : Buffer → Buffer → Buffer → Buffer → Buffer
freq_deinterleave bbuf dbuf obuf cbuf =
    let bbuf = byte_to_bit 0 cbuf 384 bbuf in
    let dbuf = bitswap16 bbuf dbuf (384 * 8) in
    qpsk_symbol_demapper (frequency_deinterleaver dbuf bbuf) obuf

-- The static variables, of which `cifcnt` is an unsigned int, and `buffer_full`.
pub record Reception : Type 0 where
  pub ring : Ring
  pub cur_frame : ℕ
  pub cifcnt : ℕ
  pub buffer_full : Bool

-- `freq_deinterleave(fbuf, symbuf+12); buffer_full = wcbuf(fbuf, BITSPERSYM, sr, 0);`, with `junk` for
-- the local arrays.
pub put_symbol : Buffer → Buffer → Symrange → Reception → Reception
put_symbol junk symbuf sr s =
    let (ring, full) =
      wcbuf (freq_deinterleave junk junk junk (shift symbuf 12)) bits_per_sym sr s.ring in
    record s { ring = ring; buffer_full = full }

-- A symbol of a range: of another frame, it resets the buffer.
pub take_symbol : Buffer → Buffer → Symrange → Reception → Reception
take_symbol junk symbuf sr s =
    if not (symbuf 3 == s.cur_frame)
    then record s { ring = reset_cbuf s.ring }
    else put_symbol junk symbuf sr s

-- The rounds of the two loops.
pub first_of_range : Buffer → Buffer → Symrange → ℕ → Reception → Reception
first_of_range junk symbuf sr j s =
    if symbuf 2 == sr.start j then take_symbol junk symbuf sr s else s

pub rest_of_range : Buffer → Buffer → Symrange → ℕ → Reception → Reception
rest_of_range junk symbuf sr j s =
    let taken = take_symbol junk symbuf sr s in
    if ltb (sr.start j) (symbuf 2) && leb (symbuf 2) (sr.end j)
    then record taken {
      cifcnt =
          (taken.cifcnt + (if (symbuf 3 == s.cur_frame) && (symbuf 2 == sr.end j) then 1 else 0))
          % 2 ^ 32;
    }
    else s

-- `msc_decode` is called if `buffer_full` is true in the result.
pub msc_assemble : Buffer → Buffer → Symrange → Reception → Reception
msc_assemble junk symbuf sr s =
    let s = record s { buffer_full = false } in
    if symbuf 2 == sr.start 0
    then put_symbol junk symbuf sr (record s { cur_frame = symbuf 3 })
    else for_range 4 0 (rest_of_range junk symbuf sr)
        (for_range 3 1 (first_of_range junk symbuf sr) s)
