-- ===== src/Audio/Superframe.antt =====
-- src/wfdabplus.c, wfdabplusdec: five frames make a superframe of access units. The Reed-Solomon
-- decoder of the library libfec is a parameter: from the 120 bytes of a column, in memory, it gives
-- what it leaves there. The program is taken as built with DABPLUS.
pub mod Gather
pub mod Columns
pub mod Units
pub mod Agree
pub mod Sealed
pub mod Frames
pub mod Delivery
mod Examples
use opendab.Base.{
  ℕ, zero, suc, ◌+◌, ◌-◌, ◌*◌, ◌/◌, ◌%◌, ◌^◌, bit_and, bit_or, bit_xor, Bool, true, false, not,
  ◌&&◌, ◌||◌, ◌==◌, ltb, if◌then◌else◌, List, [], ◌∷◌, ◌++◌, Buffer, get_or, store, shift, window,
  for_range, memcpy,
}
use opendab.Crc.{crccheck, firecrccheck}
use opendab.Audio.Adts.{StreamParms, rates, wfadts}

-- The static `frame`, the superframe's memory, and what was written.
pub record Player : Type 0 where
  pub frame : ℕ
  pub sfbuf : Buffer
  pub out : List ℕ

-- A frame is kept if it is the first and has a good fire code, or follows another.
pub put_frame : Buffer → ℕ → Player → Player
put_frame ibuf ibytes p =
    if (p.frame == 0) && firecrccheck ibuf
    then record p { frame = p.frame + 1; sfbuf = memcpy p.sfbuf 0 ibuf ibytes }
    else if ltb 0 p.frame
    then record p { frame = p.frame + 1; sfbuf = memcpy p.sfbuf (ibytes * p.frame) ibuf ibytes }
    else p

-- A round of the loop over the columns; `stack` is what `cbuf` held.
pub correct_column : (Buffer → Buffer) → Buffer → ℕ → ℕ → Buffer → Buffer
correct_column decode_rs stack s i sfbuf =
    let cbuf = for_range 120 0 (λ j b. store b j (sfbuf (s * j + i))) stack in
    let cbuf = decode_rs cbuf in for_range 110 0 (λ j b. store b (s * j + i) (cbuf j)) sfbuf

abbrev flag : ℕ → ℕ
flag t = if t == 0 then 0 else 1

-- The header of the superframe.
pub stream_parms : Buffer → StreamParms
stream_parms sfbuf = record {
  rfa = flag (bit_and (sfbuf 2) 0x80);
  dac_rate = flag (bit_and (sfbuf 2) 0x40);
  sbr_flag = flag (bit_and (sfbuf 2) 0x20);
  aac_channel_mode = flag (bit_and (sfbuf 2) 0x10);
  ps_flag = flag (bit_and (sfbuf 2) 0x8);
  mpeg_surround_config = bit_and (sfbuf 2) 0x7;
}

abbrev pub austab : List ℕ
austab = 4 ∷ 2 ∷ 6 ∷ 3 ∷ []

-- A start of twelve bits: in the byte at `k` and the upper half of the next, or in the lower half of
-- the byte at `k` and the next.
abbrev pub from_upper : Buffer → ℕ → ℕ
from_upper b k = b k * 2 ^ 4 + b (k + 1) / 2 ^ 4

abbrev pub from_lower : Buffer → ℕ → ℕ
from_lower b k = bit_and (b k) 0x0f * 2 ^ 8 + b (k + 1)

-- `au_start`, by the number of units.
pub au_start : ℕ → Buffer → List ℕ
au_start num_aus b =
    if num_aus == 2
    then 5 ∷ from_upper b 3 ∷ []
    else if num_aus == 3
    then 6 ∷ from_upper b 3 ∷ from_lower b 4 ∷ []
    else if num_aus == 4
    then 8 ∷ from_upper b 3 ∷ from_lower b 4 ∷ from_upper b 6 ∷ []
    else 11
      ∷ from_upper b 3
      ∷ from_lower b 4
      ∷ from_upper b 6
      ∷ from_lower b 7
      ∷ from_upper b 9
      ∷ []

-- What the loop over the units comes to. A unit that ends in front of the memory, or of which less
-- than nothing is to be read or written, has no result.
pub data Played : Type 0 where
  played : Player → Played
  outside : Played

-- `au_start[i] + au_size[i]` is the next start, or the end of the superframe.
abbrev pub end_of : List ℕ → ℕ → ℕ
end_of [] last = last
end_of (start ∷ starts) last = start

abbrev pub invert : Buffer → ℕ → Buffer
invert b k = store b k (bit_xor (b k) 0xff)

-- The loop over the units, from one on.
pub play_units : StreamParms → List ℕ → ℕ → Player → Played
play_units sp [] last p = played p
play_units sp (start ∷ starts) last p =
    let end = end_of starts last in
    let sfbuf = invert (invert p.sfbuf (end - 2)) (end - 1) in
    let good = crccheck (shift sfbuf start) (end - start) in
    let p' =
      if good
      then record p {
        sfbuf = sfbuf;
        out = p.out ++ (wfadts (end - start - 2) sp ++ window sfbuf start (end - start - 2));
      }
      else record p { sfbuf = sfbuf } in
    let rest = play_units sp starts last p' in
    if ltb end 2 || ltb end start || (good && ltb end (start + 2)) then outside else rest

pub wfdabplusdec : (Buffer → Buffer) → Buffer → Buffer → ℕ → ℕ → Player → Played
wfdabplusdec decode_rs stack ibuf ibytes bitrate p =
    let s = bitrate / 8 in
    let p = put_frame ibuf ibytes p in
    let sfbuf = for_range s 0 (correct_column decode_rs stack s) p.sfbuf in
    let sp = stream_parms sfbuf in
    let num_aus = get_or austab (rates sp) 0 in
    if ltb 4 p.frame
    then play_units sp (au_start num_aus sfbuf) (ibytes * 5 - s * 10)
        (record p { frame = 0; sfbuf = sfbuf })
    else played p
