-- ===== src/Driver.antt =====
-- driver/wavefinder.c: the buffer between the transfers of the kernel and the program that reads. The
-- start of the transfers and the waiting of the reader are left out.
pub mod Fifo
pub mod Session
mod Examples
use opendab.Base.{
  ℕ, zero, suc, ◌+◌, ◌-◌, ◌*◌, ◌%◌, min, Bool, true, false, not, ◌&&◌, ◌==◌, ltb, leb,
  if◌then◌else◌, List, [], ◌∷◌, ◌++◌, Buffer, holding, shift, window, memcpy,
}

-- The fields of `wavefinder_t` that say what is in the buffer.
pub record WaveFinder : Type 0 where
  pub count : ℕ
  pub readptr : ℕ
  pub pipesize : ℕ
  pub recbuf : Buffer
  pub prev_h : Buffer

-- A packet of a transfer: its status, 0 for none, its length, and its bytes.
pub record IsoPacket : Type 0 where
  pub status : ℕ
  pub actual_length : ℕ
  pub bytes : Buffer

-- `_ISOPIPESIZE * NURBS`
abbrev pub ring_size : ℕ
ring_size = 16768 * 2

-- Whether `strncmp` of `n` bytes is not 0: a NUL in both ends the comparison.
unfoldable pub strncmp : Buffer → Buffer → ℕ → ℕ → Bool
strncmp a b i zero = false
strncmp a b i (suc n) =
    let rest = strncmp a b (i + 1) n in
    if not (a i == b i) then true else if a i == 0 then false else rest

-- A packet with the header of the device, and not the one before.
unfoldable pub is_new : IsoPacket → WaveFinder → Bool
is_new pk s =
    (pk.status == 0)
    && leb pk.actual_length s.pipesize
    && not (strncmp (holding (0x0c ∷ 0x62 ∷ [])) pk.bytes 0 2)
    && strncmp pk.bytes s.prev_h 0 12

-- A round of the loop of `wavefinder_iso_complete` over the packets.
unfoldable pub copy_packet : IsoPacket → WaveFinder → WaveFinder
copy_packet pk s =
    let at = s.count % ring_size in
    let recbuf = memcpy s.recbuf at pk.bytes pk.actual_length in
    if is_new pk s
    then record s {
      recbuf = recbuf;
      prev_h = memcpy s.prev_h 0 (shift recbuf at) 12;
      count = s.count + pk.actual_length;
    }
    else s

abbrev pub copy_packets : List IsoPacket → WaveFinder → WaveFinder
copy_packets [] s = s
copy_packets (pk ∷ pks) s = copy_packets pks (copy_packet pk s)

-- The end of a transfer, whose packets count only if it was not killed.
unfoldable pub wavefinder_iso_complete : Bool → List IsoPacket → WaveFinder → WaveFinder
wavefinder_iso_complete killed packets s = if killed then s else copy_packets packets s

-- What a round of `wavefinder_read` copies to a reader that wants `count` bytes more, and what it
-- leaves; without bytes the reader waits. The pointer of the reader is never behind the bytes.
unfoldable pub wavefinder_read : ℕ → WaveFinder → List ℕ × WaveFinder
wavefinder_read count s =
    let cnt = min count (s.count - s.readptr) in
    (
      window s.recbuf s.readptr cnt,
      if cnt == 0
          then s
          else if s.readptr + cnt == s.count
          then record s { readptr = 0; count = 0 }
          else record s { readptr = s.readptr + cnt },
    )
