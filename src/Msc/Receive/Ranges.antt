-- ===== src/Msc/Receive/Ranges.antt =====
-- A range of symbols, one after the other, through `msc_assemble` to the circular buffer.
use opendab.Base.{ℕ, zero, suc, ◌+◌, ◌*◌, ◌<◌, ◌≡◌, Buffer, shift}
use opendab.Figs.{Symrange, bits_per_sym}
use opendab.Msc.Written.{IsWritten}
use opendab.Msc.Receive.{Reception, freq_deinterleave, msc_assemble}

-- The bits of a symbol.
abbrev bits_of : Buffer → Buffer → Buffer
bits_of junk symbuf = freq_deinterleave junk junk junk (shift symbuf 12)

-- What a symbol leaves: the frame `q` with its first `r` symbols, and the number of the frame.
pub record IsReceived (n : ℕ) (f : ℕ → Buffer) (q r frame : ℕ) (s : Reception) : Type 0 where
  pub written : IsWritten n f q r (s.ring, s.buffer_full)
  pub current : s.cur_frame ≡ frame

-- The first `n` symbols of a sequence.
unfoldable pub receive : Buffer → (ℕ → Buffer) → Symrange → ℕ → Reception → Reception
receive junk symbols sr zero s = s
receive junk symbols sr (suc n) s = msc_assemble junk (symbols n) sr (receive junk symbols sr n s)

-- The symbols of range `i`, of one transmission frame, with the bits of a logical frame.
pub record IsRange (junk : Buffer) (symbols : ℕ → Buffer) (a i len frame : ℕ) (content : Buffer)
    : Type 0 where
  pub place : (k : ℕ) → k < len → symbols k 2 ≡ a + 18 * i + k
  pub same_frame : (k : ℕ) → k < len → symbols k 3 ≡ frame
  pub bits :
      (k x : ℕ)
      → k < len
      → x < bits_per_sym
      → bits_of junk (symbols k) x ≡ content (k * bits_per_sym + x)
