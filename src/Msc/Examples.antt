-- ===== src/Msc/Examples.antt =====
-- A sub-channel within one symbol of each frame.
use mathlib.Core.Path.{subst}
use native.Mathlib.Numerals.{add-one}
use opendab.Base.{
  ℕ, zero, suc, ◌+◌, ◌*◌, ◌%◌, ◌≡◌, refl, arith, Bool, true, false, ◌==◌, if◌then◌else◌, Buffer, [],
}
use opendab.Figs.{Subch, Symrange, bits_per_sym}
use opendab.Wfic.Interleaver.{carrier}
use opendab.Symsel.{startsym}
use opendab.Msc.{Ring, wcbuf, time_disinterleave}
use opendab.Msc.Held.{symbol}
use opendab.Msc.Written.{IsWritten, Recorded, at_first, next_frame, Recorded-IsWritten}
use opendab.Msc.Receive.{Reception, freq_deinterleave}
use opendab.Msc.Receive.Bits.{wire_bit, freq_deinterleave_lem}
use opendab.Msc.Receive.Step.{AreApart}
use opendab.Msc.Receive.Whole.{startsym-AreApart}
use opendab.Msc.Decode.{Decoder, msc_decode}
use opendab.Msc.Output.{HandsOn, msc_decode-HandsOn}
use opendab.Msc.Delay.{time_disinterleave_lem}

abbrev blank : Buffer
blank i = 0

abbrev range : Symrange
range = record { start = blank; end = blank; startcu = 3; endcu = 13; numsyms = 1 }

-- Bit `x` of frame `p` shows both numbers.
abbrev frame : ℕ → Buffer
frame p x = p * 10000 + x

abbrev initial : Ring
initial = record {
  frames = λ i. blank;
  syms = blank;
  head = 0;
  lframe = 0;
  first = true;
  full = false;
}

written : ℕ → Ring × Bool
written zero = wcbuf (symbol (frame 0) 0) bits_per_sym range initial
written (suc q) = wcbuf (symbol (frame (q + 1)) 0) bits_per_sym range (written q).0

written-Recorded : (q : ℕ) → Recorded range frame q 1 (written q)
unfolding written
written-Recorded zero = at_first initial refl refl
written-Recorded (suc q) =
    subst (λ k. Recorded range frame k 1 (written (suc q))) (add-one q)
      (next_frame q (written q) (written-Recorded q))

Recorded-IsWritten_example : IsWritten 1 frame 16 1 (written 16)
Recorded-IsWritten_example =
    Recorded-IsWritten range frame 16 1 (written 16) (omega arith) (written-Recorded 16)

-- Bit 1 has the delay 8, so it comes from frame 8 after frame 16.
time_disinterleave_lem_example : time_disinterleave blank 10 range (written 16).0 1 ≡ 80193
time_disinterleave_lem_example =
    time_disinterleave_lem range frame 16 (written 16) blank 10 1 (omega arith)
      (written-Recorded 16) (omega arith) (omega arith) (omega arith)

freq_deinterleave_lem_example :
    (freq_deinterleave blank blank blank blank 5 ≡ wire_bit blank (2 * carrier 5 + 0))
    × (freq_deinterleave blank blank blank blank (5 + 1536) ≡ wire_bit blank (2 * carrier 5 + 1))
freq_deinterleave_lem_example = freq_deinterleave_lem blank blank blank blank 5 (omega arith)

-- Capacity units 100 to 183, in the symbols 7 and 8 of the first frame.
abbrev subchannel : Subch
subchannel = record {
  subchid = 2;
  startaddr = 100;
  subchsz = 84;
  bitrate = 128;
  eepprot = 0;
  protlvl = 4;
  uep_indx = 34;
  dabplus = 0;
}

abbrev symbols : Symrange
symbols = startsym range subchannel

symbols-AreApart : AreApart symbols 7 8
symbols-AreApart = startsym-AreApart range subchannel (omega arith)

-- A packet of frame 3.
abbrev packet : ℕ → Buffer
packet sym i = if i == 2 then sym else if i == 3 then 3 else 0

-- The first two symbols of each of the four frames that begin with 7, 25, 43 and 61.
abbrev pairs : Symrange
pairs = record {
  start = λ i. 7 + 18 * i;
  end = λ i. 8 + 18 * i;
  startcu = 4;
  endcu = 40;
  numsyms = 2;
}

-- The bits of each symbol, whatever frame.
abbrev same_bits : ℕ → Buffer
same_bits p y = freq_deinterleave blank blank blank blank (y % bits_per_sym)

abbrev one_frame : Ring × Bool
one_frame =
    wcbuf (symbol (same_bits 0) 1) bits_per_sym pairs
      (wcbuf (symbol (same_bits 0) 0) bits_per_sym pairs initial).0

abbrev waiting : Reception
waiting = record { ring = one_frame.0; cur_frame = 3; cifcnt = 0; buffer_full = true }

-- A decoder of the sub-channel's frames, and one that finds zeros.
abbrev decoder : Decoder
decoder = record {
  lf = blank;
  dpbuf = blank;
  obuf = blank;
  mp2 = record { header_valid = true; header_expected = false; out = [] };
  player = record { frame = 0; sfbuf = blank; out = [] };
}

msc_decode-HandsOn_example :
    HandsOn
      (3 * 128)
      128
      decoder
      (msc_decode (λ symbols bits out. blank) (λ b. b) blank subchannel symbols initial decoder)
msc_decode-HandsOn_example =
    msc_decode-HandsOn (λ symbols bits out. blank) (λ b. b) blank subchannel symbols initial decoder
      refl refl (omega arith) refl
