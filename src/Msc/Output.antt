-- ===== src/Msc/Output.antt =====
-- What `msc_decode` hands on: the length of a logical frame.
use opendab.Base.{
  ℕ, ◌+◌, ◌-◌, ◌*◌, ◌/◌, ◌<◌, ◌≡◌, refl, arith, false, not, ◌==◌, Buffer, length, get_or,
}
use opendab.Figs.{Subch, Symrange}
use opendab.Prot.{ueptable}
use opendab.Depuncture.{no_profile, uep_depuncture}
use opendab.Depuncture.Uep.{uep_profile_fits}
use opendab.Audio.Mp2.{wfmp2}
use opendab.Msc.{Ring, time_disinterleave}
use opendab.Msc.Decode.{Decoder, Decoded, decoded, no_result, msc_decode}

-- The call ends with a frame of `obytes` bytes for the output of MPEG layer II.
abbrev pub HandsOn : ℕ → ℕ → Decoder → Decoded → Type 0
HandsOn obytes bitrate d (decoded d') = d'.mp2 ≡ wfmp2 d'.obuf obytes bitrate d.mp2
HandsOn obytes bitrate d no_result = ⊥

-- For a sub-channel with unequal error protection that is not one of DAB+, and whose rate is that of
-- its row of the table, whatever the circular buffer holds and the decoder finds, `msc_decode` hands
-- three bytes for each kbit/s to `wfmp2`, with that rate.
pub msc_decode-HandsOn :
    (k_viterbi : Buffer → ℕ → Buffer → Buffer) (decode_rs : Buffer → Buffer) (stack : Buffer)
    (s : Subch) (sr : Symrange) (c : Ring) (d : Decoder)
    → s.eepprot ≡ 0
    → s.dabplus ≡ 0
    → s.uep_indx < 64
    → s.bitrate ≡ (get_or ueptable s.uep_indx no_profile).bitrate
    → HandsOn (3 * s.bitrate) s.bitrate d (msc_decode k_viterbi decode_rs stack s sr c d)
unfolding msc_decode
msc_decode-HandsOn k_viterbi decode_rs stack s sr c d uep mp2 row rate =
    rw (unequal s.eepprot uep, unequal s.dabplus mp2, count) refl
  where
    unequal : (n : ℕ) → n ≡ 0 → not (n == 0) ≡ false
    unequal n e = rw e refl

    lf : Buffer
    lf = time_disinterleave d.lf s.subchsz sr c

    count : (length (uep_depuncture lf s).out / 4 - (7 - 1) + 7) / 8 ≡ 3 * s.bitrate
    count = omega (arith, rate, (uep_profile_fits lf s row).1)
