-- ===== src/Depuncture/Uep.antt =====
-- Unequal error protection: the rows of the table, and the sizes and bit rates beside them.
use opendab.Base.{
  ℕ, ◌+◌, ◌*◌, ◌<◌, ◌≡◌, refl, arith, Bool, true, ◌&&◌, ◌==◌, List, Buffer, get_or, length,
}
use opendab.Base.Check.{all_below, all_below_sound}
use opendab.Base.Int.{pos, negsuc}
use opendab.Figs.{Subch, bits_per_cu}
use opendab.Prot.{UepProf, ueptable}
use opendab.Depuncture.{
  Stream, start, vector, uep_blocks, last_bits, no_profile, uep_profile_depuncture, uep_depuncture,
}
use opendab.Depuncture.Counts.{ones, block_counts, last_counts}

-- The bits that block `indx` of a profile takes in.
abbrev taken : UepProf → ℕ → ℕ
taken p indx = 4 * get_or p.l indx 0 * ones (vector (get_or p.pi indx (negsuc 0))) 32 0

abbrev put_out : UepProf → ℕ
put_out p =
    128 * get_or p.l 0 0 + 128 * get_or p.l 1 0 + 128 * get_or p.l 2 0 + 128 * get_or p.l 3 0

profile_fits : ℕ → Bool
profile_fits k =
    let p = get_or ueptable k no_profile in
    (put_out p + 24 == 4 * (24 * p.bitrate + 6))
    && (taken p 0 + taken p 1 + taken p 2 + taken p 3 + 12 + p.padbits == bits_per_cu * p.subchsz)

profiles_fit : all_below 64 profile_fits ≡ true
unfolding all_below profile_fits ones vector
profiles_fit = refl

pub last_ones : ones (vector (pos 7)) 24 0 ≡ 12
unfolding ones vector
last_ones = refl

uep_counts :
    (inbuf : Buffer) (p : UepProf)
    → ((uep_profile_depuncture inbuf p).j ≡ taken p 0 + taken p 1 + taken p 2 + taken p 3 + 12)
      × (length (uep_profile_depuncture inbuf p).out ≡ put_out p + 24)
unfolding uep_profile_depuncture
uep_counts inbuf p = (
  omega (arith, b0.0, b1.0, b2.0, b3.0, b4.0, last_ones),
  omega (arith, b0.1, b1.1, b2.1, b3.1, b4.1),
)
  where
    v : ℕ → List ℕ
    v indx = vector (get_or p.pi indx (negsuc 0))

    s0 : Stream
    s0 = uep_blocks inbuf p 0 start

    s1 : Stream
    s1 = uep_blocks inbuf p 1 s0

    s2 : Stream
    s2 = uep_blocks inbuf p 2 s1

    s3 : Stream
    s3 = uep_blocks inbuf p 3 s2

    b0 : (s0.j ≡ 0 + taken p 0) × (length s0.out ≡ 0 + 128 * get_or p.l 0 0)
    b0 = block_counts (v 0) inbuf (get_or p.l 0 0) start

    b1 : (s1.j ≡ s0.j + taken p 1) × (length s1.out ≡ length s0.out + 128 * get_or p.l 1 0)
    b1 = block_counts (v 1) inbuf (get_or p.l 1 0) s0

    b2 : (s2.j ≡ s1.j + taken p 2) × (length s2.out ≡ length s1.out + 128 * get_or p.l 2 0)
    b2 = block_counts (v 2) inbuf (get_or p.l 2 0) s1

    b3 : (s3.j ≡ s2.j + taken p 3) × (length s3.out ≡ length s2.out + 128 * get_or p.l 3 0)
    b3 = block_counts (v 3) inbuf (get_or p.l 3 0) s2

    b4 :
        ((last_bits inbuf s3).j ≡ s3.j + ones (vector (pos 7)) 24 0)
        × (length (last_bits inbuf s3).out ≡ length s3.out + 24)
    b4 = last_counts (vector (pos 7)) inbuf s3

fits_sound :
    (inbuf : Buffer) (p : UepProf)
    → (put_out p + 24 == 4 * (24 * p.bitrate + 6))
        && (taken p 0 + taken p 1 + taken p 2 + taken p 3 + 12 + p.padbits
            == bits_per_cu * p.subchsz)
      ≡ true
    → ((uep_profile_depuncture inbuf p).j + p.padbits ≡ bits_per_cu * p.subchsz)
      × (length (uep_profile_depuncture inbuf p).out ≡ 4 * (24 * p.bitrate + 6))
fits_sound inbuf p h = ground (arith, uep_counts inbuf p)

uep_row_fits :
    (inbuf : Buffer) (k : ℕ)
    → k < 64
    → let p = get_or ueptable k no_profile in
      ((uep_profile_depuncture inbuf p).j + p.padbits ≡ bits_per_cu * p.subchsz)
      × (length (uep_profile_depuncture inbuf p).out ≡ 4 * (24 * p.bitrate + 6))
unfolding profile_fits
uep_row_fits inbuf k h =
    fits_sound inbuf (get_or ueptable k no_profile)
      (all_below_sound 64 profile_fits k profiles_fit h)

-- For each row of the table of unequal error protection, depuncturing a logical frame takes in the
-- 64 bits of each capacity unit but the padding bits, and puts out the code of 24 bits of audio for
-- each kbit/s: four values for each of them and for the six bits that flush the encoder.
pub uep_profile_fits :
    (inbuf : Buffer) (s : Subch)
    → s.uep_indx < 64
    → let p = get_or ueptable s.uep_indx no_profile in
      ((uep_depuncture inbuf s).j + p.padbits ≡ bits_per_cu * p.subchsz)
      × (length (uep_depuncture inbuf s).out ≡ 4 * (24 * p.bitrate + 6))
unfolding uep_depuncture
uep_profile_fits inbuf s h = uep_row_fits inbuf s.uep_indx h
