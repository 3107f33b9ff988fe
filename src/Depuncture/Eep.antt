-- ===== src/Depuncture/Eep.antt =====
-- Equal error protection: the rows of the table, and the sizes and bit rates that they multiply.
use native.Mathlib.Nat.{mul-div_cancel_left}
use opendab.Base.{
  ℕ, zero, suc, ◌+◌, ◌*◌, ◌/◌, ◌<◌, ◌≤◌, ◌≡◌, ◌≢◌, ltb, ltb→lt, refl, ap, ◌∙◌, arith, Bool, true,
  false, ◌&&◌, ◌==◌, if◌then◌else◌, Buffer, get_or, length, ==_iff,
}
use opendab.Base.Check.{all_below, all_below_sound}
use opendab.Base.Int.{pos, negsuc, pos_part, ◌+ℤ◌}
use opendab.Figs.{Subch, bits_per_cu}
use opendab.Prot.{EepProf, eeptable, eep2a8kbps}
use opendab.Depuncture.{
  Stream, start, vector, last_bits, no_eep_profile, no_blocks, eep_blocks, eep_profile_depuncture,
  eep_depuncture, eep_profile,
}
use opendab.Depuncture.Counts.{ones, block_counts, last_counts}
use opendab.Depuncture.Uep.{last_ones}

vector_weights : all_below 24 (λ k. ones (vector (pos k)) 32 0 == 9 + k) ≡ true
unfolding all_below ones vector
vector_weights = refl

-- The k-th puncturing vector keeps 9 + k bits of 32.
vector_weight : (k : ℕ) → k < 24 → ones (vector (pos k)) 32 0 ≡ 9 + k
vector_weight k h =
    (==_iff _ _).0
      (all_below_sound 24 (λ k. ones (vector (pos k)) 32 0 == 9 + k) k vector_weights h)

-- `mul * n + offset`, of a block of equal error protection.
units : EepProf → ℕ → ℕ → ℕ
units p n indx = let b = get_or p.l indx no_blocks in pos_part (pos (b.mul * n) +ℤ b.offset)

abbrev eep_taken : EepProf → ℕ → ℕ → ℕ
eep_taken p n indx = 4 * units p n indx * ones (vector (get_or p.pi indx (negsuc 0))) 32 0

eep_counts :
    (inbuf : Buffer) (p : EepProf) (n : ℕ)
    → ((eep_profile_depuncture inbuf p n).j ≡ eep_taken p n 0 + eep_taken p n 1 + 12)
      × (length (eep_profile_depuncture inbuf p n).out ≡ 128 * units p n 0 + 128 * units p n 1 + 24)
unfolding eep_profile_depuncture units
eep_counts inbuf p n = (omega (arith, b0.0, b1.0, b2.0, last_ones), omega (arith, b0.1, b1.1, b2.1))
  where
    s0 : Stream
    s0 = eep_blocks inbuf p n 0 start

    s1 : Stream
    s1 = eep_blocks inbuf p n 1 s0

    b0 : (s0.j ≡ 0 + eep_taken p n 0) × (length s0.out ≡ 0 + 128 * units p n 0)
    b0 = block_counts (vector (get_or p.pi 0 (negsuc 0))) inbuf (units p n 0) start

    b1 : (s1.j ≡ s0.j + eep_taken p n 1) × (length s1.out ≡ length s0.out + 128 * units p n 1)
    b1 = block_counts (vector (get_or p.pi 1 (negsuc 0))) inbuf (units p n 1) s0

    b2 :
        ((last_bits inbuf s1).j ≡ s1.j + ones (vector (pos 7)) 24 0)
        × (length (last_bits inbuf s1).out ≡ length s1.out + 24)
    b2 = last_counts (vector (pos 7)) inbuf s1

-- The sizes that go with a level of protection and a multiple `n`.
FitsAt : EepProf → ℕ → Type 0
FitsAt p n =
    (eep_taken p n 0 + eep_taken p n 1 + 12 ≡ 64 * (p.sizemul * n))
    × (128 * units p n 0 + 128 * units p n 1 + 24 ≡ 4 * (24 * (p.ratemul * n) + 6))

row_fits : (k n : ℕ) → k < 8 → 1 ≤ n → (k ≡ 1 → 2 ≤ n) → FitsAt (get_or eeptable k no_eep_profile) n
unfolding FitsAt units ◌+ℤ◌
row_fits zero n h one two =
    ground (arith, vector_weight 23 (omega arith), vector_weight 22 (omega arith))
row_fits (suc zero) n h one two =
    ground (arith, two refl, vector_weight 13 (omega arith), vector_weight 12 (omega arith))
row_fits (suc (suc zero)) n h one two =
    ground (arith, vector_weight 7 (omega arith), vector_weight 6 (omega arith))
row_fits (suc (suc (suc zero))) n h one two =
    ground (arith, vector_weight 2 (omega arith), vector_weight 1 (omega arith))
row_fits (suc (suc (suc (suc zero)))) n h one two =
    ground (arith, vector_weight 9 (omega arith), vector_weight 8 (omega arith))
row_fits (suc (suc (suc (suc (suc zero))))) n h one two =
    ground (arith, vector_weight 5 (omega arith), vector_weight 4 (omega arith))
row_fits (suc (suc (suc (suc (suc (suc zero)))))) n h one two =
    ground (arith, vector_weight 3 (omega arith), vector_weight 2 (omega arith))
row_fits (suc (suc (suc (suc (suc (suc (suc zero))))))) n h one two =
    ground (arith, vector_weight 1 (omega arith), vector_weight 0 (omega arith))
row_fits (suc (suc (suc (suc (suc (suc (suc (suc k)))))))) n h one two = absurd (omega arith)

eep_depuncture_at :
    (inbuf : Buffer) (p : EepProf) (n : ℕ)
    → FitsAt p n
    → ((eep_profile_depuncture inbuf p n).j ≡ 64 * (p.sizemul * n))
      × (length (eep_profile_depuncture inbuf p n).out ≡ 4 * (24 * (p.ratemul * n) + 6))
unfolding FitsAt
eep_depuncture_at inbuf p n h = omega (arith, h, eep_counts inbuf p n)

abbrev row : ℕ → EepProf
row k = get_or eeptable k no_eep_profile

picked : Bool → Subch → EepProf
picked b s = if b then eep2a8kbps else row s.protlvl

regular : (s : Subch) → (s.protlvl ≡ 1 → s.bitrate ≢ 8) → eep_profile s ≡ row s.protlvl
unfolding eep_profile picked
regular s h = ap (λ b. picked b s) untested
  where
    untested : (s.bitrate == 8) && (s.protlvl == 1) ≡ false
    untested = ground arith

special : (s : Subch) → s.protlvl ≡ 1 → s.bitrate ≡ 8 → eep_profile s ≡ eep2a8kbps
unfolding eep_profile picked
special s level rate = ap (λ b. picked b s) tested
  where
    tested : (s.bitrate == 8) && (s.protlvl == 1) ≡ true
    tested = ground arith

sizes : all_below 8 (λ k. ltb 0 (row k).sizemul) ≡ true
unfolding all_below
sizes = refl

sizemul-pos : (k : ℕ) → k < 8 → 0 < (row k).sizemul
sizemul-pos k h = ltb→lt _ _ (all_below_sound 8 (λ k. ltb 0 (row k).sizemul) k sizes h)

-- For each of the eight levels of equal error protection and each multiple `n` of its size, but for
-- 2-A at 8 kbit/s, depuncturing a logical frame takes in exactly the 64 bits of each capacity unit,
-- and puts out the code of 24 bits of audio for each kbit/s.
pub eep_profile_fits :
    (inbuf : Buffer) (s : Subch) (n : ℕ)
    → s.protlvl < 8
    → 1 ≤ n
    → (s.protlvl ≡ 1 → 2 ≤ n)
    → s.subchsz ≡ (get_or eeptable s.protlvl no_eep_profile).sizemul * n
    → s.bitrate ≡ (get_or eeptable s.protlvl no_eep_profile).ratemul * n
    → ((eep_depuncture inbuf s).j ≡ bits_per_cu * s.subchsz)
      × (length (eep_depuncture inbuf s).out ≡ 4 * (24 * s.bitrate + 6))
unfolding eep_depuncture
eep_profile_fits inbuf s n level one two size rate = (
  ap (λ (t : Stream). t.j) whole ∙ fits.0 ∙ omega (arith, size),
  ap (λ (t : Stream). length t.out) whole ∙ fits.1 ∙ omega (arith, rate),
)
  where
    plain : s.protlvl ≡ 1 → s.bitrate ≢ 8
    plain e b = omega (arith, two e, b, rate ∙ ap (λ k. (row k).ratemul * n) e)

    p : EepProf
    p = row s.protlvl

    multiple : s.subchsz / p.sizemul ≡ n
    multiple =
        ap (λ (t : ℕ). t / p.sizemul) size ∙ mul-div_cancel_left n (sizemul-pos s.protlvl level)

    whole : eep_depuncture inbuf s ≡ eep_profile_depuncture inbuf p n
    whole =
        ap (λ (q : EepProf). eep_profile_depuncture inbuf q (s.subchsz / q.sizemul))
          (regular s plain)
        ∙ ap (eep_profile_depuncture inbuf p) multiple

    fits :
        ((eep_profile_depuncture inbuf p n).j ≡ 64 * (p.sizemul * n))
        × (length (eep_profile_depuncture inbuf p n).out ≡ 4 * (24 * (p.ratemul * n) + 6))
    fits = eep_depuncture_at inbuf p n (row_fits s.protlvl n level one two)

-- With the special case for 2-A at 8 kbit/s, depuncturing takes in only 336 of the 512 bits of the
-- sub-channel's eight capacity units, though it puts out the code of 192 bits of audio.
eep_2a_8kbps_short :
    (inbuf : Buffer) (s : Subch)
    → s.protlvl ≡ 1
    → s.bitrate ≡ 8
    → s.subchsz ≡ 8
    → ((eep_depuncture inbuf s).j ≡ 336)
      × (length (eep_depuncture inbuf s).out ≡ 4 * (24 * s.bitrate + 6))
unfolding eep_depuncture
eep_2a_8kbps_short inbuf s level rate size = (
  ap (λ (t : Stream). t.j) whole ∙ counts.0 ∙ took,
  ap (λ (t : Stream). length t.out) whole ∙ counts.1 ∙ omega (arith, rate, put),
)
  where
    whole : eep_depuncture inbuf s ≡ eep_profile_depuncture inbuf eep2a8kbps 1
    whole =
        ap (λ (q : EepProf). eep_profile_depuncture inbuf q (s.subchsz / q.sizemul))
          (special s level rate)
        ∙ ap (λ (t : ℕ). eep_profile_depuncture inbuf eep2a8kbps (t / 8)) size

    counts :
        ((eep_profile_depuncture inbuf eep2a8kbps 1).j
          ≡ eep_taken eep2a8kbps 1 0 + eep_taken eep2a8kbps 1 1 + 12)
        × (length (eep_profile_depuncture inbuf eep2a8kbps 1).out
            ≡ 128 * units eep2a8kbps 1 0 + 128 * units eep2a8kbps 1 1 + 24)
    counts = eep_counts inbuf eep2a8kbps 1

    took : eep_taken eep2a8kbps 1 0 + eep_taken eep2a8kbps 1 1 + 12 ≡ 336
    took =
        unfold units ◌+ℤ◌ in
        omega (arith, vector_weight 3 (omega arith), vector_weight 12 (omega arith))

    put : 128 * units eep2a8kbps 1 0 + 128 * units eep2a8kbps 1 1 + 24 ≡ 792
    put = unfold units ◌+ℤ◌ in refl
