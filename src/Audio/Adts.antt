-- ===== src/Audio/Adts.antt =====
-- src/wfdabplus.c, wfadts: the header in front of each access unit of a DAB+ sub-channel.
use opendab.Base.{
  ℕ, ◌+◌, ◌*◌, ◌/◌, ◌%◌, ◌^◌, ◌<◌, ◌≡◌, refl, ◌∙◌, arith, bit_and, bit_or, true, not, ◌&&◌, ◌==◌,
  ==_iff, ltb, ltb→lt, Bool-cases, inl, inr, if◌then◌else◌, List, [], ◌∷◌, Buffer, get_or, holding,
}
use opendab.Base.Check.{all_below, all_below_sound}
use opendab.Base.Bits.{bit_or_disjoint, bit_and_mask, bit_or-zero}

pub record StreamParms : Type 0 where
  pub rfa : ℕ
  pub dac_rate : ℕ
  pub sbr_flag : ℕ
  pub ps_flag : ℕ
  pub aac_channel_mode : ℕ
  pub mpeg_surround_config : ℕ

-- 32k 16k 48k 24k
abbrev pub samptab : List ℕ
samptab = 0x5 ∷ 0x8 ∷ 0x3 ∷ 0x6 ∷ []

-- `sp->dac_rate << 1 | sp->sbr_flag`
unfoldable pub rates : StreamParms → ℕ
rates sp = bit_or (sp.dac_rate * 2) sp.sbr_flag

abbrev mono_or_stereo : StreamParms → ℕ
mono_or_stereo sp =
    if not (sp.sbr_flag == 0) && (sp.aac_channel_mode == 0) && not (sp.ps_flag == 0)
    then 2
    else 2 ^ sp.aac_channel_mode

-- The switch, of which the default does as case 0. A field of three bits.
unfoldable pub channel_config : StreamParms → ℕ
channel_config sp =
    (if sp.mpeg_surround_config == 0
      then mono_or_stereo sp
      else if sp.mpeg_surround_config == 1
      then 6
      else mono_or_stereo sp)
    % 2 ^ 3

-- The seven bytes: the fields that the function sets to constants stand as such.
pub wfadts : ℕ → StreamParms → List ℕ
wfadts framelen sp =
    let index = get_or samptab (rates sp) 0 % 2 ^ 4 in
    let channels = channel_config sp in
    let frame_length = (framelen + 7) % 2 ^ 13 in
    (0xfff / 2 ^ 4 % 2 ^ 8)
    ∷ bit_or (bit_or (bit_or (bit_and 0xfff 0xf * 2 ^ 4) (0 * 2 ^ 3)) (0 * 2)) 1
    ∷ bit_or (bit_or (bit_or (0 * 2 ^ 6) (index * 2 ^ 2)) (0 * 2)) (bit_and channels 0x4)
    ∷ bit_or
        (bit_or
          (bit_or (bit_or (bit_or (bit_and channels 0x3 * 2 ^ 6) (0 * 2 ^ 5)) (0 * 2 ^ 4))
            (0 * 2 ^ 3))
          (0 * 2 ^ 2))
        (bit_and (frame_length / 2 ^ 11) 0x3)
    ∷ bit_and (frame_length / 2 ^ 3) 0xff
    ∷ bit_or (bit_and frame_length 0x7 * 2 ^ 5) (1999 / 2 ^ 6)
    ∷ bit_or (bit_and 1999 0x3f * 2 ^ 2) 0
    ∷ []

-- What a reader of the stream takes from a header, by ISO/IEC 13818-7.
abbrev pub syncword : Buffer → ℕ
syncword h = h 0 * 2 ^ 4 + h 1 / 2 ^ 4

abbrev pub sampling_freq_index : Buffer → ℕ
sampling_freq_index h = h 2 / 2 ^ 2 % 2 ^ 4

abbrev pub channel_configuration : Buffer → ℕ
channel_configuration h = h 2 % 2 * 2 ^ 2 + h 3 / 2 ^ 6

abbrev pub frame_length : Buffer → ℕ
frame_length h = h 3 % 2 ^ 2 * 2 ^ 11 + h 4 * 2 ^ 3 + h 5 / 2 ^ 5

abbrev pub buffer_fullness : Buffer → ℕ
buffer_fullness h = h 5 % 2 ^ 5 * 2 ^ 6 + h 6 / 2 ^ 2

third_test : ℕ → ℕ → ℕ
third_test index c = bit_or (bit_or (bit_or 0 (index * 2 ^ 2)) 0) (bit_and c 0x4)

third_table :
    all_below 128
      (λ k. third_test (k / 8) (k % 8) == (if ltb (k % 8) 4 then k / 8 else bit_or (k / 8) 1) * 4)
    ≡ true
unfolding third_test all_below
third_table = refl

third_lem :
    (index c : ℕ)
    → index < 16
    → c < 8
    → bit_or (bit_or (bit_or 0 (index * 2 ^ 2)) 0) (bit_and c 0x4)
      ≡ (if ltb c 4 then index else bit_or index 1) * 4
unfolding third_test
third_lem index c h p =
    let i : (index * 8 + c) / 8 ≡ index = omega (arith, p) in
    let m : (index * 8 + c) % 8 ≡ c = omega (arith, p) in
    rw (i, m) at
      ((==_iff _ _).0 (
        all_below_sound 128
          (λ k.
            third_test (k / 8) (k % 8) == (if ltb (k % 8) 4 then k / 8 else bit_or (k / 8) 1) * 4)
          (index * 8 + c) third_table (omega (arith, h, p))))

fourth_lem :
    (c n : ℕ)
    → n < 2 ^ 13
    → bit_or
        (bit_or (bit_or (bit_or (bit_or (bit_and c 0x3 * 2 ^ 6) 0) 0) 0) 0)
        (bit_and (n / 2 ^ 11) 0x3)
      ≡ (c % 4) * 2 ^ 6 + n / 2 ^ 11
fourth_lem c n h =
    rw
      (
        bit_or-zero (bit_and c 0x3 * 2 ^ 6),
        bit_or-zero (bit_and c 0x3 * 2 ^ 6),
        bit_or-zero (bit_and c 0x3 * 2 ^ 6),
        bit_or-zero (bit_and c 0x3 * 2 ^ 6),
      )
      (bit_or_disjoint 6 (bit_and c 0x3) (bit_and (n / 2 ^ 11) 0x3)
          (omega (arith, bit_and_mask 2 (n / 2 ^ 11)))
        ∙ omega (arith, h, bit_and_mask 2 (n / 2 ^ 11), bit_and_mask 2 c))

sixth_lem : (n : ℕ) → bit_or (bit_and n 0x7 * 2 ^ 5) (1999 / 2 ^ 6) ≡ n % 8 * 2 ^ 5 + 31
sixth_lem n = bit_or_disjoint 5 (bit_and n 0x7) 31 (omega arith) ∙ omega (arith, bit_and_mask 3 n)

index_lem : (k : ℕ) → get_or samptab k 0 % 2 ^ 4 < 16
index_lem k = omega arith

channel_config-lt : (sp : StreamParms) → channel_config sp < 8
unfolding channel_config
channel_config-lt sp = omega arith

-- The index that comes out: with channel configuration 6 its lowest bit is set.
unfoldable pub index_read : StreamParms → ℕ
index_read sp =
    let index = get_or samptab (rates sp) 0 % 2 ^ 4 in
    if ltb (channel_config sp) 4 then index else bit_or index 1

odd_table : all_below 16 (λ k. ltb (bit_or k 1) 16) ≡ true
unfolding all_below
odd_table = refl

index_read-lt : (sp : StreamParms) → index_read sp < 16
unfolding index_read
index_read-lt sp = elim (Bool-cases (ltb (channel_config sp) 4)) [
  | inl e ↦ rw e (index_lem (rates sp))
  | inr e ↦ rw e (
      ltb→lt _ _ (
        all_below_sound 16 (λ k. ltb (bit_or k 1) 16) (get_or samptab (rates sp) 0 % 2 ^ 4)
          odd_table (index_lem (rates sp))))
]

-- The seven bytes, as sums.
bytes_lem :
    (n : ℕ) (sp : StreamParms)
    → n + 7 < 2 ^ 13
    → wfadts n sp ≡ (
        0xff
        ∷ 0xf1
        ∷ index_read sp * 4
        ∷ ((channel_config sp % 4) * 2 ^ 6 + (n + 7) / 2 ^ 11)
        ∷ ((n + 7) / 2 ^ 3 % 2 ^ 8)
        ∷ ((n + 7) % 8 * 2 ^ 5 + 31)
        ∷ 60
        ∷ [])
unfolding wfadts index_read
bytes_lem n sp h =
    let e : (n + 7) % 2 ^ 13 ≡ n + 7 = omega (arith, h) in
    rw
      (
        e,
        third_lem (get_or samptab (rates sp) 0 % 2 ^ 4) (channel_config sp) (omega arith)
            (channel_config-lt sp),
        fourth_lem (channel_config sp) (n + 7) h,
        bit_and_mask 8 ((n + 7) / 2 ^ 3),
        sixth_lem (n + 7),
      )
      refl

-- From the header of an access unit of fewer than 8185 bytes a reader takes the synchronisation word,
-- the length with that of the header, and the fullness 1999. A channel configuration below 4 and the
-- index of the sampling frequency are read as they are; of configuration 6 the reader gets 2, and the
-- lowest bit of the index is set.
pub wfadts_lem :
    (n : ℕ) (sp : StreamParms)
    → n + 7 < 2 ^ 13
    → let h = holding (wfadts n sp) in
      (syncword h ≡ 0xfff)
      × (frame_length h ≡ n + 7)
      × (buffer_fullness h ≡ 1999)
      × (channel_configuration h ≡ channel_config sp % 4)
      × (sampling_freq_index h ≡ index_read sp)
wfadts_lem n sp h =
    let c = channel_config-lt sp in
    rw (bytes_lem n sp h)
      (refl, omega (arith, h), omega arith, omega (arith, c, h), omega (arith, index_read-lt sp))
