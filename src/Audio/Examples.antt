-- ===== src/Audio/Examples.antt =====
-- Frames and superframes with concrete contents.
use opendab.Base.{
  ◌+◌, ◌*◌, ◌/◌, ◌%◌, ◌^◌, ◌≡◌, refl, arith, true, false, [], ◌∷◌, ◌++◌, Buffer, holding,
}
use opendab.Audio.Mp2.{Mp2, header_error}
use opendab.Audio.Mp2.Stream.{play, passed, second, play_lem}
use opendab.Audio.Adts.{StreamParms, wfadts, channel_config, index_read, rates, wfadts_lem}
use opendab.Audio.Superframe.{Player, played, play_units}
use opendab.Audio.Superframe.Units.{units, inverted, play_units_lem}
use opendab.Bytes.{ipack}

abbrev silent : Mp2
silent = record { header_valid = false; header_expected = true; out = [] }

-- Layer II, 192 kbit/s: 0xfff40400 with the identifier bit and the index 10.
abbrev full_rate : Buffer
full_rate = holding (0xff ∷ 0xfc ∷ 0xa4 ∷ 0x00 ∷ 7 ∷ [])

-- Half the sampling frequency, 64 kbit/s.
abbrev half_rate : Buffer
half_rate = holding (0xff ∷ 0xf4 ∷ 0x84 ∷ 0x00 ∷ 5 ∷ [])

passed-full_rate : passed 5 192 (full_rate ∷ half_rate ∷ []) ≡ 0xff ∷ 0xfc ∷ 0xa4 ∷ 0x00 ∷ 7 ∷ []
unfolding passed second header_error ipack
passed-full_rate = refl

passed-half_rate : passed 2 64 (half_rate ∷ full_rate ∷ []) ≡ 0xff ∷ 0xf4 ∷ 0xff ∷ 0xfc ∷ []
unfolding passed second header_error ipack
passed-half_rate = refl

play_lem_example :
    (play 2 64 (half_rate ∷ full_rate ∷ []) silent).out
    ≡ [] ++ passed 2 64 (half_rate ∷ full_rate ∷ [])
play_lem_example = play_lem 2 64 (half_rate ∷ full_rate ∷ []) silent refl

abbrev surround : StreamParms
surround = record {
  rfa = 0;
  dac_rate = 1;
  sbr_flag = 1;
  ps_flag = 0;
  aac_channel_mode = 1;
  mpeg_surround_config = 1;
}

-- Six channels at 24 kHz, index 6, are read as two channels with index 7.
surround_read : (channel_config surround ≡ 6) × (index_read surround ≡ 7)
unfolding channel_config index_read rates
surround_read = (refl, refl)

wfadts_lem_example :
    (holding (wfadts 500 surround) 0 * 2 ^ 4 + holding (wfadts 500 surround) 1 / 2 ^ 4 ≡ 0xfff)
    × (holding (wfadts 500 surround) 3 % 2 ^ 2 * 2 ^ 11
          + holding (wfadts 500 surround) 4 * 2 ^ 3
          + holding (wfadts 500 surround) 5 / 2 ^ 5
        ≡ 507)
    × (holding (wfadts 500 surround) 5 % 2 ^ 5 * 2 ^ 6 + holding (wfadts 500 surround) 6 / 2 ^ 2
        ≡ 1999)
    × (holding (wfadts 500 surround) 2 % 2 * 2 ^ 2 + holding (wfadts 500 surround) 3 / 2 ^ 6
        ≡ channel_config surround % 4)
    × (holding (wfadts 500 surround) 2 / 2 ^ 2 % 2 ^ 4 ≡ index_read surround)
wfadts_lem_example = wfadts_lem 500 surround (omega arith)

abbrev counting : Buffer
counting i = i % 256

abbrev waiting : Player
waiting = record { frame = 0; sfbuf = counting; out = [] }

play_units_lem_example :
    play_units surround (5 ∷ 40 ∷ []) 110 waiting
    ≡ played (record {
      frame = 0;
      sfbuf = inverted (5 ∷ 40 ∷ []) 110 counting;
      out = [] ++ units surround (5 ∷ 40 ∷ []) 110 counting;
    })
play_units_lem_example =
    play_units_lem surround (5 ∷ 40 ∷ []) 110 waiting (omega arith, (omega arith, tt))
