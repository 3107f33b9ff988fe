-- ===== src/Depuncture/Examples.antt =====
-- Depuncturing for concrete sub-channels.
use opendab.Base.{◌+◌, ◌*◌, ◌≡◌, refl, arith, Buffer, length}
use opendab.Figs.{Subch}
use opendab.Depuncture.{uep_depuncture, eep_depuncture}
use opendab.Depuncture.Uep.{uep_profile_fits}
use opendab.Depuncture.Eep.{eep_profile_fits}

abbrev soft : Buffer
soft i = 1

-- 192 kbit/s at level 3, row 45 of the table.
abbrev music : Subch
music = record {
  subchid = 1;
  startaddr = 0;
  subchsz = 140;
  bitrate = 192;
  eepprot = 0;
  protlvl = 3;
  uep_indx = 45;
  dabplus = 0;
}

-- 48 kbit/s at level 3-A.
abbrev speech : Subch
speech = record {
  subchid = 2;
  startaddr = 140;
  subchsz = 36;
  bitrate = 48;
  eepprot = 1;
  protlvl = 2;
  uep_indx = 0;
  dabplus = 1;
}

uep_profile_fits_example :
    ((uep_depuncture soft music).j + 0 ≡ 64 * 140)
    × (length (uep_depuncture soft music).out ≡ 4 * (24 * 192 + 6))
uep_profile_fits_example = uep_profile_fits soft music (omega arith)

eep_profile_fits_example :
    ((eep_depuncture soft speech).j ≡ 64 * 36)
    × (length (eep_depuncture soft speech).out ≡ 4 * (24 * 48 + 6))
eep_profile_fits_example =
    eep_profile_fits soft speech 6 (omega arith) (omega arith) (λ e. omega arith) refl refl
