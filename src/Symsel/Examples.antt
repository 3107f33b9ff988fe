-- ===== src/Symsel/Examples.antt =====
-- The symbols of concrete sub-channels.
use opendab.Base.{store, for_range, ◌+◌, ◌-◌, ◌*◌, ◌<◌, ◌≤◌, ◌≡◌, arith}
use opendab.Figs.{Subch, Symrange}
use opendab.Symsel.{startsym, wfsymsel}
use opendab.Symsel.Cover.{startsym_covers}
use opendab.Symsel.Bits.{bit}
use opendab.Symsel.Exact.{wfsymsel_lem}

abbrev range : Symrange
range = record { start = λ i. 0; end = λ i. 0; startcu = 0; endcu = 0; numsyms = 0 }

abbrev subchannel : Subch
subchannel = record {
  subchid = 2;
  startaddr = 780;
  subchsz = 84;
  bitrate = 128;
  eepprot = 0;
  protlvl = 4;
  uep_indx = 34;
  dabplus = 0;
}

startsym_covers_example :
    ((startsym range subchannel).start 2 ≤ 58)
    × (58 ≤ (startsym range subchannel).end 2)
    × (48 * ((startsym range subchannel).start 0 - 5) + ((startsym range subchannel).startcu + 50)
        ≡ 830)
    × ((startsym range subchannel).startcu + 50 < 48 * (startsym range subchannel).numsyms)
startsym_covers_example =
    startsym_covers range subchannel 2 830 (omega arith) (omega arith) (omega arith)

-- Symbol 21 begins the first range, so that the two places before it, 19 and 20, are asked for.
wfsymsel_lem_example : bit 4 (wfsymsel (λ i. 7) (startsym range subchannel) 3) ≡ 1
unfolding startsym store for_range
wfsymsel_lem_example =
    wfsymsel_lem (λ i. 7) range subchannel 3 4 (omega arith) (omega arith) (omega arith)
