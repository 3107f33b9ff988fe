-- ===== src/Ensemble/Examples.antt =====
-- An ensemble with one service.
use opendab.Base.{◌≡◌, refl, arith, true, none, [], All}
use opendab.Base.Int.{pos}
use opendab.Figs.{Subch, EnsInfo, Selsrv}
use opendab.Ensemble.{
  Mscstau, ficinit, find_service, located, attach, add_service, disp_ensemble, user_select_service,
}
use opendab.Ensemble.Invariant.{IsConsistent}
use opendab.Ensemble.Reach.{Reachable, cleared, with_service, Reachable-IsConsistent}
use opendab.Ensemble.Menu.{HasPrimary, user_select_service-disp_ensemble}

abbrev pub no_subchannel : Subch
no_subchannel = record {
  subchid = 0;
  startaddr = 0;
  subchsz = 0;
  bitrate = 0;
  eepprot = 0;
  protlvl = 0;
  uep_indx = 0;
  dabplus = 0;
}

abbrev pub memory : EnsInfo
memory = record {
  label = [];
  eid = 0;
  num_srvs = 9;
  num_schans = 9;
  srv = [];
  schan = λ i. no_subchannel;
}

abbrev audio : Mscstau
audio = record { ca_flag = 0; primary = 1; subchid = 5; ascty = 0x3f; tmid = 0 }

abbrev station : EnsInfo
station = add_service (ficinit memory) audio 0x1234

station-Reachable : Reachable station
station-Reachable = with_service (ficinit memory) audio 0x1234 (omega arith) (cleared memory)

Reachable-IsConsistent_example : IsConsistent station
Reachable-IsConsistent_example = Reachable-IsConsistent station station-Reachable

abbrev nothing : Selsrv
nothing = record { sch = none; sid = 0 }

station-HasPrimary : All HasPrimary station.srv
unfolding add_service ficinit located find_service attach
station-HasPrimary = (refl, tt)

user_select_service-disp_ensemble_example :
    All
      (λ line.
        user_select_service station (pos line.number) true nothing
        ≡ (true, record { sch = line.sch; sid = line.sid }))
      (disp_ensemble station)
user_select_service-disp_ensemble_example =
    user_select_service-disp_ensemble station true nothing
      (Reachable-IsConsistent station station-Reachable) station-HasPrimary
