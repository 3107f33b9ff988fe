-- ===== src/Fig/Examples.antt =====
-- A block with a sub-channel, a service and the ensemble's label.
use opendab.Base.{ℕ, ◌≡◌, refl, arith, [], ◌∷◌, List, holding}
use opendab.Bytes.{ipack}
use opendab.Ensemble.{ficinit}
use opendab.Ensemble.Reach.{cleared}
use opendab.Ensemble.Examples.{no_subchannel, memory}
use opendab.Fig.{
  Fic, Outcome, finished, outside_table, out_of_fuel, and_then, described, organization, short_form,
  fig_0, fig_0_1, fig_0_2, fig_0_1_loop, fig_0_2_loop, unpickfig, fib_loop, fibs_loop,
}
use opendab.Fig.Walk.{Sound, fibs_loop-Sound}
use opendab.Fig.Fields.{long_word, organization-long}

-- FIG 0/1 with a short form, FIG 0/2 with one component, an end marker.
abbrev block : List ℕ
block =
    0x04 ∷ 0x01 ∷ 0x14 ∷ 0x03 ∷ 0x05 ∷ 0x06 ∷ 0x02 ∷ 0x12 ∷ 0x34 ∷ 0x01 ∷ 0x3f ∷ 0x16 ∷ 0xff ∷ []

abbrev before : Fic
before = record { einf = ficinit memory; mem = holding block }

abbrev state : Outcome → Fic
state (finished st) = st
state outside_table = before
state out_of_fuel = before

abbrev after : Fic
after = state (fibs_loop no_subchannel 1 0 before)

walked : fibs_loop no_subchannel 1 0 before ≡ finished after
unfolding fibs_loop fib_loop unpickfig fig_0 fig_0_1 fig_0_2 fig_0_1_loop fig_0_2_loop organization
    short_form and_then ipack
walked = refl

fibs_loop-Sound_example : Sound (fibs_loop no_subchannel 1 0 before)
fibs_loop-Sound_example = fibs_loop-Sound no_subchannel 1 0 before (cleared memory)

organization-long_example :
    organization (long_word 6 27 0 2 36) no_subchannel
    ≡ described
        (record no_subchannel {
          subchid = 6;
          startaddr = 27;
          eepprot = 1;
          subchsz = 36;
          protlvl = 2;
          bitrate = 48;
        })
        4
organization-long_example =
    organization-long 6 27 0 2 36 no_subchannel (omega arith) (omega arith) (omega arith)
      (omega arith) (omega arith)
