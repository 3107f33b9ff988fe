-- ===== src/Extract/Examples.antt =====
-- A file with a packet that has not the header of the device.
use opendab.Base.{Bool, true, false, ◌≡◌, refl, arith, map, ◌==◌, if◌then◌else◌, List, [], ◌∷◌}
use opendab.Ensemble.Examples.{no_subchannel}
use opendab.Receiver.{Packet, Receiver, running, take_packet, take_fic, is_fic}
use opendab.Assembly.{Assembly, begin_frame, fic_assemble}
use opendab.Ensemble.{labelled, ficinit}
use opendab.Receiver.Packets.{take_packet-take_fic}
use opendab.Receiver.Examples.{zeros, no_viterbi, before, packet}
use opendab.Extract.{read_ensemble}
use opendab.Extract.Passes.{
  Agree, IsReading, fics_of, with_header, take_packets, read_ensemble-take_packets,
}

abbrev noise : Packet
noise = record packet { bytes = λ i. if i == 2 then 2 else 0 }

abbrev file : List Packet
file = packet ∷ noise ∷ packet ∷ []

file_packets : with_header file ≡ packet ∷ packet ∷ []
unfolding with_header
file_packets = refl

-- Two symbols 2, which leave the blocks as they are.
abbrev ready : Bool → Assembly → Receiver
ready slock fic = record before { slock = slock; fic = fic }

packet-taken :
    (slock : Bool) (fic : Assembly)
    → take_packet no_viterbi (λ b. b) zeros no_subchannel packet (ready slock fic)
      ≡ running (ready true (begin_frame packet.bytes fic))
unfolding take_fic is_fic fic_assemble labelled ficinit
packet-taken slock fic =
    take_packet-take_fic no_viterbi (λ b. b) zeros no_subchannel packet (ready slock fic) refl
      (omega arith) refl (λ e. omega (arith, e))

file-IsReading : IsReading no_viterbi (λ b. b) zeros no_subchannel (with_header file) before
unfolding IsReading with_header
file-IsReading = (
  refl,
  omega arith,
  λ e. omega (arith, e),
  rw (packet-taken false before.fic) (
    refl,
    omega arith,
    λ e. omega (arith, e),
    rw (packet-taken true (begin_frame packet.bytes before.fic)) tt,
  ),
)

read_ensemble-take_packets_example :
    Agree
      (read_ensemble no_viterbi
        (λ b. b)
        zeros
        no_subchannel
        (map (λ pk. pk.bytes) file)
        (fics_of before))
      (take_packets no_viterbi (λ b. b) zeros no_subchannel (with_header file) before)
read_ensemble-take_packets_example =
    read_ensemble-take_packets no_viterbi (λ b. b) zeros no_subchannel file before file-IsReading
