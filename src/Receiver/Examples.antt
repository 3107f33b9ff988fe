-- ===== src/Receiver/Examples.antt =====
-- The receiver before the first packet.
use opendab.Base.{ℕ, ◌≡◌, arith, true, false, none, [], ◌∷◌, Buffer, holding}
use opendab.Base.Int.{negsuc}
use opendab.Ensemble.{ficinit}
use opendab.Ensemble.Reach.{cleared}
use opendab.Ensemble.Examples.{no_subchannel, memory}
use opendab.Msc.{Ring}
use opendab.Process.{Fibs}
use opendab.Receiver.{Packet, Receiver, take_packet}
use opendab.Receiver.Invariant.{IsRunning, Keeps}
use opendab.Receiver.Packets.{take_packet-IsRunning}

abbrev pub zeros : Buffer
zeros i = 0

abbrev no_arrays : ℕ → Buffer
no_arrays k = zeros

-- A decoder that finds zeros.
abbrev pub no_viterbi : Buffer → ℕ → Buffer → Buffer
no_viterbi symbols bits out = zeros

abbrev ring : Ring
ring = record { frames = no_arrays; syms = zeros; head = 0; lframe = 0; first = true; full = false }

abbrev fibs : Fibs
fibs = record {
  fic = record { einf = ficinit memory; mem = zeros };
  fibcnt = 0;
  arrays = record {
    data_b = no_arrays;
    data_c = no_arrays;
    data_d = no_arrays;
    data_e = no_arrays;
    data9216 = zeros;
    fic_a = no_arrays;
    fic_b = no_arrays;
    fic_c = no_arrays;
    fic_d = no_arrays;
    fib_a = no_arrays;
    fib_b = no_arrays;
  };
}

abbrev pub before : Receiver
before = record {
  sync = record { seen_flags = 0; prsbuf = zeros };
  sync_locked = true;
  slock = false;
  synccnt = 0;
  sent = [];
  fic = record { sym_flags = 0; cur_frame = 0; ficsyms = zeros };
  fibs = fibs;
  enslistvisible = false;
  shown = [];
  rq = false;
  sel = record { sch = none; sid = 0 };
  sr = record { start = zeros; end = zeros; startcu = 0; endcu = 0; numsyms = 0 };
  selstr = zeros;
  selected = false;
  reception = record { ring = ring; cur_frame = 0; cifcnt = 0; buffer_full = false };
  decoder = record {
    lf = zeros;
    dpbuf = zeros;
    obuf = zeros;
    mp2 = record { header_valid = false; header_expected = true; out = [] };
    player = record { frame = 0; sfbuf = zeros; out = [] };
  };
}

before-IsRunning : IsRunning before
before-IsRunning = record {
  built = cleared memory;
  bounded = omega arith;
  complete = λ h. absurd (never h);
  chosen = λ h. absurd (never h);
  waiting = omega arith;
}
  where
    never : ¬ (false ≡ true)
    never h = ground (arith, h)

-- Symbol 2 of a frame.
abbrev pub packet : Packet
packet = record { bytes = holding (0x0c ∷ 0x62 ∷ 2 ∷ 1 ∷ []); lock = true; number = negsuc 0 }

take_packet-IsRunning_example :
    Keeps (take_packet no_viterbi (λ b. b) zeros no_subchannel packet before)
take_packet-IsRunning_example =
    take_packet-IsRunning no_viterbi (λ b. b) zeros no_subchannel packet before before-IsRunning
