-- ===== src/Driver/Examples.antt =====
-- Two packets, one of them sent twice, and a slow reader.
use opendab.Base.{ℕ, ◌≡◌, refl, arith, List, [], ◌∷◌, ◌++◌, Buffer, holding, memcpy}
use opendab.Driver.{WaveFinder, IsoPacket, strncmp, is_new, copy_packet, wavefinder_read}
use opendab.Driver.Fifo.{pending, Op, arrive, read, run, all_arrived, all_got, AllHaveRoom, run_lem}

abbrev zeros : Buffer
zeros i = 0

abbrev opened : WaveFinder
opened = record { count = 0; readptr = 0; pipesize = 524; recbuf = zeros; prev_h = zeros }

abbrev packet : ℕ → IsoPacket
packet sym = record { status = 0; actual_length = 4; bytes = holding (0x0c ∷ 0x62 ∷ sym ∷ 7 ∷ []) }

abbrev steps : List Op
steps = arrive (packet 2) ∷ arrive (packet 2) ∷ read 3 ∷ arrive (packet 3) ∷ read 100 ∷ []

steps_got : all_got steps opened ≡ 0x0c ∷ 0x62 ∷ 2 ∷ 7 ∷ 0x0c ∷ 0x62 ∷ 3 ∷ 7 ∷ []
unfolding is_new copy_packet wavefinder_read strncmp memcpy
steps_got = refl

steps_fit : AllHaveRoom steps opened
unfolding is_new copy_packet wavefinder_read strncmp memcpy
steps_fit = (omega arith, (omega arith, (tt, (omega arith, (tt, tt)))))

run_lem_example :
    pending opened ++ all_arrived steps opened ≡ all_got steps opened ++ pending (run steps opened)
run_lem_example =
    run_lem steps opened (record { behind = omega arith; within = omega arith }) steps_fit
