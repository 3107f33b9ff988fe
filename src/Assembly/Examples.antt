-- ===== src/Assembly/Examples.antt =====
-- The three packets of a frame.
use opendab.Base.{ℕ, ◌+◌, ◌-◌, ◌≤◌, ◌≡◌, refl, arith, true, ◌==◌, if◌then◌else◌, Buffer}
use opendab.Assembly.{Assembly, begin_frame, join_frame, fic_assemble}
use opendab.Assembly.Gather.{
  IsPacket, Holds, IsGathered, cleared-IsGathered, fic_assemble-IsGathered, fic_assemble_lem,
}
use opendab.Assembly.Turns.{three_symbols}

-- Byte `x` of symbol `s` of any frame is `x`; the packets are of frame 7.
abbrev counting : ℕ → ℕ → Buffer
counting frame s x = x

abbrev packet : ℕ → Buffer
packet s i = if i == 2 then s else if i == 3 then 7 else i - 12

packet-IsPacket : (s : ℕ) → 2 ≤ s → s ≤ 4 → IsPacket counting (packet s)
packet-IsPacket s lo hi = record { low = lo; high = hi; bytes = λ x h. counted x }
  where
    counted : (x : ℕ) → packet s (12 + x) ≡ x
    counted x = ground arith

abbrev start : Assembly
start = record { sym_flags = 0; cur_frame = 6; ficsyms = λ i. 0 }

abbrev second : Assembly
second = (fic_assemble (packet 3) (fic_assemble (packet 2) start).0).0

second-IsGathered : IsGathered counting second
second-IsGathered =
    fic_assemble-IsGathered counting (packet 3) (fic_assemble (packet 2) start).0
      (packet-IsPacket 3 (omega arith) (omega arith))
      (fic_assemble-IsGathered counting (packet 2) start
        (packet-IsPacket 2 (omega arith) (omega arith)) (cleared-IsGathered counting start))

called : (fic_assemble (packet 4) second).1 ≡ true
unfolding fic_assemble begin_frame join_frame
called = refl

fic_assemble_lem_example :
    let b = (fic_assemble (packet 4) second).0 in
    (7 ≡ b.cur_frame)
    × Holds counting b.cur_frame b.ficsyms 2
    × Holds counting b.cur_frame b.ficsyms 3
    × Holds counting b.cur_frame b.ficsyms 4
fic_assemble_lem_example =
    fic_assemble_lem counting (packet 4) second (packet-IsPacket 4 (omega arith) (omega arith))
      second-IsGathered called

three_symbols_example :
    ((fic_assemble (packet 4) (fic_assemble (packet 3) (fic_assemble (packet 2) start).0).0).1
      ≡ true)
    × ((fic_assemble (packet 3) (fic_assemble (packet 4) (fic_assemble (packet 2) start).0).0).1
        ≡ true)
three_symbols_example =
    three_symbols (packet 2) (packet 3) (packet 4) start refl refl refl refl refl
