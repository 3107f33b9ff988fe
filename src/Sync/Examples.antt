-- ===== src/Sync/Examples.antt =====
-- The fourth block of a phase reference symbol, and calls of `wf_sync` and `wf_afc`.
use opendab.Base.{
  ℕ, ◌+◌, ◌-◌, ◌*◌, ◌/◌, ◌%◌, ◌≡◌, refl, arith, min, ltb, leb, true, false, List, [], ◌∷◌, ◌++◌,
  Buffer, holding,
}
use opendab.Base.Int.{pos, negsuc, pos_part, ◌+ℤ◌}
use opendab.Device.{Event, wf_timing_msg}
use opendab.Sync.Doubles.{Doubles, Timespec, word, milliseconds}
use opendab.Sync.Lock.{streak}
use opendab.Sync.Afc.{Afc, AreFrequent, afc_run, afc_run-silent}
use opendab.Sync.Reference.{wfref, local_reference, local_reference_turns}
use opendab.Sync.Send.{clock_value, clock_value_lem}
use opendab.Sync.Send.Calls.{IsRead, Call, call, synced, goods, mean, synced_lem}
use opendab.Sync.{PrsAssembly, prs_assemble}
use opendab.Sync.Blocks.{IsAssembled, prs_assemble_lem}

abbrev brought : ℕ → Buffer
brought k x = k + x

abbrev three_blocks : PrsAssembly
three_blocks = record { seen_flags = 7; prsbuf = λ i. brought (i / 512) (i % 512) }

three_blocks-IsAssembled : IsAssembled brought three_blocks
three_blocks-IsAssembled = record {
  bounded = omega arith;
  known = λ k x p q s.
      let d : (512 * k + x) / 512 ≡ k = omega (arith, q) in
      let m : (512 * k + x) % 512 ≡ x = omega (arith, q) in rw (d, m) refl;
}

abbrev fourth : Buffer
fourth = holding (0x0c ∷ 0x62 ∷ 0 ∷ 0 ∷ 0 ∷ 0 ∷ 0 ∷ 3 ∷ 0 ∷ 2 ∷ 0 ∷ 0 ∷ 9 ∷ [])

fourth_calls : (prs_assemble fourth three_blocks).1 ≡ true
unfolding prs_assemble
fourth_calls = refl

prs_assemble_lem_example : (prs_assemble fourth three_blocks).0.prsbuf (512 * 3 + 0) ≡ 9
prs_assemble_lem_example =
    prs_assemble_lem brought fourth three_blocks 3 0 (omega arith) three_blocks-IsAssembled
      fourth_calls (omega arith) (omega arith)

-- Numbers for doubles.
abbrev whole_numbers : Doubles
whole_numbers = record {
  Double = ℕ;
  zero_d = 0;
  plus = λ a b. a + b;
  over = λ a n. a / n;
  beyond = λ b a. ltb b a;
  first_offset = 1000;
  coarse = λ a offset. offset - a;
  fine = λ a offset. offset + 1;
  dac = λ a. pos a;
  to_w1 = λ a. pos (a * 81);
  to_w2 = λ a. pos a;
}

abbrev at : ℕ → Timespec
at ms = record { tv_sec = 1; tv_nsec = ms * 1000000 }

abbrev call_at : ℕ → ℕ → Call whole_numbers
call_at ms ir = record {
  measured = record { good = true; steps = pos 3; ir = ir };
  before = at ms;
  after = at ms;
  selstr = brought 5;
}

abbrev earlier : List (Call whole_numbers)
earlier = call_at 300 30 ∷ call_at 200 20 ∷ call_at 100 10 ∷ []

synced_lem_example :
    ((synced whole_numbers (call_at 400 40 ∷ earlier)).lock.sync_locked
      ≡ leb 4 (streak (goods whole_numbers (call_at 400 40 ∷ earlier))))
    × ((front : List Event) × (bytes : List ℕ) × ((call whole_numbers
            (call_at 400 40)
            (synced whole_numbers earlier)).0
          ≡ front ++ wf_timing_msg bytes)
        × IsRead
            (brought 5)
            (word (pos (mean whole_numbers (call_at 400 40 ∷ earlier) * 81)))
            (word (pos (mean whole_numbers (call_at 400 40 ∷ earlier))))
            bytes)
synced_lem_example = synced_lem whole_numbers (call_at 400 40) earlier

abbrev calls : List (Timespec × ℕ)
calls = (at 100, 400) ∷ (at 200, 400) ∷ (at 300, 400) ∷ []

abbrev before_calls : Afc whole_numbers
before_calls = record { offset = 1000; lmsec = 1000 }

calls-AreFrequent : AreFrequent whole_numbers 1000 calls
unfolding milliseconds
calls-AreFrequent = (omega arith, (omega arith, (omega arith, tt)))

afc_run-silent_example :
    ((afc_run whole_numbers calls before_calls).0 ≡ [])
    × ((afc_run whole_numbers calls before_calls).1.offset ≡ 1000)
afc_run-silent_example = afc_run-silent whole_numbers calls before_calls calls-AreFrequent

clock_value_lem_example :
    clock_value (negsuc 9) ≡ 0x1000 + min 0xff (pos_part (negsuc 9 +ℤ pos 0x7f))
clock_value_lem_example = clock_value_lem (negsuc 9) (omega arith)

local_reference_turns_example :
    local_reference false (brought 7) (brought 0) (24 + 2047)
    ≡ wfref (negsuc 11) 0x800 (brought 7) (brought 0) 2047
local_reference_turns_example =
    local_reference_turns (brought 0) (brought 7) 24 2047 (omega arith) (omega arith)
