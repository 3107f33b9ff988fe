-- ===== src/Process/Sound.antt =====
-- What processing does to the ensemble and to the count of blocks.
use opendab.Base.{ℕ, ◌+◌, ◌≤◌, arith, Buffer, shift, ◌*◌}
use opendab.Figs.{Subch}
use opendab.Ensemble.Reach.{Reachable}
use opendab.Fig.Walk.{Sound, fibs_loop-Sound}
use opendab.Wfic.Decode.Whole.{fic_decode_lem}
use opendab.Process.{Fibs, process_fic}

-- Whatever the three symbols hold, processing them adds at most twelve blocks to the count, and returns
-- an ensemble that the operations build up, or reads `eeptable` behind its end.
pub process_fic-Sound :
    (k_viterbi : Buffer → ℕ → Buffer → Buffer) (stack : Buffer) (junk : Subch) (ficsyms : Buffer)
    (s : Fibs)
    → Reachable s.fic.einf
    → Sound (process_fic k_viterbi stack junk ficsyms s).outcome
      × ((process_fic k_viterbi stack junk ficsyms s).fibcnt ≤ s.fibcnt + 12)
unfolding process_fic
process_fic-Sound k_viterbi stack junk ficsyms s r = (
  fibs_loop-Sound junk _ 0 _ r,
  omega (
    arith,
    (fic_decode_lem k_viterbi stack (λ (i : ℕ). shift ficsyms (384 * i)) s.fic.mem s.arrays).1,
  ),
)
