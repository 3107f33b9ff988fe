-- ===== src/Process.antt =====
-- `process_fic` of src/wfficproc.c: the three gathered symbols are decoded to blocks, and the groups of
-- the blocks are taken. The file that the blocks may be written to is left out.
pub mod Sound
use opendab.Base.{ℕ, ◌+◌, ◌*◌, Buffer, shift}
use opendab.Figs.{Subch}
use opendab.Fig.{Fic, Outcome, fibs_loop}
use opendab.Wfic.Decode.{Arrays, Scan, decode_blocks, fic_decode}

-- The ensemble and the memory of the blocks, the global `fibcnt`, and the arrays of the decoder.
pub record Fibs : Type 0 where
  pub fic : Fic
  pub fibcnt : ℕ
  pub arrays : Arrays

-- The globals but for the ensemble and the memory, of which the outcome of the walk tells.
pub record Processed : Type 0 where
  pub fibcnt : ℕ
  pub arrays : Arrays
  pub outcome : Outcome

pub process_fic : (Buffer → ℕ → Buffer → Buffer) → Buffer → Subch → Buffer → Fibs → Processed
process_fic k_viterbi stack junk ficsyms s =
    let symbols = λ (i : ℕ). shift ficsyms (384 * i) in
    let d = fic_decode k_viterbi stack symbols s.fic.mem s.arrays in
    record {
      fibcnt = s.fibcnt + d.okfibs;
      arrays = record (decode_blocks k_viterbi stack symbols s.arrays) { fib_b = d.fib_b };
      outcome = fibs_loop junk d.okfibs 0 (record s.fic { mem = d.obuf });
    }
