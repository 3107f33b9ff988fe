-- ===== src/Depuncture.antt =====
-- src/wfmdepunc.c: unequal and equal error protection depuncturing of the Main Service Channel. The
-- output is written in order, so it is the list of what is written; `*len` is its length.
pub mod Counts
pub mod Uep
pub mod Eep
mod Examples
use opendab.Base.{
  ℕ, ◌+◌, ◌-◌, ◌*◌, ◌/◌, ◌%◌, ◌^◌, Bool, not, ◌&&◌, ◌==◌, if◌then◌else◌, List, [], ◌∷◌, ◌++◌,
  Buffer, for_range, get_or,
}
use opendab.Base.Int.{ℤ, pos, negsuc, pos_part, neg_part, ◌+ℤ◌}
use opendab.Figs.{Subch}
use opendab.Prot.{Blocks, UepProf, EepProf, ueptable, eeptable, eep2a8kbps, pvec}

-- `pvec[pi]`; the entries of -1 belong to blocks of length 0 and are not looked up.
pub vector : ℤ → List ℕ
vector (pos k) = get_or pvec k []
vector (negsuc k) = []

-- The loops' variables: the next input, and the output so far (`k` is its length).
pub record Stream : Type 0 where
  pub j : ℕ
  pub out : List ℕ

abbrev pub kept : List ℕ → ℕ → Bool
kept v i = not (get_or v (i % 32) 0 == 0)

-- Bits are sent on as 127 and 129, what was punctured as 128.
pub emit : List ℕ → Buffer → ℕ → Stream → Stream
emit v inbuf i s =
    if kept v i
    then record { j = s.j + 1; out = s.out ++ ((128 - 1 + inbuf s.j * 2) % 2 ^ 8 ∷ []) }
    else record { j = s.j; out = s.out ++ (128 ∷ []) }

-- `for (i=0; i < n; i++)` of one block.
pub block : List ℕ → Buffer → ℕ → Stream → Stream
block v inbuf n s = for_range n 0 (emit v inbuf) s

abbrev pub start : Stream
start = record { j = 0; out = [] }

abbrev pub uep_blocks : Buffer → UepProf → ℕ → Stream → Stream
uep_blocks inbuf p indx s =
    block (vector (get_or p.pi indx (negsuc 0))) inbuf (128 * get_or p.l indx 0) s

abbrev pub last_bits : Buffer → Stream → Stream
last_bits inbuf s = block (vector (pos 7)) inbuf 24 s

-- What stands for a row behind the table; `uep_indx` is below 64 where it was set.
abbrev pub no_profile : UepProf
no_profile = record { bitrate = 0; subchsz = 0; protlvl = 0; l = []; pi = []; padbits = 0 }

-- The four blocks and the last 24 bits of a profile.
pub uep_profile_depuncture : Buffer → UepProf → Stream
uep_profile_depuncture inbuf p = last_bits inbuf (
    uep_blocks inbuf p 3 (uep_blocks inbuf p 2 (uep_blocks inbuf p 1 (uep_blocks inbuf p 0 start))))

abbrev pub no_eep_profile : EepProf
no_eep_profile = record { sizemul = 0; ratemul = 0; l = []; pi = [] }

abbrev pub no_blocks : Blocks
no_blocks = record { mul = 0; offset = pos 0 }

pub uep_depuncture : Buffer → Subch → Stream
uep_depuncture inbuf s = uep_profile_depuncture inbuf (get_or ueptable s.uep_indx no_profile)

-- The profile, with the special case for EEP 2-A at 8 kbit/s.
pub eep_profile : Subch → EepProf
eep_profile s =
    if (s.bitrate == 8) && (s.protlvl == 1)
    then eep2a8kbps
    else get_or eeptable s.protlvl no_eep_profile

-- `BLKSIZE * (p.l[indx].mul * n + p.l[indx].offset)` rounds: none where that is negative.
abbrev pub eep_rounds : EepProf → ℕ → ℕ → ℕ
eep_rounds p n indx =
    let b = get_or p.l indx no_blocks in 128 * pos_part (pos (b.mul * n) +ℤ b.offset)

abbrev pub eep_blocks : Buffer → EepProf → ℕ → ℕ → Stream → Stream
eep_blocks inbuf p n indx s =
    block (vector (get_or p.pi indx (negsuc 0))) inbuf (eep_rounds p n indx) s

pub eep_profile_depuncture : Buffer → EepProf → ℕ → Stream
unfolding ◌+ℤ◌
eep_profile_depuncture inbuf p n =
    last_bits inbuf (eep_blocks inbuf p n 1 (eep_blocks inbuf p n 0 start))

pub eep_depuncture : Buffer → Subch → Stream
eep_depuncture inbuf s =
    let p = eep_profile s in eep_profile_depuncture inbuf p (s.subchsz / p.sizemul)
