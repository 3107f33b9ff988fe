-- ===== src/Sync.antt =====
-- `prs_assemble` of src/wfsync.c: the four blocks of the phase reference symbol are put together. The
-- call of `wf_sync` is the flag of the result.
pub mod Blocks
pub mod Afc
pub mod Average
pub mod Doubles
pub mod Lock
pub mod Reference
pub mod Send
mod Examples
use opendab.Base.{
  ℕ, ◌*◌, ◌%◌, ◌^◌, bit_or, Bool, true, false, ◌==◌, if◌then◌else◌, Buffer, shift, memcpy,
}

-- The static variable, an unsigned char, and the buffer.
pub record PrsAssembly : Type 0 where
  pub seen_flags : ℕ
  pub prsbuf : Buffer

unfoldable pub prs_assemble : Buffer → PrsAssembly → PrsAssembly × Bool
prs_assemble rdbuf a =
    let blk = rdbuf 7 in
    let flags = bit_or a.seen_flags (2 ^ blk) % 2 ^ 8 in
    let prsbuf = memcpy a.prsbuf (blk * 512) (shift rdbuf 12) 512 in
    if blk == 0
    then (record { seen_flags = 1; prsbuf = memcpy a.prsbuf 0 (shift rdbuf 12) 512 }, false)
    else if flags == 15
    then (record { seen_flags = 0; prsbuf = prsbuf }, true)
    else (record { seen_flags = flags; prsbuf = prsbuf }, false)
