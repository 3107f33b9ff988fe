-- ===== src/Assembly.antt =====
-- `fic_assemble` of src/wfficproc.c: gathering the three symbols of the Fast Information Channel. The
-- call of `process_fic` is the flag of the result.
pub mod Flags
pub mod Gather
pub mod Turns
mod Examples
use opendab.Base.{
  memcpy, ℕ, ◌-◌, ◌*◌, Bool, true, false, ◌==◌, if◌then◌else◌, bit_or, Buffer, shift,
}

-- The static variables, and the buffer of the symbols' bytes.
pub record Assembly : Type 0 where
  pub sym_flags : ℕ
  pub cur_frame : ℕ
  pub ficsyms : Buffer

-- Symbol 2 begins a frame.
pub begin_frame : Buffer → Assembly → Assembly
begin_frame rdbuf a = record {
  cur_frame = rdbuf 3;
  sym_flags = 8;
  ficsyms = memcpy a.ficsyms 0 (shift rdbuf 12) 384;
}

-- Another symbol joins it, or ends it if it is of another frame.
pub join_frame : Buffer → Assembly → Assembly
join_frame rdbuf a =
    if rdbuf 3 == a.cur_frame
    then record a {
      sym_flags = bit_or a.sym_flags (rdbuf 2);
      ficsyms = memcpy a.ficsyms (384 * (rdbuf 2 - 2)) (shift rdbuf 12) 384;
    }
    else record a { sym_flags = 0 }

unfoldable pub fic_assemble : Buffer → Assembly → Assembly × Bool
fic_assemble rdbuf a =
    let joined = join_frame rdbuf a in
    if rdbuf 2 == 2
    then (begin_frame rdbuf a, false)
    else if joined.sym_flags == 15
    then (record joined { sym_flags = 0 }, true)
    else (joined, false)
