-- ===== src/Msc.antt =====
-- src/wfmsc.c: the circular buffer of the last sixteen logical frames and time disinterleaving; Receive
-- has the assembly of a sub-channel's symbols.
pub mod Held
pub mod Written
pub mod Delay
pub mod Receive
pub mod Decode
pub mod Output
mod Examples
use opendab.Base.{
  ℕ, ◌+◌, ◌-◌, ◌*◌, ◌%◌, Bool, true, false, not, ◌&&◌, ◌==◌, ltb, leb, if◌then◌else◌, List, [], ◌∷◌,
  Buffer, get_or, store, for_range, shift, memcpy,
}
use opendab.Figs.{Symrange, bits_per_cu, bits_per_sym}

-- `cb` as the data and the number of symbols of each frame, with the static variables; `lfp` always
-- points to the frame of `lframe`, so the frame behind it has the next number.
pub record Ring : Type 0 where
  pub frames : ℕ → Buffer
  pub syms : Buffer
  pub head : ℕ
  pub lframe : ℕ
  pub first : Bool
  pub full : Bool

pub set_frame : (ℕ → Buffer) → ℕ → Buffer → ℕ → Buffer
set_frame frames k b i = if i == k then b else frames i

-- `wcbuf` with `reset`.
pub reset_cbuf : Ring → Ring
reset_cbuf c = record c {
  lframe = 0;
  head = 0;
  full = false;
  syms = for_range 16 0 (λ i b. store b i 0) c.syms;
}

-- The start of a write: `init_cbuf`, once. What `malloc` returns is any memory.
pub begun : Ring → Ring
begun c =
    if c.first
    then record c {
      syms = for_range 16 0 (λ i b. store b i 0) c.syms;
      lframe = 0;
      first = false;
      head = 0;
    }
    else c

-- On to the next frame, if the current one is complete.
pub advanced : ℕ → Ring → Ring
advanced numsyms c =
    if c.syms c.lframe == numsyms
    then record c {
      head = (c.head + 1) % 16;
      lframe = (c.lframe + 1) % 16;
      syms = store c.syms ((c.lframe + 1) % 16) 0;
    }
    else c

pub inserted : Buffer → ℕ → ℕ → Ring → Ring
inserted symdata len numsyms c =
    if ltb (c.syms c.lframe) numsyms
    then record c {
      frames =
          set_frame c.frames c.lframe
            (memcpy (c.frames c.lframe) (c.syms c.lframe * bits_per_sym) symdata len);
      syms = store c.syms c.lframe (c.syms c.lframe + 1);
    }
    else c

-- `wcbuf` without `reset`, and whether the buffer is full and the frame complete.
pub wcbuf : Buffer → ℕ → Symrange → Ring → Ring × Bool
wcbuf symdata len sr c =
    let c = advanced sr.numsyms (begun c) in
    let complete = ltb (c.syms c.lframe) sr.numsyms && (c.syms c.lframe + 1 == sr.numsyms) in
    let c = inserted symdata len sr.numsyms c in
    let c = record c { full = if c.lframe == 15 then true else c.full } in (c, c.full && complete)

abbrev pub delay_map : List ℕ
delay_map = 0 ∷ 8 ∷ 4 ∷ 12 ∷ 2 ∷ 10 ∷ 6 ∷ 14 ∷ 1 ∷ 9 ∷ 5 ∷ 13 ∷ 3 ∷ 11 ∷ 7 ∷ 15 ∷ []

-- One logical frame, written to `obuf`.
pub time_disinterleave : Buffer → ℕ → Symrange → Ring → Buffer
time_disinterleave obuf subchsz sr c =
    for_range (subchsz * bits_per_cu) 0
      (λ i b.
        store b i
          (c.frames ((c.head + get_or delay_map (i % 16) 0) % 16) (bits_per_cu * sr.startcu + i)))
      obuf
