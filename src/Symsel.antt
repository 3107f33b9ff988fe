-- ===== src/Symsel.antt =====
-- src/wfsymsel.c: the symbols that carry a sub-channel, and the bytes that make the receiver send them.
pub mod Bits
pub mod Bytes
pub mod Cover
pub mod Exact
mod Examples
use opendab.Base.{
  ℕ, ◌+◌, ◌-◌, ◌*◌, ◌/◌, ◌%◌, ◌^◌, ltb, if◌then◌else◌, bit_and, bit_or, Buffer, store, for_range,
}
use opendab.Figs.{Subch, Symrange, cus_per_sym, msc_start, syms_per_cif}

pub startsym : Symrange → Subch → Symrange
startsym r s =
    let first = store r.start 0 (s.startaddr / cus_per_sym + msc_start) in
    let last = store r.end 0 ((s.startaddr + s.subchsz) / cus_per_sym + msc_start) in
    let start = for_range 3 0 (λ i b. store b (i + 1) (b i + syms_per_cif)) first in
    let end = for_range 3 0 (λ i b. store b (i + 1) (b i + syms_per_cif)) last in
    record {
      start = start;
      end = end;
      startcu = s.startaddr % cus_per_sym;
      endcu = (s.startaddr + s.subchsz) % cus_per_sym;
      numsyms = end 0 - start 0 + 1;
    }

-- The unsigned 64-bit `l` and the unsigned 32-bit `h`.
pub record Selection : Type 0 where
  pub l : ℕ
  pub h : ℕ

pub select_symbol : ℕ → Selection → Selection
select_symbol j t =
    if ltb j 63
    then record t { l = bit_or t.l (0xc000000000000000 / 2 ^ (j - 2)) }
    else record t { h = bit_or t.h (0xc0000000 / 2 ^ (j - 48 - 2)) }

pub selection : Symrange → Selection
selection r =
    for_range 4 0 (λ i t. for_range (r.end i + 1 - r.start i) (r.start i) select_symbol t)
      (record { l = 0; h = 0 })

-- `swab`: the bytes of a value of `n` pairs of bytes, adjacent ones changed.
pub swab : ℕ → ℕ → ℕ
swab n x =
    for_range n 0
      (λ k t. t + (x / 2 ^ (16 * k + 8) % 2 ^ 8 + x / 2 ^ (16 * k) % 2 ^ 8 * 2 ^ 8) * 2 ^ (16 * k))
      0

pub wfsymsel : Buffer → Symrange → Buffer
wfsymsel sel r =
    let s = selection r in
    let t = swab 4 s.l in
    let j = swab 2 s.h in
    let sel = for_range 10 0 (λ i b. store b i 0) sel in
    let sel =
      for_range 8 0 (λ i b. store b i (bit_or (b i) (bit_and (t / 2 ^ (8 * (7 - i))) 0xff))) sel in
    let sel =
      for_range 4 0
        (λ i b. store b (i + 6) (bit_or (b (i + 6)) (bit_and (j / 2 ^ (8 * (3 - i))) 0xff))) sel in
    store sel 1 (bit_or (sel 1) 0xf0)
