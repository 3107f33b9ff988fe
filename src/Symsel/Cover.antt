-- ===== src/Symsel/Cover.antt =====
-- `startsym` against the capacity units of a sub-channel.
use opendab.Base.{ℕ, ◌+◌, ◌-◌, ◌*◌, ◌/◌, ◌<◌, ◌≤◌, ◌≡◌, arith, store, for_range}
use opendab.Figs.{Subch, Symrange, cus_per_sym, msc_start, syms_per_cif}
use opendab.Symsel.{startsym}

-- The bounds of the four ranges.
pub startsym_ranges :
    (r : Symrange) (s : Subch) (i : ℕ)
    → i < 4
    → ((startsym r s).start i ≡ s.startaddr / 48 + 5 + 18 * i)
      × ((startsym r s).end i ≡ (s.startaddr + s.subchsz) / 48 + 5 + 18 * i)
unfolding startsym store for_range
startsym_ranges r s i h = ground arith

-- For each of the four common interleaved frames, the symbol of a capacity unit `cu` of the
-- sub-channel lies between the first and the last symbol chosen; and counted from the first
-- symbol's start, the unit lies `startcu` further than in the sub-channel, within `numsyms` symbols.
pub startsym_covers :
    (r : Symrange) (s : Subch) (i cu : ℕ)
    → i < 4
    → s.startaddr ≤ cu
    → cu < s.startaddr + s.subchsz
    → ((startsym r s).start i ≤ cu / cus_per_sym + msc_start + syms_per_cif * i)
      × (cu / cus_per_sym + msc_start + syms_per_cif * i ≤ (startsym r s).end i)
      × (cus_per_sym * ((startsym r s).start 0 - msc_start)
            + ((startsym r s).startcu + (cu - s.startaddr))
          ≡ cu)
      × ((startsym r s).startcu + (cu - s.startaddr) < cus_per_sym * (startsym r s).numsyms)
startsym_covers r s i cu h lo hi = (
  omega (arith, startsym_ranges r s i h),
  omega (arith, startsym_ranges r s i h),
  unfold startsym in omega (arith, startsym_ranges r s 0 (omega arith)),
  unfold startsym in omega (arith, startsym_ranges r s 0 (omega arith)),
)

-- A sub-channel that ends with the last of the 864 capacity units of a frame has a last symbol of 77,
-- behind the symbols of a transmission frame, which end at 76.
startsym_past :
    (r : Symrange) (s : Subch) → s.startaddr + s.subchsz ≡ 864 → (startsym r s).end 3 ≡ 77
startsym_past r s h = omega (arith, h, startsym_ranges r s 3 (omega arith))
