-- ===== src/Fig/Fields.antt =====
-- The bit fields of descriptions of sub-channels and services, against their layout in the standard.
use opendab.Base.{ℕ, ◌+◌, ◌*◌, ◌/◌, ◌^◌, ◌<◌, ◌≡◌, refl, arith, ltb, if◌then◌else◌, get_or}
use opendab.Figs.{Subch}
use opendab.Prot.{ueptable, eeptable}
use opendab.Depuncture.{no_profile, no_eep_profile}
use opendab.Bytes.{field}
use opendab.Fig.{described, behind_table, organization, short_form, long_form, mscstau}

-- The first 24 bits of the short form, `SubChId` 6, `StartAddr` 10, a 0, `TableSw` 1 and `TabIndx` 6,
-- high bits first, and a byte behind them.
abbrev pub short_word : ℕ → ℕ → ℕ → ℕ → ℕ → ℕ
short_word subchid startaddr tablesw tabindx next =
    (((subchid * 2 ^ 10 + startaddr) * 2 ^ 2 + tablesw) * 2 ^ 6 + tabindx) * 2 ^ 8 + next

-- The 32 bits of the long form: `SubChId` 6, `StartAddr` 10, a 1, `Opt` 3, `ProtLvl` 2, `SubChSz` 10.
abbrev pub long_word : ℕ → ℕ → ℕ → ℕ → ℕ → ℕ
long_word subchid startaddr opt protlvl subchsz =
    ((((subchid * 2 ^ 10 + startaddr) * 2 + 1) * 2 ^ 3 + opt) * 2 ^ 2 + protlvl) * 2 ^ 10 + subchsz

-- `fig_0_1` reads every field of the short form where the standard puts it, and takes size, level and
-- rate from the row of the table that the index names.
organization-short :
    (subchid startaddr tablesw tabindx next : ℕ) (s : Subch)
    → subchid < 64
    → startaddr < 1024
    → tablesw < 2
    → tabindx < 64
    → next < 256
    → let p = get_or ueptable tabindx no_profile in
      organization (short_word subchid startaddr tablesw tabindx next) s
      ≡ described
          (record s {
            subchid = subchid;
            startaddr = startaddr;
            eepprot = 0;
            subchsz = p.subchsz;
            protlvl = p.protlvl;
            bitrate = p.bitrate;
            uep_indx = tabindx;
          })
          3
unfolding organization short_form
organization-short subchid startaddr tablesw tabindx next s h1 h2 h3 h4 h5 =
    rw (id, start, form, index) refl
  where
    f : ℕ
    f = short_word subchid startaddr tablesw tabindx next

    id : field f 26 6 ≡ subchid
    id = omega arith

    start : field f 16 10 ≡ startaddr
    start = omega arith

    form : field f 15 1 ≡ 0
    form = omega arith

    index : field f 8 6 ≡ tabindx
    index = omega arith

-- `fig_0_1` reads every field of the long form where the standard puts it; option 0 gives the levels
-- 1-A to 4-A, option 1 the levels 1-B to 4-B. The code does not check the option: a further one makes it
-- read behind the end of `eeptable`, where the model has no result.
pub organization-long :
    (subchid startaddr opt protlvl subchsz : ℕ) (s : Subch)
    → subchid < 64
    → startaddr < 1024
    → opt < 8
    → protlvl < 4
    → subchsz < 1024
    → let p = get_or eeptable (opt * 4 + protlvl) no_eep_profile in
      organization (long_word subchid startaddr opt protlvl subchsz) s ≡ (
        if ltb opt 2
        then described
            (record s {
              subchid = subchid;
              startaddr = startaddr;
              eepprot = 1;
              subchsz = subchsz;
              protlvl = opt * 4 + protlvl;
              bitrate = subchsz / p.sizemul * p.ratemul;
            })
            4
        else behind_table)
unfolding organization long_form
organization-long subchid startaddr opt protlvl subchsz s h1 h2 h3 h4 h5 =
    rw (id, start, form, option, level, size, known) refl
  where
    f : ℕ
    f = long_word subchid startaddr opt protlvl subchsz

    id : field f 26 6 ≡ subchid
    id = omega arith

    start : field f 16 10 ≡ startaddr
    start = omega arith

    form : field f 15 1 ≡ 1
    form = omega arith

    option : field f 12 3 ≡ opt
    option = omega arith

    level : field f 10 2 ≡ protlvl
    level = omega arith

    size : field f 0 10 ≡ subchsz
    size = omega arith

    known : ltb (opt * 4 + protlvl) 8 ≡ ltb opt 2
    known = ground arith

-- `fig_0_2` reads the fields of a component, `TMId` 2, `ASCTy` 6, `SubChId` 6, `Primary` 1 and
-- `CAFlag` 1 with the high bits first, where the standard puts them.
pub mscstau_lem :
    (tmid ascty subchid primary ca_flag : ℕ)
    → tmid < 4
    → ascty < 64
    → subchid < 64
    → primary < 2
    → ca_flag < 2
    → mscstau ((((tmid * 2 ^ 6 + ascty) * 2 ^ 6 + subchid) * 2 + primary) * 2 + ca_flag) ≡ record {
      ca_flag = ca_flag;
      primary = primary;
      subchid = subchid;
      ascty = ascty;
      tmid = tmid;
    }
unfolding mscstau
mscstau_lem tmid ascty subchid primary ca_flag h1 h2 h3 h4 h5 = rw (ca, pri, sub, asc, tm) refl
  where
    f : ℕ
    f = (((tmid * 2 ^ 6 + ascty) * 2 ^ 6 + subchid) * 2 + primary) * 2 + ca_flag

    ca : field f 0 1 ≡ ca_flag
    ca = omega arith

    pri : field f 1 1 ≡ primary
    pri = omega arith

    sub : field f 2 6 ≡ subchid
    sub = omega arith

    asc : field f 8 6 ≡ ascty
    asc = omega arith

    tm : field f 14 2 ≡ tmid
    tm = omega arith
