-- ===== src/Fig.antt =====
-- src/wffigproc.c: fast information groups, and the walk over the groups of decoded fast information
-- blocks in `process_fic` of src/wfficproc.c. A structure of bit fields is laid over memory from the
-- lowest bit of the lowest byte. Output is left out, and so are the handlers that only print: FIG
-- 0/3, 0/10, 0/20, 0/21, 1/4 and FIG 5.
pub mod Walk
pub mod Fields
mod Examples
use opendab.Base.{
  ℕ, zero, suc, ◌+◌, ◌-◌, ◌*◌, ◌/◌, Bool, not, ◌&&◌, ◌==◌, ltb, if◌then◌else◌, List, [], ◌∷◌,
  Buffer, get_or, store, shift, for_range, window,
}
use opendab.Figs.{Subch, EnsInfo}
use opendab.Prot.{ueptable, eeptable}
use opendab.Depuncture.{no_profile, no_eep_profile}
use opendab.Bytes.{ipack, spack, sswab, load_short, field}
use opendab.Ensemble.{Mscstau, add_service, add_subchannel, label_service}

-- The global `einf` and the memory of the blocks.
pub record Fic : Type 0 where
  pub einf : EnsInfo
  pub mem : Buffer

-- What a handler comes to: it returns, it reads `eeptable` behind its end, or the bound on the rounds
-- of a loop was too low.
pub data Outcome : Type 0 where
  finished : Fic → Outcome
  outside_table : Outcome
  out_of_fuel : Outcome

unfoldable pub and_then : Outcome → (Fic → Outcome) → Outcome
and_then (finished st) f = f st
and_then outside_table f = outside_table
and_then out_of_fuel f = out_of_fuel

-- A text up to its NUL.
pub text : List ℕ → List ℕ
text [] = []
text (c ∷ cs) = let rest = text cs in if c == 0 then [] else c ∷ rest

abbrev pub set_einf : Fic → EnsInfo → Fic
set_einf st e = record st { einf = e }

pub fig_0_0 : ℕ → Fic → Fic
fig_0_0 at st =
    set_einf st (record st.einf { label = st.einf.label; eid = spack (shift st.mem at) })

-- One description of a sub-channel.
pub data Organization : Type 0 where
  described : Subch → ℕ → Organization
  behind_table : Organization

-- The round's assignments to `s`, with the bytes taken. The union overlays both forms.
pub short_form : ℕ → Subch → Subch
short_form f s =
    let p = get_or ueptable (field f 8 6) no_profile in
    record s {
      subchsz = p.subchsz;
      protlvl = p.protlvl;
      bitrate = p.bitrate;
      uep_indx = field f 8 6;
    }

pub long_form : ℕ → Subch → Subch
long_form f s =
    let level = field f 12 3 * 4 + field f 10 2 in
    let p = get_or eeptable level no_eep_profile in
    let size = field f 0 10 in
    record s { subchsz = size; protlvl = level; bitrate = size / p.sizemul * p.ratemul }

pub organization : ℕ → Subch → Organization
organization f s =
    let s = record s {
      subchid = field f 26 6;
      startaddr = field f 16 10;
      eepprot = field f 15 1;
    } in
    if not (field f 15 1 == 0)
    then (if ltb (field f 12 3 * 4 + field f 10 2) 8
        then described (long_form f s) 4
        else behind_table)
    else described (short_form f s) 3

-- `while (j > 0)`; `s` is a local variable that keeps what earlier rounds put into it.
pub fig_0_1_loop : ℕ → ℕ → ℕ → Subch → Fic → Outcome
fig_0_1_loop fuel zero at s st = finished st
fig_0_1_loop zero (suc j) at s st = out_of_fuel
fig_0_1_loop (suc fuel) (suc j) at s st = elim (organization (ipack (shift st.mem at)) s) [
  | described s' n ↦
      fig_0_1_loop fuel (suc j - n) (at + n) s' (set_einf st (add_subchannel st.einf s'))
  | behind_table ↦ outside_table
]

-- `junk` is what `s` holds before it is assigned to.
pub fig_0_1 : Subch → ℕ → ℕ → Fic → Outcome
fig_0_1 junk figlen at st = fig_0_1_loop figlen figlen at junk st

-- One service component: only streamed audio, `TMId` 0, is entered.
pub mscstau : ℕ → Mscstau
mscstau f = record {
  ca_flag = field f 0 1;
  primary = field f 1 1;
  subchid = field f 2 6;
  ascty = field f 8 6;
  tmid = field f 14 2;
}

pub service_component : Buffer → ℕ → ℕ → EnsInfo → EnsInfo
service_component fig sid k e =
    let ac = mscstau (spack (shift fig (2 * k))) in if ac.tmid == 0 then add_service e ac sid else e

-- `while (j > 0)`; a service identifier has four bytes if `pd` is set, otherwise two.
pub fig_0_2_loop : ℕ → ℕ → Bool → ℕ → Fic → Outcome
fig_0_2_loop fuel zero pd at st = finished st
fig_0_2_loop zero (suc j) pd at st = out_of_fuel
fig_0_2_loop (suc fuel) (suc j) pd at st =
    let fig = shift st.mem at in
    let sid = if pd then ipack fig else spack fig in
    let n = if pd then 4 else 2 in
    let scmp = field (fig n) 0 4 in
    fig_0_2_loop fuel (suc j - n - 1 - 2 * scmp) pd (at + n + 1 + 2 * scmp)
      (set_einf st (for_range scmp 0 (service_component (shift fig (n + 1)) sid) st.einf))

pub fig_0_2 : ℕ → Bool → ℕ → Fic → Outcome
fig_0_2 figlen pd at st = fig_0_2_loop figlen figlen pd at st

-- `fig_0_jtab` at the extension.
pub fig_0 : Subch → ℕ → ℕ → Fic → Outcome
fig_0 junk figlen at st =
    let extn = field (st.mem at) 0 5 in
    let pd = not (field (st.mem at) 5 1 == 0) in
    if extn == 0
    then finished (fig_0_0 (at + 1) st)
    else if extn == 1
    then fig_0_1 junk (figlen - 1) (at + 1) st
    else if extn == 2
    then fig_0_2 (figlen - 1) pd (at + 1) st
    else finished st

pub fig_1_0 : ℕ → Fic → Fic
fig_1_0 at st = set_einf st (record st.einf {
  label = text (window st.mem (at + 2) 16);
  eid = sswab (load_short (shift st.mem at));
})

pub fig_1_1 : ℕ → Fic → Fic
fig_1_1 at st = set_einf st (
    label_service st.einf (sswab (load_short (shift st.mem at))) (text (window st.mem (at + 2) 16)))

-- The label's last byte, behind the four of `SId`, is cleared in the block itself.
pub fig_1_5 : ℕ → Fic → Fic
fig_1_5 at st = record st { mem = store st.mem (at + 4 + 16) 0 }

-- `fig_1_jtab` at the extension.
pub fig_1 : ℕ → Fic → Fic
fig_1 at st =
    let extn = field (st.mem at) 0 3 in
    if extn == 0
    then fig_1_0 (at + 1) st
    else if extn == 1
    then fig_1_1 (at + 1) st
    else if extn == 5
    then fig_1_5 (at + 1) st
    else st

-- `fig_jtab` at the type.
pub unpickfig : Subch → ℕ → ℕ → Fic → Outcome
unpickfig junk at figlen st =
    let ftype = field (st.mem at) 5 3 in
    if ftype == 0
    then fig_0 junk figlen (at + 1) st
    else if ftype == 1
    then finished (fig_1 (at + 1) st)
    else finished st

-- `while ((j < 30) && (*fig != 0xff))` of one block.
pub fib_loop : Subch → ℕ → ℕ → ℕ → Fic → Outcome
fib_loop junk zero j at st =
    if ltb j 30 && not (st.mem at == 0xff) then out_of_fuel else finished st
fib_loop junk (suc fuel) j at st =
    let figlen = field (st.mem at) 0 5 in
    let rest =
      and_then (unpickfig junk at figlen st)
        (fib_loop junk fuel (j + figlen + 1) (at + figlen + 1)) in
    if ltb j 30 && not (st.mem at == 0xff) then rest else finished st

-- `for (i=0; i < fibs; i++)`, with `n` blocks to go.
pub fibs_loop : Subch → ℕ → ℕ → Fic → Outcome
fibs_loop junk zero i st = finished st
fibs_loop junk (suc n) i st = and_then (fib_loop junk 30 0 (30 * i) st) (fibs_loop junk n (i + 1))
