-- ===== src/Ensemble.antt =====
-- The ensemble that src/wfficproc.c builds up: its services and sub-channels, the list shown to the
-- user, and the choice of a service. An allocation that fails is not modelled.
pub mod Attach
pub mod Invariant
pub mod Reach
pub mod Menu
pub mod Examples
use mathlib.Core.Option
use opendab.Base.{
  ℕ, zero, suc, ◌+◌, ◌-◌, ◌*◌, Bool, true, false, not, ◌&&◌, ◌||◌, ◌==◌, ltb, if◌then◌else◌, Option,
  none, some, List, [], ◌∷◌, ◌++◌, length, get_or, set, Buffer,
}
use opendab.Base.Int.{ℤ, pos, negsuc}
use opendab.Figs.{Subch, Service, EnsInfo, Selsrv}

-- `struct mscstau` of src/figs.h.
pub record Mscstau : Type 0 where
  pub ca_flag : ℕ
  pub primary : ℕ
  pub subchid : ℕ
  pub ascty : ℕ
  pub tmid : ℕ

abbrev pub is_null : Option ℕ → Bool
is_null none = true
is_null (some i) = false

-- `e->schan[i] = s`
unfoldable pub set_schan : (ℕ → Subch) → ℕ → Subch → ℕ → Subch
set_schan schan i s k = if k == i then s else schan k

unfoldable pub ficinit : EnsInfo → EnsInfo
ficinit e = record e {
  num_schans = 0;
  num_srvs = 0;
  srv = [];
  schan = λ j. if ltb j 64 then record (e.schan j) { subchid = 0xffff } else e.schan j;
}

-- The place of the first service with an identifier; `none` is the null pointer.
pub find_service : List Service → ℕ → Option ℕ
find_service [] sid = none
find_service (s ∷ srvs) sid =
    if s.sid == sid then some 0 else Option.map suc (find_service srvs sid)

abbrev pub new_service : ℕ → Service
new_service sid = record { label = []; sid = sid; pa = none; sa = none }

-- The list with the service in it, and the place of the service: appended if it was not found.
pub located : List Service → ℕ → List Service × ℕ
located srvs sid = elim (find_service srvs sid) [
  | some i ↦ (srvs, i)
  | none ↦ (srvs ++ (new_service sid ∷ []), length srvs)
]

-- The test in front of the assignments, and the assignments.
pub is_missing : Mscstau → Service → Bool
is_missing ac s = (not (ac.primary == 0) && is_null s.pa) || ((ac.primary == 0) && is_null s.sa)

pub attach : Mscstau → Service → Service
attach ac s =
    if not (ac.primary == 0) && is_null s.pa
    then record s { pa = some ac.subchid }
    else if (ac.primary == 0) && is_null s.sa
    then record s { sa = some ac.subchid }
    else s

pub add_service : EnsInfo → Mscstau → ℕ → EnsInfo
add_service e ac sid =
    let (srvs, i) = located e.srv sid in
    let s = get_or srvs i (new_service sid) in
    let plus = if ac.ascty == 0x3f then 1 else 0 in
    record e {
      srv = set srvs i (attach ac s);
      num_srvs = e.num_srvs + (if is_missing ac s then 1 else 0);
      schan = set_schan e.schan ac.subchid (record (e.schan ac.subchid) { dabplus = plus });
    }

pub add_subchannel : EnsInfo → Subch → EnsInfo
add_subchannel e s =
    if ltb 64 (e.schan s.subchid).subchid
    then record e { schan = set_schan e.schan s.subchid s }
    else e

-- `strncpy(s->label, ...)` at the place of a service, unless that is the null pointer.
pub put_label : List Service → ℕ → List ℕ → Option ℕ → List Service
put_label srvs sid text none = srvs
put_label srvs sid text (some i) =
    set srvs i (record (get_or srvs i (new_service sid)) { label = text })

pub label_service : EnsInfo → ℕ → List ℕ → EnsInfo
label_service e sid text = record e { srv = put_label e.srv sid text (find_service e.srv sid) }

is_labelled : List Service → Bool
is_labelled [] = true
is_labelled (p ∷ srvs) = not (length p.label == 0) && is_labelled srvs

-- Whether all services are labelled; not so where there is none yet.
unfoldable pub labelled : EnsInfo → Bool
unfolding is_labelled
labelled e = not (length e.srv == 0) && is_labelled e.srv

-- A line of the list on the screen: its number, and the service and component that it shows.
pub record Line : Type 0 where
  pub number : ℕ
  pub sid : ℕ
  pub sch : Option ℕ

-- `disp_ensemble`: a secondary component is shown only behind a primary one.
pub disp_services : ℕ → List Service → List Line
disp_services i [] = []
disp_services i (p ∷ srvs) =
    let two = not (is_null p.pa) && not (is_null p.sa) in
    let rest = disp_services (if two then i + 2 else i + 1) srvs in
    record { number = i; sid = p.sid; sch = p.pa }
    ∷ (if two then record { number = i + 1; sid = p.sid; sch = p.sa } ∷ rest else rest)

pub disp_ensemble : EnsInfo → List Line
disp_ensemble e = disp_services 0 e.srv

-- The loop of `user_select_service` at the count `j`; it runs on to the end of the list.
pub choose : ℕ → ℕ → List Service → Selsrv → Selsrv
choose i j [] sel = sel
choose i j (p ∷ srvs) sel = choose i (if is_null p.sa then j + 1 else j + 2) srvs (
    if (j == i) || ((j + 1 == i) && not (is_null p.sa))
    then record { sid = p.sid; sch = if (j + 1 == i) && not (is_null p.sa) then p.sa else p.pa }
    else sel)

-- One call with the number that `wfgetnum` returned, -1 where there is none yet. `rq` says that the
-- question was put.
pub user_select_service : EnsInfo → ℤ → Bool → Selsrv → Bool × Selsrv
user_select_service e (negsuc zero) rq sel = (true, sel)
user_select_service e (negsuc (suc n)) rq sel = (false, record sel { sch = none })
user_select_service e (pos i) rq sel =
    if ltb i e.num_srvs then (true, choose i 0 e.srv sel) else (false, record sel { sch = none })
