-- ===== src/Receiver.antt =====
-- The loop of src/wf.c over the packets that the device sends, without the options -d and -f. Of a
-- packet, what `wf_sync` finds of its phase reference symbol, and the number that the user has typed,
-- are given with it; the messages to the device are the ten bytes of each call of `wf_sync`.
pub mod Invariant
pub mod Packets
pub mod Examples
use opendab.Base.{
  ℕ, ◌+◌, ◌-◌, Bool, true, false, not, ◌&&◌, ◌||◌, ◌==◌, ltb, if◌then◌else◌, Option, none, some,
  List, [], ◌∷◌, ◌++◌, Buffer, holding, window,
}
use opendab.Base.Int.{ℤ}
use opendab.Figs.{Subch, Symrange, EnsInfo, Selsrv}
use opendab.Fig.{Fic, Outcome, finished, outside_table, out_of_fuel}
use opendab.Ensemble.{Line, labelled, disp_ensemble, user_select_service}
use opendab.Symsel.{startsym, wfsymsel}
use opendab.Sync.{PrsAssembly, prs_assemble}
use opendab.Assembly.{Assembly, fic_assemble}
use opendab.Process.{Fibs, Processed, process_fic}
use opendab.Msc.Receive.{Reception, msc_assemble}
use opendab.Msc.Decode.{Decoder, Decoded, decoded, no_result, msc_decode}

pub record Packet : Type 0 where
  pub bytes : Buffer
  pub lock : Bool
  pub number : ℤ

-- The variables of `main`, and the state of the stages. `rq` is static in `user_select_service`; what
-- was shown is the list of services, and what was sent the bytes for the device.
pub record Receiver : Type 0 where
  pub sync : PrsAssembly
  pub sync_locked : Bool
  pub slock : Bool
  pub synccnt : ℕ
  pub sent : List (List ℕ)
  pub fic : Assembly
  pub fibs : Fibs
  pub enslistvisible : Bool
  pub shown : List Line
  pub rq : Bool
  pub sel : Selsrv
  pub sr : Symrange
  pub selstr : Buffer
  pub selected : Bool
  pub reception : Reception
  pub decoder : Decoder

-- A call may have no result: see `Outcome` and `Played`.
pub data Ran : Type 0 where
  running : Receiver → Ran
  stopped : Ran

-- `#define MAXFIBS 700`
abbrev pub max_fibs : ℕ
max_fibs = 700

abbrev pub chgstr : List ℕ
chgstr = 0x00 ∷ 0xf0 ∷ 0x11 ∷ 0x11 ∷ 0x11 ∷ 0x11 ∷ 0x11 ∷ 0x11 ∷ 0x11 ∷ 0x11 ∷ []

-- A packet with a block of the phase reference symbol.
pub take_prs : Packet → Receiver → Receiver
take_prs pk r =
    let symstr = if ltb 0 r.synccnt then holding chgstr else r.selstr in
    let (sync, called) = prs_assemble pk.bytes r.sync in
    if pk.bytes 9 == 2
    then record r {
      synccnt = r.synccnt - 1;
      sync = sync;
      sync_locked = if called then pk.lock else r.sync_locked;
      sent = if called then r.sent ++ (window symstr 0 10 ∷ []) else r.sent;
    }
    else r

unfoldable pub is_fic : ℕ → Bool
is_fic sym = (sym == 2) || (sym == 3) || (sym == 4)

abbrev pub with_outcome : Receiver → Processed → Ran
with_outcome r p = elim p.outcome [
  | finished fic ↦
      running (record r { fibs = record { fic = fic; fibcnt = p.fibcnt; arrays = p.arrays } })
  | outside_table ↦ stopped
  | out_of_fuel ↦ stopped
]

abbrev pub with_decoded : Receiver → Decoded → Ran
with_decoded r (decoded d) = running (record r { decoder = d })
with_decoded r no_result = stopped

-- Before the services are labelled.
unfoldable pub take_fic : (Buffer → ℕ → Buffer → Buffer) → Buffer → Subch → Packet → Receiver → Ran
take_fic k_viterbi stack junk pk r =
    let (fic, called) = fic_assemble pk.bytes r.fic in
    let p = process_fic k_viterbi stack junk fic.ficsyms r.fibs in
    if is_fic (pk.bytes 2)
    then (if called
        then with_outcome (record r { fic = fic }) p
        else running (record r { fic = fic }))
    else running r

-- Once, when a service is chosen: `sel_srv.sch` is `s`.
pub select_service : Subch → Receiver → Receiver
select_service s r =
    let sr = startsym r.sr s in
    if not r.selected && ltb s.subchid 64
    then record r { sr = sr; selstr = wfsymsel r.selstr sr; selected = true; synccnt = 6 }
    else r

-- A symbol of the Main Service Channel, if the device sends those that were asked for.
pub take_msc :
    (Buffer → ℕ → Buffer → Buffer) → (Buffer → Buffer) → Buffer → Subch → Packet → Receiver → Ran
take_msc k_viterbi decode_rs stack s pk r =
    let reception = msc_assemble stack pk.bytes r.sr r.reception in
    let r' = record r { reception = reception } in
    if (r.synccnt == 0) && ltb 4 (pk.bytes 2)
    then (if reception.buffer_full
        then with_decoded r' (msc_decode k_viterbi decode_rs stack s r.sr reception.ring r.decoder)
        else running r')
    else running r

pub show_ensemble : Receiver → Receiver
show_ensemble r =
    if not r.enslistvisible
    then record r { shown = disp_ensemble r.fibs.fic.einf; enslistvisible = true }
    else r

-- `sel_srv.sch` as the argument.
pub serve :
    (Buffer → ℕ → Buffer → Buffer) → (Buffer → Buffer) → Buffer → Packet → Receiver → Option ℕ → Ran
serve k_viterbi decode_rs stack pk r none =
    let (rq, sel) = user_select_service r.fibs.fic.einf pk.number r.rq r.sel in
    running (record r { rq = rq; sel = sel })
serve k_viterbi decode_rs stack pk r (some i) =
    let s = r.fibs.fic.einf.schan i in take_msc k_viterbi decode_rs stack s pk (select_service s r)

-- One round of the loop over the packets.
pub take_packet :
    (Buffer → ℕ → Buffer → Buffer) → (Buffer → Buffer) → Buffer → Subch → Packet → Receiver → Ran
take_packet k_viterbi decode_rs stack junk pk r =
    let r = take_prs pk r in
    let r = record r { slock = r.slock || r.sync_locked } in
    if r.sync_locked
    then (if ltb r.fibs.fibcnt max_fibs && not (labelled r.fibs.fic.einf)
        then take_fic k_viterbi stack junk pk r
        else serve k_viterbi decode_rs stack pk (show_ensemble r) r.sel.sch)
    else running r
