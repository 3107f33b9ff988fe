-- ===== src/Extract.antt =====
-- src/wfx.c: the audio of a service out of a file of packets, which wf has written. The command line, the
-- files of blocks and the messages to the user are left out. Of the file, the packets that are there
-- whole are given.
pub mod Passes
mod Examples
use opendab.Base.{
  ℕ, zero, suc, ◌+◌, ◌-◌, Bool, true, false, not, ◌&&◌, ◌||◌, ◌==◌, ltb, if◌then◌else◌, Option,
  none, some, List, [], ◌∷◌, Buffer,
}
use opendab.Base.Int.{ℤ, pos, negsuc}
use opendab.Figs.{Subch, Symrange, EnsInfo, Selsrv}
use opendab.Fig.{Fic, finished, outside_table, out_of_fuel}
use opendab.Ensemble.{labelled, user_select_service}
use opendab.Symsel.{startsym}
use opendab.Assembly.{Assembly, fic_assemble}
use opendab.Process.{Fibs, Processed, process_fic}
use opendab.Msc.Receive.{Reception, msc_assemble}
use opendab.Msc.Decode.{Decoder, Decoded, decoded, no_result, msc_decode}

-- `#define FSKIP 800`
abbrev pub fskip : ℕ
fskip = 800

-- `wfgetnum`: the first of the numbers typed in that is a service's; none if there is no such number.
pub wfgetnum : EnsInfo → List ℤ → Option ℕ
wfgetnum e [] = none
wfgetnum e (negsuc n ∷ typed) = wfgetnum e typed
wfgetnum e (pos i ∷ typed) = if ltb i e.num_srvs then some i else wfgetnum e typed

-- The header of a packet, 0x0c 0x62.
abbrev pub is_packet : Buffer → Bool
is_packet pktbuf = (pktbuf 0 == 0x0c) && (pktbuf 1 == 0x62)

-- The first loop works on the blocks; a call may have no result: see `Outcome`.
pub record Fics : Type 0 where
  pub fic : Assembly
  pub fibs : Fibs

pub data Read : Type 0 where
  read : Fics → Read
  stopped : Read

abbrev after_fic : Fics → Processed → Read
after_fic s p = elim p.outcome [
  | finished fic ↦
      read (record s { fibs = record { fic = fic; fibcnt = p.fibcnt; arrays = p.arrays } })
  | outside_table ↦ stopped
  | out_of_fuel ↦ stopped
]

-- What the second loop works on.
pub record Playing : Type 0 where
  pub reception : Reception
  pub decoder : Decoder

pub data Extracted : Type 0 where
  playing : Playing → Extracted
  no_sound : Extracted

abbrev after_decoding : Reception → Decoded → Extracted
after_decoding reception (decoded d) = playing (record { reception = reception; decoder = d })
after_decoding reception no_result = no_sound

abbrev go_on : Extracted → (Playing → Extracted) → Extracted
go_on (playing p) next = next p
go_on no_sound next = no_sound

module _ (k_viterbi : Buffer → ℕ → Buffer → Buffer) (decode_rs : Buffer → Buffer)
    (stack : Buffer) where
  -- A round of the first loop.
  pub read_packet : Subch → Buffer → Fics → Read
  read_packet junk pktbuf s =
      let (fic, called) = fic_assemble pktbuf s.fic in
      let p = process_fic k_viterbi stack junk fic.ficsyms s.fibs in
      if is_packet pktbuf && ((pktbuf 2 == 2) || (pktbuf 2 == 3) || (pktbuf 2 == 4))
      then (if called then after_fic (record s { fic = fic }) p else read (record s { fic = fic }))
      else read s

  -- Until the services are labelled.
  pub read_ensemble : Subch → List Buffer → Fics → Read
  read_ensemble junk [] s = read s
  read_ensemble junk (pktbuf ∷ packets) s =
      let rest = elim (read_packet junk pktbuf s) as (λ _. Read) [
        | read s' ↦ read_ensemble junk packets s'
        | stopped ↦ stopped
      ] in
      if labelled s.fibs.fic.einf then read s else rest

  -- A round of the second loop, for the packet `f` of the file.
  pub play_packet : Subch → Symrange → ℕ → Buffer → Playing → Extracted
  play_packet s sr f pktbuf p =
      let reception = msc_assemble stack pktbuf sr p.reception in
      if ltb fskip f && is_packet pktbuf && ltb 4 (pktbuf 2)
      then (if reception.buffer_full
          then after_decoding reception
              (msc_decode k_viterbi decode_rs stack s sr reception.ring p.decoder)
          else playing (record p { reception = reception }))
      else playing p

  pub play_all : Subch → Symrange → ℕ → List Buffer → Playing → Extracted
  play_all s sr f [] p = playing p
  play_all s sr f (pktbuf ∷ packets) p =
      go_on (play_packet s sr f pktbuf p) (play_all s sr (f + 1) packets)

  -- `main`, without a result where the program waits for another number, or a service without an audio
  -- component is chosen, whose range of symbols it would make of a null pointer.
  pub extract : Subch → List Buffer → List ℤ → Selsrv → Symrange → Fics → Playing → Extracted
  extract junk packets typed sel sr fics p = elim (read_ensemble junk packets fics) [
    | stopped ↦ no_sound
    | read s ↦
        let e = s.fibs.fic.einf in
        elim (wfgetnum e typed) [
          | none ↦ no_sound
          | some i ↦ elim (user_select_service e (pos i) false sel).1.sch [
            | none ↦ no_sound
            | some c ↦ play_all (e.schan c) (startsym sr (e.schan c)) 0 packets p
          ]
        ]
  ]
