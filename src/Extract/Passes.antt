-- ===== src/Extract/Passes.antt =====
-- The two passes of wfx over its file, against the loop of wf.
use mathlib.Core.Path.{subst}
use opendab.Base.{
  ℕ, ◌+◌, ◌<◌, ◌≤◌, ◌≡◌, ◌≢◌, refl, sym, ap, ◌∙◌, arith, true, false, ◌||◌, ◌==◌, ltb, map,
  if◌then◌else◌, List, [], ◌∷◌, length, Buffer, Bool-cases, inl, inr,
}
use opendab.Figs.{Subch, Symrange}
use opendab.Fig.{Outcome, finished, outside_table, out_of_fuel}
use opendab.Assembly.{Assembly, fic_assemble}
use opendab.Ensemble.{labelled}
use opendab.Process.{Processed, process_fic}
use opendab.Receiver
use opendab.Receiver.{Packet, Receiver, Ran, running, stopped, is_fic, take_fic, take_packet}
use opendab.Receiver.Packets.{take_packet-take_fic}
use opendab.Extract.{
  Fics, Read, read, Playing, playing, is_packet, after_fic, read_packet, read_ensemble, play_packet,
  play_all, go_on,
}

-- The ensemble, the blocks and the gathered symbols are the same, or both have no result.
abbrev pub Agree : Read → Ran → Type 0
Agree (read s) (running r) = (s.fic ≡ r.fic) × (s.fibs ≡ r.fibs)
Agree (read s) stopped = ⊥
Agree Read.stopped (running r) = ⊥
Agree Read.stopped stopped = Unit

abbrev pub fics_of : Receiver → Fics
fics_of r = record { fic = r.fic; fibs = r.fibs }

-- The packets with the header of the device.
unfoldable pub with_header : List Packet → List Packet
with_header [] = []
with_header (pk ∷ pks) =
    let rest = with_header pks in if is_packet pk.bytes then pk ∷ rest else rest

after_fic-Agree :
    (fic : Assembly) (r : Receiver) (p : Processed)
    → Agree
        (after_fic (record { fic = fic; fibs = r.fibs }) p)
        (Receiver.with_outcome (record r { fic = fic }) p)
after_fic-Agree fic r p = go p.outcome
  where
    go :
        (o : Outcome)
        → Agree
            (after_fic (record { fic = fic; fibs = r.fibs }) (record p { outcome = o }))
            (Receiver.with_outcome (record r { fic = fic }) (record p { outcome = o }))
    go (finished f) = (refl, refl)
    go outside_table = tt
    go out_of_fuel = tt

module _ (k_viterbi : Buffer → ℕ → Buffer → Buffer) (decode_rs : Buffer → Buffer)
    (stack : Buffer) where
  read_packet-take_fic :
      (junk : Subch) (pk : Packet) (r : Receiver)
      → is_packet pk.bytes ≡ true
      → Agree
          (read_packet k_viterbi decode_rs stack junk pk.bytes
            (record { fic = r.fic; fibs = r.fibs }))
          (take_fic k_viterbi stack junk pk r)
  unfolding read_packet take_fic is_fic
  read_packet-take_fic junk pk r e =
      let (fic, called) = fic_assemble pk.bytes r.fic in
      elim (Bool-cases ((pk.bytes 2 == 2) || (pk.bytes 2 == 3) || (pk.bytes 2 == 4))) [
        | inr other ↦ rw (e, other) (refl, refl)
        | inl sym ↦ elim (Bool-cases called) [
          | inr early ↦ rw (e, sym, early) (refl, refl)
          | inl whole ↦
              rw (e, sym, whole)
                (after_fic-Agree fic r (process_fic k_viterbi stack junk fic.ficsyms r.fibs))
        ]
      ]

  -- Any other packet has none.
  read_packet-other :
      (junk : Subch) (pktbuf : Buffer) (s : Fics)
      → is_packet pktbuf ≡ false
      → read_packet k_viterbi decode_rs stack junk pktbuf s ≡ read s
  unfolding read_packet
  read_packet-other junk pktbuf s e = rw e refl

  -- The rounds of wf up to the packet with which all services are labelled.
  unfoldable pub take_packets : Subch → List Packet → Receiver → Ran
  take_packets junk [] r = running r
  take_packets junk (pk ∷ pks) r =
      let rest = elim (take_packet k_viterbi decode_rs stack junk pk r) as (λ _. Ran) [
        | running r' ↦ take_packets junk pks r'
        | stopped ↦ stopped
      ] in
      if labelled r.fibs.fic.einf then running r else rest

  -- Meanwhile wf is in step with the transmitter, has taken fewer than 700 blocks, and gets no packet of the
  -- phase reference symbol.
  unfoldable pub IsReading : Subch → List Packet → Receiver → Type 0
  IsReading junk [] r = Unit
  IsReading junk (pk ∷ pks) r =
      (r.sync_locked ≡ true)
      × (r.fibs.fibcnt < 700)
      × (pk.bytes 9 ≢ 2)
      × (elim (take_packet k_viterbi decode_rs stack junk pk r) as (λ _. Type 0) [
        | running r' ↦ IsReading junk pks r'
        | stopped ↦ Unit
      ])

  take_packet-Agree :
      (junk : Subch) (pk : Packet) (r : Receiver)
      → is_packet pk.bytes ≡ true
      → labelled r.fibs.fic.einf ≡ false
      → r.sync_locked ≡ true
      → r.fibs.fibcnt < 700
      → pk.bytes 9 ≢ 2
      → Agree
          (read_packet k_viterbi decode_rs stack junk pk.bytes (fics_of r))
          (take_packet k_viterbi decode_rs stack junk pk r)
  take_packet-Agree junk pk r e unlabelled locked few ne =
      rw (take_packet-take_fic k_viterbi decode_rs stack junk pk r locked few unlabelled ne)
        (read_packet-take_fic junk pk (record r { slock = true }) e)

  labelled-ends :
      (junk : Subch) (packets : List Buffer) (s : Fics)
      → labelled s.fibs.fic.einf ≡ true
      → read_ensemble k_viterbi decode_rs stack junk packets s ≡ read s
  unfolding read_ensemble
  labelled-ends junk [] s e = refl
  labelled-ends junk (pktbuf ∷ packets) s e = rw e refl

  further-Agree :
      (junk : Subch) (pks : List Packet) (x : Read) (y : Ran)
      → ((r : Receiver)
          → IsReading junk (with_header pks) r
          → Agree
              (read_ensemble k_viterbi decode_rs stack junk (map (λ pk. pk.bytes) pks) (fics_of r))
              (take_packets junk (with_header pks) r))
      → (elim y as (λ _. Type 0) [
        | running r ↦ IsReading junk (with_header pks) r
        | stopped ↦ Unit
      ])
      → Agree x y
      → Agree
          (elim x as (λ _. Read) [
            | read s ↦ read_ensemble k_viterbi decode_rs stack junk (map (λ pk. pk.bytes) pks) s
            | Read.stopped ↦ Read.stopped
          ])
          (elim y as (λ _. Ran) [
            | running r ↦ take_packets junk (with_header pks) r
            | stopped ↦ stopped
          ])
  further-Agree junk pks (read s) (running r) rest reading (e, e') =
      let same : fics_of r ≡ s = λ i. record { fic = sym e i; fibs = sym e' i } in
      subst
        (λ s.
          Agree (read_ensemble k_viterbi decode_rs stack junk (map (λ pk. pk.bytes) pks) s)
            (take_packets junk (with_header pks) r))
        same (rest r reading)
  further-Agree junk pks Read.stopped stopped rest reading e = tt
  further-Agree junk pks (read s) stopped rest reading e = absurd e
  further-Agree junk pks Read.stopped (running r) rest reading e = absurd e

  -- Whatever packets a file has, the first pass of wfx over it finds the ensemble that wf finds when it gets
  -- those of the packets alone that have the header of the device, while it is in step, has fewer than 700
  -- blocks and gets no packet of the phase reference symbol: both stop at the same packet, with the same
  -- ensemble, blocks and gathered symbols, or both have no result.
  pub read_ensemble-take_packets :
      (junk : Subch) (pks : List Packet) (r : Receiver)
      → IsReading junk (with_header pks) r
      → Agree
          (read_ensemble k_viterbi decode_rs stack junk (map (λ pk. pk.bytes) pks) (fics_of r))
          (take_packets junk (with_header pks) r)
  unfolding read_ensemble take_packets with_header IsReading
  read_ensemble-take_packets junk [] r reading = (refl, refl)
  read_ensemble-take_packets junk (pk ∷ pks) r reading = elim (Bool-cases (is_packet pk.bytes)) [
    | inl e ↦ rw e (elim (Bool-cases (labelled r.fibs.fic.einf)) [
      | inl l ↦ rw l (refl, refl)
      | inr l ↦
          let (locked, few, ne, rest) = rw e at reading in
          rw l (
            further-Agree junk pks (read_packet k_viterbi decode_rs stack junk pk.bytes (fics_of r))
              (take_packet k_viterbi decode_rs stack junk pk r)
              (read_ensemble-take_packets junk pks) rest
              (take_packet-Agree junk pk r e l locked few ne))
    ])
    | inr e ↦
        let ih = read_ensemble-take_packets junk pks r (rw e at reading) in
        rw e (elim (Bool-cases (labelled r.fibs.fic.einf)) [
          | inl l ↦ rw l (
              subst (λ x. Agree x (take_packets junk (with_header pks) r))
                (labelled-ends junk (map (λ pk. pk.bytes) pks) (fics_of r) l) ih)
          | inr l ↦ rw (l, read_packet-other junk pk.bytes (fics_of r) e) ih
        ])
  ]

  -- The second loop plays nothing of the first 801 packets.
  play_all-skips :
      (s : Subch) (sr : Symrange) (packets : List Buffer) (f : ℕ) (p : Playing)
      → f + length packets ≤ 801
      → play_all k_viterbi decode_rs stack s sr f packets p ≡ playing p
  unfolding play_all play_packet
  play_all-skips s sr [] f p h = refl
  play_all-skips s sr (pktbuf ∷ packets) f p h =
      let early : ltb 800 f ≡ false = ground (arith, h) in
      let kept : play_packet k_viterbi decode_rs stack s sr f pktbuf p ≡ playing p =
        rw early refl in
      ap (λ r. go_on r (play_all k_viterbi decode_rs stack s sr (f + 1) packets)) kept
      ∙ play_all-skips s sr packets (f + 1) p (omega (arith, h))
