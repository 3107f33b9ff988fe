-- ===== src/Receiver/Packets.antt =====
-- The loop over the packets, packet by packet.
use opendab.Base.{
  ℕ, ◌<◌, ◌≡◌, ◌≢◌, refl, sym, ap, ◌∙◌, arith, Bool, true, false, not, ◌&&◌, ◌||◌, ◌==◌, ltb,
  if◌then◌else◌, Option, none, some, Buffer, Bool-cases, inl, inr,
}
use opendab.Figs.{Subch, Selsrv}
use opendab.Ensemble.{labelled}
use opendab.Assembly.{fic_assemble}
use opendab.Process.Sound.{process_fic-Sound}
use opendab.Msc.Receive.{Reception, msc_assemble}
use opendab.Msc.Decode.{Decoded, decoded, no_result, msc_decode}
use opendab.Receiver.{
  Packet, Receiver, running, take_prs, is_fic, with_decoded, take_fic, select_service, take_msc,
  show_ensemble, serve, take_packet,
}
use opendab.Receiver.Invariant.{
  is_reading, IsChosen, IsRunning, Keeps, take_prs-IsRunning, early, with_fibs, with_outcome-Keeps,
}

module _ (k_viterbi : Buffer → ℕ → Buffer → Buffer) (decode_rs : Buffer → Buffer) (stack : Buffer)
    (junk : Subch) (pk : Packet) where
  take_fic-Keeps :
      (r : Receiver)
      → IsRunning r
      → is_reading r.fibs ≡ true
      → Keeps (take_fic k_viterbi stack junk pk r)
  unfolding take_fic
  take_fic-Keeps r v reading = elim (Bool-cases (is_fic (pk.bytes 2))) [
    | inl e ↦ elim (Bool-cases (fic_assemble pk.bytes r.fic).1) [
      | inl c ↦
          let p =
            process_fic-Sound k_viterbi stack junk (fic_assemble pk.bytes r.fic).0.ficsyms r.fibs
              v.built in
          rw (e, c)
            (with_outcome-Keeps r (fic_assemble pk.bytes r.fic).0 _ v reading p.0
              (let few : r.fibs.fibcnt < 700 = early r.fibs reading in omega (arith, few, p.1)))
      | inr c ↦
          rw (e, c) (with_fibs r v reading (fic_assemble pk.bytes r.fic).0 r.fibs v.built v.bounded)
    ]
    | inr e ↦ rw e v
  ]

  take_msc-Keeps :
      (s : Subch) (r : Receiver) → IsRunning r → Keeps (take_msc k_viterbi decode_rs stack s pk r)
  unfolding take_msc
  take_msc-Keeps s r v = elim (Bool-cases ((r.synccnt == 0) && ltb 4 (pk.bytes 2))) [
    | inl e ↦ elim (Bool-cases (msc_assemble stack pk.bytes r.sr r.reception).buffer_full) [
      | inl f ↦
          rw (e, f) (go _ (msc_decode k_viterbi decode_rs stack s r.sr reception.ring r.decoder))
      | inr f ↦ rw (e, f) (received _)
    ]
    | inr e ↦ rw e v
  ]
    where
      reception : Reception
      reception = msc_assemble stack pk.bytes r.sr r.reception

      received : (m : Reception) → IsRunning (record r { reception = m })
      received m = record {
        built = v.built;
        bounded = v.bounded;
        complete = v.complete;
        chosen = v.chosen;
        waiting = v.waiting;
      }

      go : (m : Reception) (d : Decoded) → Keeps (with_decoded (record r { reception = m }) d)
      go m (decoded d) = record {
        built = v.built;
        bounded = v.bounded;
        complete = v.complete;
        chosen = v.chosen;
        waiting = v.waiting;
      }
      go m no_result = tt

  select_service-IsRunning :
      (i : ℕ) (r : Receiver)
      → r.sel.sch ≡ some i
      → r.enslistvisible ≡ true
      → IsRunning r
      → IsRunning (select_service (r.fibs.fic.einf.schan i) r)
  unfolding select_service
  select_service-IsRunning i r e shown v =
      elim (Bool-cases (not r.selected && ltb (r.fibs.fic.einf.schan i).subchid 64)) [
        | inl c ↦ rw c (record {
          built = v.built;
          bounded = v.bounded;
          complete = v.complete;
          chosen = λ h. (shown, (i, r.sr, e, refl));
          waiting = omega arith;
        })
        | inr c ↦ rw c v
      ]

  serve-Keeps :
      (r : Receiver) (o : Option ℕ)
      → r.sel.sch ≡ o
      → r.enslistvisible ≡ true
      → IsRunning r
      → Keeps (serve k_viterbi decode_rs stack pk r o)
  unfolding serve
  serve-Keeps r none e shown v = record {
    built = v.built;
    bounded = v.bounded;
    complete = v.complete;
    chosen = λ h. absurd (unchosen ((v.chosen h).1));
    waiting = v.waiting;
  }
    where
      differs : (i : ℕ) → ¬ (none ≡ some i)
      differs i h = ground (arith, h)

      unchosen : ¬ IsChosen r
      unchosen (i, old, s, _) = differs i (sym e ∙ s)
  serve-Keeps r (some i) e shown v =
      take_msc-Keeps (r.fibs.fic.einf.schan i) (select_service (r.fibs.fic.einf.schan i) r)
        (select_service-IsRunning i r e shown v)

  show_ensemble-IsRunning :
      (r : Receiver)
      → is_reading r.fibs ≡ false
      → IsRunning r
      → IsRunning (show_ensemble r)
        × ((show_ensemble r).enslistvisible ≡ true)
        × ((show_ensemble r).sel ≡ r.sel)
  unfolding show_ensemble
  show_ensemble-IsRunning r done v = elim (Bool-cases r.enslistvisible) [
    | inl e ↦ rw e (
      record {
        built = v.built;
        bounded = v.bounded;
        complete = λ _. done;
        chosen = λ h. (refl, (v.chosen h).1);
        waiting = v.waiting;
      },
      refl,
      refl,
    )
    | inr e ↦ rw e (
      record {
        built = v.built;
        bounded = v.bounded;
        complete = λ _. done;
        chosen = λ h. (refl, (v.chosen h).1);
        waiting = v.waiting;
      },
      refl,
      refl,
    )
  ]

  slock-IsRunning : (r : Receiver) (b : Bool) → IsRunning r → IsRunning (record r { slock = b })
  slock-IsRunning r b v = record {
    built = v.built;
    bounded = v.bounded;
    complete = v.complete;
    chosen = v.chosen;
    waiting = v.waiting;
  }

  locked-Keeps :
      (r : Receiver)
      → IsRunning r
      → Keeps (
          if is_reading r.fibs
          then take_fic k_viterbi stack junk pk r
          else serve k_viterbi decode_rs stack pk (show_ensemble r) r.sel.sch)
  locked-Keeps r v = elim (Bool-cases (is_reading r.fibs)) [
    | inl e ↦ rw e (take_fic-Keeps r v e)
    | inr e ↦
        let shown = show_ensemble-IsRunning r e v in
        rw e (
          serve-Keeps (show_ensemble r) r.sel.sch (ap (λ (s : Selsrv). s.sch) shown.2) shown.1
            shown.0)
  ]

  -- Every packet keeps it, if the program goes on: the ensemble is one that the operations build up; at
  -- most 711 blocks were taken; once the list of services is visible, no fast information is taken any
  -- more; once a service is selected, the list is visible, and the range of symbols is that of the chosen
  -- sub-channel; and at most six messages are to be sent with the other symbols.
  pub take_packet-IsRunning :
      (r : Receiver) → IsRunning r → Keeps (take_packet k_viterbi decode_rs stack junk pk r)
  unfolding take_packet
  take_packet-IsRunning r v =
      let now = take_prs pk r in
      go (now.slock || now.sync_locked) now.sync_locked now (take_prs-IsRunning pk r v)
    where
      go :
          (slock locked : Bool) (r : Receiver)
          → IsRunning r
          → Keeps (
              let r = record r { slock = slock } in
              if locked
              then (if is_reading r.fibs
                  then take_fic k_viterbi stack junk pk r
                  else serve k_viterbi decode_rs stack pk (show_ensemble r) r.sel.sch)
              else running r)
      go slock true r v = locked-Keeps (record r { slock = slock }) (slock-IsRunning r slock v)
      go slock false r v = slock-IsRunning r slock v

  -- In step, with fewer than 700 blocks and not all services labelled, a packet of another kind than the
  -- phase reference symbol's goes to `fic_assemble`.
  pub take_packet-take_fic :
      (r : Receiver)
      → r.sync_locked ≡ true
      → r.fibs.fibcnt < 700
      → labelled r.fibs.fic.einf ≡ false
      → pk.bytes 9 ≢ 2
      → take_packet k_viterbi decode_rs stack junk pk r
        ≡ take_fic k_viterbi stack junk pk (record r { slock = true })
  unfolding take_packet take_prs
  take_packet-take_fic r locked few unlabelled ne =
      let other : (pk.bytes 9 == 2) ≡ false = ground (arith, ne) in
      let below : ltb r.fibs.fibcnt 700 ≡ true = ground (arith, few) in
      elim (Bool-cases r.slock) [
        | inl e ↦ rw (other, e, locked, below, unlabelled) refl
        | inr e ↦ rw (other, e, locked, below, unlabelled) refl
      ]
