-- ===== src/Sync/Afc.antt =====
-- src/wfafc.c, wf_afc: the voltage of the device's oscillator.
use opendab.Base.{
  ℕ, ◌+◌, ◌≤◌, ◌≡◌, refl, arith, bit_and, false, ◌&&◌, ltb, if◌then◌else◌, List, [], ◌∷◌, ◌++◌,
}
use opendab.Base.Int.{pos, ltb_ℤ}
use opendab.Device.{Event, wf_mem_write}
use opendab.Device.Init.{dacvalue}
use opendab.Sync.Doubles.{Doubles, Timespec, word, milliseconds}

module _ (doubles : Doubles) where
  open doubles use {Double, beyond, first_offset, coarse, fine, dac}

  -- The static variables.
  pub record Afc : Type 0 where
    pub offset : Double
    pub lmsec : ℕ

  pub first_afc : Afc
  first_afc = record { offset = first_offset; lmsec = 0 }

  -- The clock and the offset that was measured.
  pub wf_afc : Timespec → Double → Afc → List Event × Afc
  wf_afc tp afcv s =
      let cmsec = milliseconds tp in
      let a = if beyond 350 afcv then coarse afcv s.offset else fine afcv s.offset in
      let i = dac a in
      let i = if ltb_ℤ (pos 0xffff) i then pos 0xffff else i in
      let afc_val = bit_and (word i) 0xfffc in
      if ltb (s.lmsec + 250) cmsec && beyond 75 afcv
      then (wf_mem_write dacvalue afc_val, record { offset = a; lmsec = cmsec })
      else ([], record s { lmsec = cmsec })

  -- Calls one behind the other, and all that they send.
  pub afc_run : List (Timespec × Double) → Afc → List Event × Afc
  afc_run [] s = ([], s)
  afc_run ((tp, afcv) ∷ calls) s =
      let (events, s) = wf_afc tp afcv s in let (later, s) = afc_run calls s in (events ++ later, s)

  -- Each call comes at most 250 milliseconds after the one before.
  abbrev pub AreFrequent : ℕ → List (Timespec × Double) → Type 0
  AreFrequent lmsec [] = Unit
  AreFrequent lmsec ((tp, afcv) ∷ calls) =
      (milliseconds tp ≤ lmsec + 250) × AreFrequent (milliseconds tp) calls

  -- However large the offsets are, `wf_afc` sends nothing while it is called every 250 milliseconds or
  -- more often, and leaves the oscillator's offset as it is.
  pub afc_run-silent :
      (calls : List (Timespec × Double)) (s : Afc)
      → AreFrequent s.lmsec calls
      → ((afc_run calls s).0 ≡ []) × ((afc_run calls s).1.offset ≡ s.offset)
  unfolding afc_run wf_afc
  afc_run-silent [] s h = (refl, refl)
  afc_run-silent ((tp, afcv) ∷ calls) s (soon, h) =
      let closed : ltb (s.lmsec + 250) (milliseconds tp) ≡ false = ground (arith, soon) in
      rw closed (afc_run-silent calls (record s { lmsec = milliseconds tp }) h)
