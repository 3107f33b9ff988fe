-- ===== src/Sync/Send.antt =====
-- src/wfsync.c, wf_sync: what is done with a measurement. The transforms and searches of `wf_sync` that
-- it is taken from are floating-point computations, and their results are given.
pub mod Calls
use opendab.Base.{
  ℕ, zero, suc, ◌+◌, ◌-◌, ◌*◌, ◌/◌, ◌%◌, ◌^◌, ◌<◌, ◌≤◌, ◌≡◌, refl, ap, ap₂, ◌∙◌, arith, min,
  bit_and, bit_or, Bool, true, false, not, ◌&&◌, ◌==◌, ltb, if◌then◌else◌, List, [], ◌∷◌, ◌++◌,
  Buffer, store, holding, window, memcpy, get_or, take, drop, for_range,
}
use opendab.Base.Int.{ℤ, pos, negsuc, pos_part, ◌+ℤ◌, +ℤ_parts}
use opendab.Base.Bits.{bit_or_disjoint}
use opendab.Device.{Event, byte, wf_mem_write, wf_timing_msg}
use opendab.Device.Init.{outreg0}
use opendab.Sync.Doubles.{Doubles, Timespec, word, milliseconds}
use opendab.Sync.Lock.{Lock, update_lock}
use opendab.Sync.Average.{Average, raverage}
use opendab.Sync.Afc.{Afc, wf_afc}

-- `cv`, from the steps that the clock is off.
pub clock_value : ℤ → ℕ
clock_value i =
    let cv = pos_part (i +ℤ pos 0x7f) % 2 ^ 16 in bit_or 0x1000 (if ltb 0xff cv then 0xff else cv)

-- The message that sets the clock of the device.
pub clock_message : ℤ → ℕ → ℕ → List Event
clock_message (pos zero) ems lms = []
clock_message i ems lms = if ltb (lms + 60) ems then wf_mem_write outreg0 (clock_value i) else []

abbrev pub imsg : List ℕ
imsg =
    0x7f ∷ 0x00 ∷ 0xff ∷ 0xff ∷ 0xff ∷ 0xff ∷ 0xff ∷ 0xff ∷ 0xff ∷ 0xff ∷ 0xff ∷ 0xff ∷ 0x00 ∷ 0x00
    ∷ 0x00 ∷ 0x00 ∷ 0x00 ∷ 0x00 ∷ 0x00 ∷ 0x00 ∷ 0x00 ∷ 0x00 ∷ 0x00 ∷ 0xff ∷ 0x00 ∷ 0x00 ∷ 0x00
    ∷ 0x00 ∷ 0x00 ∷ 0x00 ∷ 0x0f ∷ 0x00 ∷ []

-- The 32 bytes of the timing message.
pub timing_bytes : Buffer → ℕ → ℕ → List ℕ
timing_bytes selstr w1 w2 =
    let m = memcpy (holding imsg) 2 selstr 10 in
    let m = store m 24 (byte w1 0) in
    let m = store m 25 (byte w1 8) in
    let m = store m 26 (byte w2 0) in let m = store m 27 (byte w2 8) in window m 0 32

module _ (doubles : Doubles) where
  open doubles use {Double, to_w1, to_w2}

  -- Whether the offsets are small, the steps that the clock is off, and the fine offset.
  pub record Measured : Type 0 where
    pub good : Bool
    pub steps : ℤ
    pub ir : Double

  -- The globals and static variables of the functions.
  pub record SyncState : Type 0 where
    pub lock : Lock
    pub lms : ℕ
    pub average : Average doubles
    pub afc : Afc doubles

  -- `before` and `after` are the clock in `wf_sync` and in `wf_afc`.
  pub wf_sync : Measured → Timespec → Timespec → Buffer → SyncState → List Event × SyncState
  wf_sync m before after selstr s =
      let ems = milliseconds before in
      let average = raverage doubles m.ir s.average in
      let ir = average.prev_ir in
      let (events, afc) = wf_afc doubles after ir s.afc in
      (
        clock_message m.steps ems s.lms
            ++ events
            ++ wf_timing_msg (timing_bytes selstr (word (to_w1 ir)) (word (to_w2 ir))),
        record { lock = update_lock m.good s.lock; lms = ems; average = average; afc = afc },
      )

steps_below : (i : ℤ) → pos_part (i +ℤ pos 0x7f) ≤ pos_part i + 0x7f
unfolding ◌+ℤ◌
steps_below i = ground arith

-- For a clock that is off by fewer steps than an unsigned short holds, the value is the steps from -127
-- to 128, as 0 to 255; further off, the nearest of these.
pub clock_value_lem :
    (i : ℤ) → pos_part i < 65409 → clock_value i ≡ 0x1000 + min 0xff (pos_part (i +ℤ pos 0x7f))
unfolding clock_value
clock_value_lem i h =
    let n = pos_part (i +ℤ pos 0x7f) in
    let small : n % 2 ^ 16 ≡ n = omega (arith, h, steps_below i) in
    let cut : (if ltb 0xff n then 0xff else n) ≡ min 0xff n = ground arith in
    rw (small, cut) (bit_or_disjoint 12 1 (min 0xff n) (omega arith))
