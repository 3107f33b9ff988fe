-- ===== src/Sync/Send/Calls.antt =====
-- The calls of `wf_sync` one after the other.
use opendab.Base.{
  ℕ, ◌+◌, ◌*◌, ◌/◌, ◌^◌, ◌<◌, ◌≡◌, refl, ap, ◌∙◌, arith, Bool, leb, List, [], ◌∷◌, ◌++◌, map,
  Buffer, window, get_or, take, drop, memcpy, store,
}
use opendab.Base.Bits.{bit_and-byte}
use opendab.Base.Int.{ℤ, pos, negsuc}
use opendab.Device.{Event, byte, wf_timing_msg}
use opendab.Sync.Doubles.{Doubles, Timespec, word, milliseconds}
use opendab.Sync.Lock.{Lock, unlocked, update_lock, measured, streak, measured_lem}
use opendab.Sync.Average.{Average, initial, averaged, raverage, since, mean_of_last, raverage_lem}
use opendab.Sync.Afc.{first_afc, wf_afc}
use opendab.Sync.Send.{Measured, SyncState, clock_message, timing_bytes, wf_sync}

-- What the device reads of a timing message.
abbrev pub word_at : ℕ → List ℕ → ℕ
word_at n bytes = get_or bytes n 0 + get_or bytes (n + 1) 0 * 2 ^ 8

two_bytes : (w : ℕ) → w < 2 ^ 16 → byte w 0 + byte w 8 * 2 ^ 8 ≡ w
two_bytes w h = omega (arith, h, bit_and-byte (w / 2 ^ 0), bit_and-byte (w / 2 ^ 8))

word-lt : (i : ℤ) → word i < 2 ^ 16
word-lt (pos n) = omega arith
word-lt (negsuc n) = omega arith

pub record IsRead (selstr : Buffer) (w1 w2 : ℕ) (bytes : List ℕ) : Type 0 where
  pub symbols : take 10 (drop 2 bytes) ≡ window selstr 0 10
  pub first : word_at 24 bytes ≡ w1
  pub second : word_at 26 bytes ≡ w2

timing_bytes-IsRead :
    (selstr : Buffer) (w1 w2 : ℕ)
    → w1 < 2 ^ 16
    → w2 < 2 ^ 16
    → IsRead selstr w1 w2 (timing_bytes selstr w1 w2)
unfolding timing_bytes memcpy store
timing_bytes-IsRead selstr w1 w2 h k = record {
  symbols = refl;
  first = two_bytes w1 h;
  second = two_bytes w2 k;
}

module _ (doubles : Doubles) where
  open doubles use {Double, to_w1, to_w2}

  pub record Call : Type 0 where
    pub measured : Measured doubles
    pub before : Timespec
    pub after : Timespec
    pub selstr : Buffer

  -- One call, with what it sends.
  pub call : Call → SyncState doubles → List Event × SyncState doubles
  call c = wf_sync doubles c.measured c.before c.after c.selstr

  start : SyncState doubles
  start = record { lock = unlocked; lms = 0; average = initial doubles; afc = first_afc doubles }

  -- The newest call first.
  pub synced : List Call → SyncState doubles
  synced [] = start
  synced (c ∷ before) = (call c (synced before)).1

  abbrev pub goods : List Call → List Bool
  goods cs = map (λ c. c.measured.good) cs

  abbrev pub offsets : List Call → List Double
  offsets cs = map (λ c. c.measured.ir) cs

  lock-synced : (cs : List Call) → (synced cs).lock ≡ measured (goods cs)
  unfolding synced call start wf_sync measured
  lock-synced [] = refl
  lock-synced (c ∷ cs) = ap (update_lock c.measured.good) (lock-synced cs)

  average-synced : (cs : List Call) → (synced cs).average ≡ averaged doubles (offsets cs)
  unfolding synced call start wf_sync averaged
  average-synced [] = refl
  average-synced (c ∷ cs) = ap (raverage doubles c.measured.ir) (average-synced cs)

  sent-IsRead :
      (selstr : Buffer) (ir mean_ir : Double)
      → ir ≡ mean_ir
      → IsRead selstr
          (word (to_w1 mean_ir))
          (word (to_w2 mean_ir))
          (timing_bytes selstr (word (to_w1 ir)) (word (to_w2 ir)))
  sent-IsRead selstr ir mean_ir e = rw e (
      timing_bytes-IsRead selstr (word (to_w1 mean_ir)) (word (to_w2 mean_ir))
        (word-lt (to_w1 mean_ir)) (word-lt (to_w2 mean_ir)))

  -- The mean that the last call of several works with.
  abbrev pub mean : List Call → Double
  mean cs = mean_of_last doubles (since doubles (offsets cs))

  -- After any calls of `wf_sync` it is locked exactly when at least the last four measurements were good,
  -- and what the last call sends ends with a message from which the ten bytes that select symbols, and the
  -- two words of the mean of the last offsets, can be read.
  pub synced_lem :
      (c : Call) (cs : List Call)
      → ((synced (c ∷ cs)).lock.sync_locked ≡ leb 4 (streak (goods (c ∷ cs))))
        × ((front : List Event) × (bytes : List ℕ) × ((call c (synced cs)).0
              ≡ front ++ wf_timing_msg bytes)
            × IsRead c.selstr (word (to_w1 (mean (c ∷ cs)))) (word (to_w2 (mean (c ∷ cs)))) bytes)
  unfolding call wf_sync averaged
  synced_lem c cs =
      let s = synced cs in
      let ir = (raverage doubles c.measured.ir s.average).prev_ir in
      let same : ir ≡ mean (c ∷ cs) =
        ap (λ (a : Average doubles). (raverage doubles c.measured.ir a).prev_ir) (average-synced cs)
        ∙ raverage_lem doubles c.measured.ir (offsets cs) in
      let clock = clock_message c.measured.steps (milliseconds c.before) s.lms in
      let afc = (wf_afc doubles c.after ir s.afc).0 in
      let bytes = timing_bytes c.selstr (word (to_w1 ir)) (word (to_w2 ir)) in
      (
        ap (λ (l : Lock). l.sync_locked) (lock-synced (c ∷ cs)) ∙ measured_lem (goods (c ∷ cs)),
        (clock ++ afc, bytes, refl, sent-IsRead c.selstr ir (mean (c ∷ cs)) same),
      )
