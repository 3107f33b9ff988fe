-- ===== src/Driver/Session/Safe.antt =====
-- The steps of a device's life, and what holds after any of them.
use opendab.Base.{
  ℕ, ◌+◌, ◌<◌, ◌≡◌, ◌∙◌, arith, Bool, true, false, not, ◌&&◌, ◌==◌, List, store, for_range,
  Bool-cases, inl, inr,
}
use opendab.Driver.{IsoPacket}
use opendab.Driver.Session.{
  Session, Answers, start_all, wavefinder_alloc_buffers, wavefinder_stop, submit_urb,
  wavefinder_start_receive, complete_urb, wavefinder_open, wavefinder_release,
  wavefinder_disconnect, wavefinder_prepare_urb,
}
use opendab.Driver.Session.Held.{
  IsHeld, IsEmpty, IsAllocated, Same, free_buffers-IsEmpty, stop-IsHeld, alloc_buffers-IsAllocated,
  submit-IsHeld, complete-IsHeld, free_buffers-Same, alloc_buffers-Same,
}

-- What holds of a device from the time that it is found on.
pub record IsSafe (s : Session) : Type 0 where
  pub held : IsHeld s
  pub stopped : s.started ≡ false → (s.allocated 0 ≡ 0) × (s.allocated 1 ≡ 0)
  pub closed : s.opened ≡ false → s.started ≡ false

-- The calls that the kernel makes: of a file that is open, and of a transfer that runs.
pub data Step : Session → Session → Type 0 where
  opens : (s : Session) → Step s (wavefinder_open s).1
  starts : (k : Answers) (s : Session) → s.opened ≡ true → Step s (wavefinder_start_receive k s).1
  completes :
      (killed : Bool) (packets : List IsoPacket) (j : ℕ) (submitted : Bool) (s : Session)
      → j < 2
      → s.running j ≡ 1
      → Step s (complete_urb killed packets j submitted s)
  releases : (s : Session) → s.opened ≡ true → Step s (wavefinder_release s)
  disconnects : (s : Session) → Step s (wavefinder_disconnect s)

open-IsSafe : (s : Session) → IsSafe s → IsSafe (wavefinder_open s).1
unfolding wavefinder_open store
open-IsSafe s v = elim (Bool-cases s.usbdev) [
  | inr gone ↦ simp gone v
  | inl there ↦ elim (Bool-cases s.opened) [
    | inl busy ↦ simp (there, busy) v
    | inr new ↦ let none = v.stopped (v.closed new) in simp (there, new) (ground arith)
  ]
]

stop-started : (s : Session) → (wavefinder_stop s).started ≡ false
unfolding wavefinder_stop for_range
stop-started s = ground arith

-- After the last use of the device nothing is allocated and nothing runs.
pub release-IsEmpty : (s : Session) → IsHeld s → IsEmpty (wavefinder_release s)
unfolding wavefinder_release
release-IsEmpty s v =
    let (h, r, q) = stop-IsHeld s v in
    let e = free_buffers-IsEmpty (wavefinder_stop s) h r q in ground arith

release-IsSafe : (s : Session) → IsSafe s → IsSafe (wavefinder_release s)
unfolding wavefinder_release
release-IsSafe s v =
    let e = release-IsEmpty s v.held in
    let still : (wavefinder_release s).started ≡ false =
      (free_buffers-Same (wavefinder_stop s)).1 ∙ stop-started s in
    record { held = e.held; stopped = λ _. (e.none_first, e.none_second); closed = λ _. still }

submit-Same : (k : Answers) (s : Session) → Same s (for_range 2 0 (submit_urb k) s)
unfolding submit_urb for_range wavefinder_prepare_urb
submit-Same k s = ground arith

start_all-IsSafe :
    (k : Answers) (s : Session) (r : Bool × Session)
    → s.opened ≡ true
    → IsAllocated r
    → Same s r.1
    → IsSafe (start_all k r).1
start_all-IsSafe k s (true, t) o (still, a, b) (same, _) =
    let t' = record t { started = true; buffer = record t.buffer { readptr = 0 } } in
    let held : IsHeld t' = ground arith in
    let (kept, started) = submit-Same k t' in
    record {
      held = submit-IsHeld k t' held a b;
      stopped = λ h. cc (h, started);
      closed = λ h. cc (h, kept, same, o);
    }
start_all-IsSafe k s (false, t) o e (same, _) = record {
  held = e.held;
  stopped = λ _. (e.none_first, e.none_second);
  closed = λ h. cc (h, same, o);
}

start-IsSafe :
    (k : Answers) (s : Session)
    → IsSafe s
    → s.opened ≡ true
    → IsSafe (wavefinder_start_receive k s).1
unfolding wavefinder_start_receive
start-IsSafe k s v o =
    elim (Bool-cases (not (s.allocated 0 + s.allocated 1 == 2) && not s.started)) [
      | inr on ↦ simp on v
      | inl go ↦
          let idle : s.started ≡ false = ground (arith, go) in
          let none = v.stopped idle in
          let e : IsEmpty s = record { held = v.held; none_first = none.0; none_second = none.1 } in
          simp go (
            start_all-IsSafe k s (wavefinder_alloc_buffers k s) o (alloc_buffers-IsAllocated k s e)
              (alloc_buffers-Same k s))
    ]

complete-Same :
    (killed : Bool) (packets : List IsoPacket) (j : ℕ) (submitted : Bool) (s : Session)
    → let t = complete_urb killed packets j submitted s in
      Same s t × (t.allocated 0 ≡ s.allocated 0) × (t.allocated 1 ≡ s.allocated 1)
unfolding complete_urb wavefinder_prepare_urb
complete-Same killed packets j submitted s = ground arith

Step-IsSafe : {s t : Session} → Step s t → IsSafe s → IsSafe t
unfolding wavefinder_disconnect
Step-IsSafe (opens s) v = open-IsSafe s v
Step-IsSafe (starts k s o) v = start-IsSafe k s v o
Step-IsSafe (completes killed packets j submitted s p r) v =
    let (kept, a, b) = complete-Same killed packets j submitted s in
    record {
      held = complete-IsHeld killed packets j submitted s v.held p r;
      stopped = λ h. let none = v.stopped (ground (arith, h)) in (a ∙ none.0, b ∙ none.1);
      closed = λ h. kept.1 ∙ v.closed (ground (arith, h));
    }
Step-IsSafe (releases s o) v = release-IsSafe s v
Step-IsSafe (disconnects s) v = ground arith

-- Any number of steps.
pub data Reach (s : Session) : Session → Type 0 where
  here : Reach s s
  next : {t u : Session} → Reach s t → Step t u → Reach s u

-- Whatever calls succeed and however they follow one another, from a safe state on the driver submits,
-- kills and frees only blocks and buffers that are live, only allocated transfers run, exactly their
-- buffers are live, and a device that is not open has no transfers.
pub Reach-IsSafe : {s t : Session} → Reach s t → IsSafe s → IsSafe t
Reach-IsSafe here v = v
Reach-IsSafe (next r st) v = Step-IsSafe st (Reach-IsSafe r v)
