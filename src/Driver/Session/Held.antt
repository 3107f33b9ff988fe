-- ===== src/Driver/Session/Held.antt =====
-- What the driver holds of its two transfers, call by call.
use opendab.Base.{
  ℕ, ◌<◌, ◌≤◌, ◌≡◌, refl, ◌∙◌, arith, Bool, true, false, ◌==◌, List, store, for_range, Bool-cases,
  inl, inr,
}
use opendab.Driver.{IsoPacket}
use opendab.Driver.Session.{
  Session, Answers, free_urb, wavefinder_free_buffers, alloc_transfer, alloc_recbuf, and_then,
  on_error, wavefinder_alloc_buffers, uses_urb, wavefinder_stop, submit_urb, complete_urb,
  wavefinder_prepare_urb,
}

-- Of a transfer: whether it is allocated and runs, its live blocks and its live buffers.
abbrev pub IsSlot : ℕ → ℕ → ℕ → ℕ → Type 0
IsSlot a r u t = (t ≡ a) × (a ≤ 1) × (a ≤ u) × (r ≤ a)

abbrev pub SlotIsSafe : ℕ → Session → Type 0
SlotIsSafe i s = IsSlot (s.allocated i) (s.running i) (s.heap.urbs i) (s.heap.transfer_buffers i)

pub record IsHeld (s : Session) : Type 0 where
  pub no_fault : s.heap.fault ≡ false
  pub first : SlotIsSafe 0 s
  pub second : SlotIsSafe 1 s

-- Nothing is allocated, so nothing runs.
pub record IsEmpty (s : Session) : Type 0 where
  pub held : IsHeld s
  pub none_first : s.allocated 0 ≡ 0
  pub none_second : s.allocated 1 ≡ 0

pub free_buffers-IsEmpty :
    (s : Session)
    → IsHeld s
    → s.running 0 ≡ 0
    → s.running 1 ≡ 0
    → IsEmpty (wavefinder_free_buffers s)
unfolding wavefinder_free_buffers for_range free_urb store
free_buffers-IsEmpty s v r q = ground arith

pub stop-IsHeld :
    (s : Session)
    → IsHeld s
    → IsHeld (wavefinder_stop s)
      × ((wavefinder_stop s).running 0 ≡ 0)
      × ((wavefinder_stop s).running 1 ≡ 0)
unfolding wavefinder_stop for_range uses_urb store
stop-IsHeld s v = ground arith

-- Nothing runs.
abbrev pub IsStill : Session → Type 0
IsStill s = IsHeld s × (s.running 0 ≡ 0) × (s.running 1 ≡ 0)

-- After a step that may fail: the transfers that are allocated.
abbrev IsStage : ℕ → ℕ → Bool × Session → Type 0
IsStage a0 a1 (true, s) = IsStill s × (s.allocated 0 ≡ a0) × (s.allocated 1 ≡ a1)
IsStage a0 a1 (false, s) = IsStill s

first-IsStage : (k : Answers) (s : Session) → IsEmpty s → IsStage 1 0 (alloc_transfer k 0 s)
unfolding alloc_transfer store
first-IsStage k s v = ground arith

second_step :
    (k : Answers) (s : Session)
    → IsStill s
    → s.allocated 0 ≡ 1
    → s.allocated 1 ≡ 0
    → IsStage 1 1 (alloc_transfer k 1 s)
unfolding alloc_transfer store
second_step k s v a b = ground arith

second-IsStage :
    (k : Answers) (r : Bool × Session)
    → IsStage 1 0 r
    → IsStage 1 1 (and_then r (alloc_transfer k 1))
unfolding and_then
second-IsStage k (true, s) (v, a, b) = second_step k s v a b
second-IsStage k (false, s) v = v

third-IsStage :
    (k : Answers) (r : Bool × Session) → IsStage 1 1 r → IsStage 1 1 (and_then r (alloc_recbuf k))
unfolding and_then alloc_recbuf
third-IsStage k (true, s) v = ground arith
third-IsStage k (false, s) v = v

-- All that was asked for is there and nothing runs yet, or nothing is there.
abbrev pub IsAllocated : Bool × Session → Type 0
IsAllocated (true, s) = IsStill s × (s.allocated 0 ≡ 1) × (s.allocated 1 ≡ 1)
IsAllocated (false, s) = IsEmpty s

on_error-IsAllocated : (r : Bool × Session) → IsStage 1 1 r → IsAllocated (on_error r)
unfolding on_error
on_error-IsAllocated (true, s) v = v
on_error-IsAllocated (false, s) (v, r, q) = free_buffers-IsEmpty s v r q

pub alloc_buffers-IsAllocated :
    (k : Answers) (s : Session) → IsEmpty s → IsAllocated (wavefinder_alloc_buffers k s)
unfolding wavefinder_alloc_buffers
alloc_buffers-IsAllocated k s v =
    let s' = record s { buffer = record s.buffer { pipesize = k.maxpacket } } in
    let e : IsEmpty s' = ground arith in
    let transfers = and_then (alloc_transfer k 0 s') (alloc_transfer k 1) in
    let got : IsAllocated (on_error (and_then transfers (alloc_recbuf k))) =
      on_error-IsAllocated (and_then transfers (alloc_recbuf k)) (
        third-IsStage k transfers
          (second-IsStage k (alloc_transfer k 0 s') (first-IsStage k s' e))) in
    elim (Bool-cases (k.maxpacket == 0)) [
      | inl none_at_all ↦ simp none_at_all v
      | inr some_size ↦ simp some_size got
    ]

pub submit-IsHeld :
    (k : Answers) (s : Session)
    → IsHeld s
    → s.allocated 0 ≡ 1
    → s.allocated 1 ≡ 1
    → IsHeld (for_range 2 0 (submit_urb k) s)
unfolding submit_urb for_range wavefinder_prepare_urb uses_urb store
submit-IsHeld k s v a b = ground arith

pub complete-IsHeld :
    (killed : Bool) (packets : List IsoPacket) (j : ℕ) (submitted : Bool) (s : Session)
    → IsHeld s
    → j < 2
    → s.running j ≡ 1
    → IsHeld (complete_urb killed packets j submitted s)
unfolding complete_urb wavefinder_prepare_urb uses_urb store
complete-IsHeld killed packets j submitted s v p r = ground arith

-- The flags of the session that the calls below leave alone.
abbrev pub Same : Session → Session → Type 0
Same s s' = (s'.opened ≡ s.opened) × (s'.started ≡ s.started)

pub free_buffers-Same : (s : Session) → Same s (wavefinder_free_buffers s)
unfolding wavefinder_free_buffers free_urb for_range
free_buffers-Same s = ground arith

alloc_transfer-Same : (k : Answers) (i : ℕ) (s : Session) → Same s (alloc_transfer k i s).1
unfolding alloc_transfer
alloc_transfer-Same k i s = ground arith

alloc_recbuf-Same : (k : Answers) (s : Session) → Same s (alloc_recbuf k s).1
unfolding alloc_recbuf
alloc_recbuf-Same k s = ground arith

and_then-Same :
    (s : Session) (r : Bool × Session) (next : Session → Bool × Session)
    → Same s r.1
    → ((t : Session) → Same t (next t).1)
    → Same s (and_then r next).1
unfolding and_then
and_then-Same s (true, t) next (o, d) h = ((h t).0 ∙ o, (h t).1 ∙ d)
and_then-Same s (false, t) next e h = e

on_error-Same : (s : Session) (r : Bool × Session) → Same s r.1 → Same s (on_error r).1
unfolding on_error
on_error-Same s (true, t) e = e
on_error-Same s (false, t) (o, d) = ((free_buffers-Same t).0 ∙ o, (free_buffers-Same t).1 ∙ d)

pub alloc_buffers-Same : (k : Answers) (s : Session) → Same s (wavefinder_alloc_buffers k s).1
unfolding wavefinder_alloc_buffers
alloc_buffers-Same k s =
    let s' = record s { buffer = record s.buffer { pipesize = k.maxpacket } } in
    let transfers = and_then (alloc_transfer k 0 s') (alloc_transfer k 1) in
    let same : Same s (on_error (and_then transfers (alloc_recbuf k))).1 =
      on_error-Same s (and_then transfers (alloc_recbuf k)) (
        and_then-Same s transfers (alloc_recbuf k)
          (and_then-Same s (alloc_transfer k 0 s') (alloc_transfer k 1) (alloc_transfer-Same k 0 s')
            (alloc_transfer-Same k 1))
          (alloc_recbuf-Same k)) in
    elim (Bool-cases (k.maxpacket == 0)) [
      | inl none_at_all ↦ simp none_at_all (refl, refl)
      | inr some_size ↦ simp some_size same
    ]
