-- ===== src/Driver/Session/Examples.antt =====
-- A device that is opened, read from and released, twice.
use opendab.Base.{◌≡◌, refl, arith, true, false, ◌==◌, if◌then◌else◌, [], Buffer, for_range, store}
use opendab.Driver.{wavefinder_iso_complete}
use opendab.Driver.Session.{
  Session, Answers, wavefinder_prepare_urb, free_urb, wavefinder_free_buffers, alloc_transfer,
  alloc_recbuf, and_then, on_error, wavefinder_alloc_buffers, uses_urb, wavefinder_stop, submit_urb,
  wavefinder_start_receive, complete_urb, wavefinder_open, wavefinder_release,
}
use opendab.Driver.Session.Safe.{IsSafe, opens, starts, completes, Reach, here, next, Reach-IsSafe}

abbrev zeros : Buffer
zeros i = 0

abbrev probed : Session
probed = record {
  buffer = record { count = 0; readptr = 0; pipesize = 0; recbuf = zeros; prev_h = zeros };
  usbdev = true;
  started = false;
  remove_pending = false;
  pending_io = 0;
  overruns = 0;
  opened = false;
  allocated = zeros;
  running = zeros;
  frames = λ i. [];
  heap = record { urbs = zeros; transfer_buffers = zeros; recbufs = 0; fault = false };
}

abbrev all_well : Answers
all_well = record {
  maxpacket = 524;
  alloc_urb = λ i. true;
  alloc_transfer = λ i. true;
  alloc_recbuf = true;
  submit = λ i. true;
}

abbrev one_fails : Answers
one_fails = record all_well { alloc_transfer = λ i. if i == 1 then false else true }

abbrev reading : Answers → Session → Session
reading k s = (wavefinder_start_receive k (wavefinder_open s).1).1

abbrev used : Session → Session
used s = wavefinder_release (complete_urb false [] 0 true (reading all_well s))

-- The receive buffer of each use stays behind.
used_twice : (used (used probed)).heap.recbufs ≡ 2
unfolding wavefinder_open wavefinder_start_receive wavefinder_alloc_buffers alloc_transfer
    alloc_recbuf and_then on_error wavefinder_prepare_urb submit_urb uses_urb complete_urb
    wavefinder_iso_complete wavefinder_stop wavefinder_free_buffers free_urb wavefinder_release
    for_range store
used_twice = refl

-- A block whose buffer cannot be allocated stays behind too.
half_allocated : (reading one_fails probed).heap.urbs 1 ≡ 1
unfolding wavefinder_open wavefinder_start_receive wavefinder_alloc_buffers alloc_transfer and_then
    on_error wavefinder_free_buffers free_urb for_range store
half_allocated = refl

runs : (reading all_well probed).running 0 ≡ 1
unfolding wavefinder_open wavefinder_start_receive wavefinder_alloc_buffers alloc_transfer
    alloc_recbuf and_then on_error wavefinder_prepare_urb submit_urb uses_urb for_range store
runs = refl

opened_first : (wavefinder_open probed).1.opened ≡ true
unfolding wavefinder_open
opened_first = refl

use_of_probed : Reach probed (complete_urb false [] 0 true (reading all_well probed))
use_of_probed =
    next (next (next here (opens probed)) (starts all_well (wavefinder_open probed).1 opened_first))
      (completes false [] 0 true (reading all_well probed) (omega arith) runs)

probed-IsSafe : IsSafe probed
probed-IsSafe = ground arith

Reach-IsSafe_example : IsSafe (complete_urb false [] 0 true (reading all_well probed))
Reach-IsSafe_example = Reach-IsSafe use_of_probed probed-IsSafe
