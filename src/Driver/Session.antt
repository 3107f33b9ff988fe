-- ===== src/Driver/Session.antt =====
-- driver/wavefinder.c: the life of an open device, from wavefinder_open to wavefinder_release. What the
-- kernel answers is given with each call; locks, and the waiting of a reader, are left out.
pub mod Held
pub mod Safe
mod Examples
use opendab.Base.{
  ℕ, zero, suc, ◌+◌, ◌-◌, ◌*◌, ◌/◌, ◌%◌, ◌^◌, Bool, true, false, not, ◌&&◌, ◌||◌, ◌==◌, ltb,
  if◌then◌else◌, List, [], ◌∷◌, for_range, Buffer, store,
}
use opendab.Driver.{WaveFinder, IsoPacket, wavefinder_iso_complete}

-- `NURBS`
abbrev pub nurbs : ℕ
nurbs = 2

-- What of the driver's memory is live, of each of the transfers the blocks and the buffers, and whether
-- a block was submitted, killed or freed that was not.
pub record Heap : Type 0 where
  pub urbs : Buffer
  pub transfer_buffers : Buffer
  pub recbufs : ℕ
  pub fault : Bool

-- The other fields of `wavefinder_t`; `usbdev` tells whether there is a device. The frames of a transfer
-- are the offset and the length of each packet.
pub record Session : Type 0 where
  pub buffer : WaveFinder
  pub usbdev : Bool
  pub started : Bool
  pub remove_pending : Bool
  pub pending_io : ℕ
  pub overruns : ℕ
  pub opened : Bool
  pub allocated : Buffer
  pub running : Buffer
  pub frames : ℕ → List (ℕ × ℕ)
  pub heap : Heap

-- What the kernel answers: the size of a packet, and which of its calls succeed.
pub record Answers : Type 0 where
  pub maxpacket : ℕ
  pub alloc_urb : ℕ → Bool
  pub alloc_transfer : ℕ → Bool
  pub alloc_recbuf : Bool
  pub submit : ℕ → Bool

-- `_ISOPIPESIZE / pipesize`
abbrev pub packets_of : ℕ → ℕ
packets_of pipesize = 16768 / pipesize

-- The frames from `offs` on.
pub frames_from : ℕ → ℕ → ℕ → List (ℕ × ℕ)
frames_from zero offs pipesize = []
frames_from (suc packets) offs pipesize =
    (offs, pipesize) ∷ frames_from packets (offs + pipesize) pipesize

pub set_frames : (ℕ → List (ℕ × ℕ)) → ℕ → List (ℕ × ℕ) → ℕ → List (ℕ × ℕ)
set_frames frames i fs j = if j == i then fs else frames j

pub wavefinder_prepare_urb : ℕ → Session → Session
wavefinder_prepare_urb i s =
    let p = s.buffer.pipesize in
    record s { frames = set_frames s.frames i (frames_from (packets_of p) 0 p) }

pub free_urb : ℕ → Session → Session
free_urb i s =
    let h = s.heap in
    record s {
      allocated = store s.allocated i 0;
      heap = record h {
        urbs = store h.urbs i (h.urbs i - 1);
        transfer_buffers = store h.transfer_buffers i (h.transfer_buffers i - 1);
        fault = h.fault || (h.urbs i == 0) || (h.transfer_buffers i == 0);
      };
    }

-- The buffer `recbuf` is freed only if it is NULL: nothing is done.
pub wavefinder_free_buffers : Session → Session
wavefinder_free_buffers s =
    for_range nurbs 0 (λ i s. if s.allocated i == 0 then s else free_urb i s) s

-- A round of the loop of `wavefinder_alloc_buffers`; without a transfer buffer the block stays behind.
pub alloc_transfer : Answers → ℕ → Session → Bool × Session
alloc_transfer k i s =
    let h = s.heap in
    let with_urb = record h { urbs = store h.urbs i (h.urbs i + 1) } in
    let with_both = record with_urb {
      transfer_buffers = store h.transfer_buffers i (h.transfer_buffers i + 1);
    } in
    if not (k.alloc_urb i)
    then (false, s)
    else if not (k.alloc_transfer i)
    then (false, record s { heap = with_urb })
    else (
      true,
      record s {
        heap = with_both;
        frames = set_frames s.frames i (frames_from (packets_of k.maxpacket) 0 k.maxpacket);
        allocated = store s.allocated i 1;
        running = store s.running i 0;
      },
    )

pub alloc_recbuf : Answers → Session → Bool × Session
alloc_recbuf k s =
    if k.alloc_recbuf
    then (true, record s { heap = record s.heap { recbufs = s.heap.recbufs + 1 } })
    else (false, s)

-- `goto err` if a step fails.
pub and_then : Bool × Session → (Session → Bool × Session) → Bool × Session
and_then (true, s) next = next s
and_then (false, s) next = (false, s)

-- The label `err`.
pub on_error : Bool × Session → Bool × Session
on_error (true, s) = (true, s)
on_error (false, s) = (false, wavefinder_free_buffers s)

-- 0, or `-ENOMEM`.
pub wavefinder_alloc_buffers : Answers → Session → Bool × Session
wavefinder_alloc_buffers k s =
    let s' = record s { buffer = record s.buffer { pipesize = k.maxpacket } } in
    let transfers = and_then (alloc_transfer k 0 s') (alloc_transfer k 1) in
    if k.maxpacket == 0 then (false, s) else on_error (and_then transfers (alloc_recbuf k))

-- A call of `usb_submit_urb`, or of `usb_kill_urb`, uses the block and its buffer.
pub uses_urb : ℕ → Heap → Heap
uses_urb i h = record h { fault = h.fault || (h.urbs i == 0) || (h.transfer_buffers i == 0) }

pub wavefinder_stop : Session → Session
wavefinder_stop s =
    let s = record s { started = false } in
    let s =
      for_range nurbs 0
        (λ i s.
          if s.running i == 0
          then s
          else record s { running = store s.running i 0; heap = uses_urb i s.heap })
        s in
    record s { pending_io = 0 }

pub submit_urb : Answers → ℕ → Session → Session
submit_urb k i s =
    let s = wavefinder_prepare_urb i s in
    if s.running i == 0
    then record s {
      running = store s.running i (if k.submit i then 1 else 0);
      heap = uses_urb i s.heap;
    }
    else record s { running = store s.running i 0 }

abbrev pub start_all : Answers → Bool × Session → Bool × Session
start_all k (true, s) = (
  true,
  for_range nurbs 0 (submit_urb k)
      (record s { started = true; buffer = record s.buffer { readptr = 0 } }),
)
start_all k (false, s) = (false, s)

-- 0, or `-ENOMEM`.
pub wavefinder_start_receive : Answers → Session → Bool × Session
wavefinder_start_receive k s =
    if not (s.allocated 0 + s.allocated 1 == nurbs) && not s.started
    then start_all k (wavefinder_alloc_buffers k s)
    else (true, s)

-- The end of the transfer `j`.
pub complete_urb : Bool → List IsoPacket → ℕ → Bool → Session → Session
complete_urb killed packets j submitted s =
    let s = record s {
      running = store s.running j 0;
      buffer = wavefinder_iso_complete killed packets s.buffer;
    } in
    let s = wavefinder_prepare_urb j s in
    let running = if submitted then store s.running j 1 else s.running in
    let pending_io = (s.pending_io + 2 ^ 32 - 1) % 2 ^ 32 in
    let overrun = (pending_io == 0) && not s.remove_pending && s.started in
    record s {
      running = running;
      heap = uses_urb j s.heap;
      pending_io = pending_io;
      overruns = if overrun then s.overruns + 1 else s.overruns;
    }

pub data Opened : Type 0 where
  done : Opened
  enodev : Opened
  ebusy : Opened

pub wavefinder_open : Session → Opened × Session
wavefinder_open s = if not s.usbdev then (enodev, s) else if s.opened then (ebusy, s) else (
  done,
  record s {
    opened = true;
    buffer = record s.buffer { count = 0; readptr = 0 };
    allocated = store (store s.allocated 0 0) 1 0;
  },
)

pub wavefinder_release : Session → Session
wavefinder_release s = record (wavefinder_free_buffers (wavefinder_stop s)) { opened = false }

pub wavefinder_disconnect : Session → Session
wavefinder_disconnect s = record s { remove_pending = true; usbdev = false; overruns = 0 }
