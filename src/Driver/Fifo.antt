-- ===== src/Driver/Fifo.antt =====
-- The buffer as a queue: packets and reads in any order.
use opendab.Base.{
  map, ℕ, ◌+◌, ◌-◌, ◌%◌, ◌≤◌, ◌<◌, ◌≡◌, refl, sym, ap, ap₂, ◌∙◌, arith, min, false, ◌==◌, ==_iff,
  if◌then◌else◌, List, [], ◌∷◌, ◌++◌, append_assoc, append-nil, Buffer, window, memcpy, Bool-cases,
  inl, inr,
}
use opendab.Base.Copy.{memcpy_in, memcpy_out}
use opendab.Base.Window.{window_ext, window-append}
use native.Mathlib.Nat.{mod-eq_of_lt}
use opendab.Driver.{
  WaveFinder, IsoPacket, ring_size, is_new, copy_packet, wavefinder_iso_complete, wavefinder_read,
}

-- The bytes that were not read yet.
abbrev pub pending : WaveFinder → List ℕ
pending s = window s.recbuf s.readptr (s.count - s.readptr)

pub record IsInside (s : WaveFinder) : Type 0 where
  pub behind : s.readptr ≤ s.count
  pub within : s.count ≤ ring_size

-- What happens to the buffer: a packet of a transfer, or a round of the reader.
pub data Op : Type 0 where
  arrive : IsoPacket → Op
  read : ℕ → Op

abbrev pub after : Op → WaveFinder → WaveFinder
after (arrive pk) s = copy_packet pk s
after (read n) s = (wavefinder_read n s).1

-- The bytes that come in, and those that the reader gets.
abbrev pub arrived : Op → WaveFinder → List ℕ
arrived (arrive pk) s = if is_new pk s then window pk.bytes 0 pk.actual_length else []
arrived (read n) s = []

abbrev pub got : Op → WaveFinder → List ℕ
got (arrive pk) s = []
got (read n) s = (wavefinder_read n s).0

-- A packet that is copied has room behind what the buffer holds; any other needs none.
abbrev pub HasRoom : Op → WaveFinder → Type 0
HasRoom (arrive pk) s = s.count + (if is_new pk s then pk.actual_length else 0) ≤ ring_size
HasRoom (read n) s = Unit

-- The bytes of a packet are behind those of the buffer, if there are any.
placed :
    (pk : IsoPacket) (s : WaveFinder) (x : ℕ)
    → s.count + pk.actual_length ≤ ring_size
    → x < pk.actual_length
    → s.count % ring_size ≡ s.count
placed pk s x room p = mod-eq_of_lt (omega (arith, room, p))

copied :
    (pk : IsoPacket) (s : WaveFinder)
    → IsInside s
    → s.count + pk.actual_length ≤ ring_size
    → window
        (memcpy s.recbuf (s.count % ring_size) pk.bytes pk.actual_length)
        s.readptr
        (s.count + pk.actual_length - s.readptr)
      ≡ pending s ++ window pk.bytes 0 pk.actual_length
copied pk s v room =
    let b = memcpy s.recbuf (s.count % ring_size) pk.bytes pk.actual_length in
    let n : s.count + pk.actual_length - s.readptr ≡ s.count - s.readptr + pk.actual_length =
      omega (arith, v.behind) in
    rw n (
      sym (window-append b s.readptr (s.count - s.readptr) pk.actual_length)
      ∙ ap₂ (λ xs ys. xs ++ ys)
          (window_ext b s.recbuf s.readptr s.readptr (s.count - s.readptr) before)
          (window_ext b pk.bytes (s.readptr + (s.count - s.readptr)) 0 pk.actual_length behind))
  where
    before :
        (x : ℕ)
        → x < s.count - s.readptr
        → memcpy s.recbuf (s.count % ring_size) pk.bytes pk.actual_length (s.readptr + x)
          ≡ s.recbuf (s.readptr + x)
    before x p =
        memcpy_out s.recbuf pk.bytes (s.count % ring_size) pk.actual_length (s.readptr + x)
          (λ e. omega (arith, e, p, v.behind, v.within, room))

    behind :
        (x : ℕ)
        → x < pk.actual_length
        → memcpy s.recbuf
            (s.count % ring_size)
            pk.bytes
            pk.actual_length
            (s.readptr + (s.count - s.readptr) + x)
          ≡ pk.bytes (0 + x)
    behind x p =
        let at : s.readptr + (s.count - s.readptr) + x ≡ s.count % ring_size + x =
          omega (arith, v.behind, placed pk s x room p) in
        ap (memcpy s.recbuf (s.count % ring_size) pk.bytes pk.actual_length) at
        ∙ memcpy_in s.recbuf pk.bytes (s.count % ring_size) pk.actual_length x p
        ∙ ap pk.bytes (let e : x ≡ 0 + x = omega arith in e)

IsInside-after : (op : Op) (s : WaveFinder) → IsInside s → HasRoom op s → IsInside (after op s)
unfolding copy_packet wavefinder_read
IsInside-after (arrive pk) s v room = elim (Bool-cases (is_new pk s)) [
  | inl e ↦ rw e (record { behind = omega (arith, v.behind); within = rw e at room })
  | inr e ↦ rw e v
]
IsInside-after (read n) s v h =
    let cnt = min n (s.count - s.readptr) in
    elim (Bool-cases (cnt == 0)) [
      | inl e ↦ rw e v
      | inr e ↦ elim (Bool-cases (s.readptr + cnt == s.count)) [
        | inl f ↦ rw (e, f) (record { behind = omega arith; within = omega arith })
        | inr f ↦ rw (e, f) (record { behind = omega (arith, v.behind); within = v.within })
      ]
    ]

-- Of `n` bytes, the first `cnt`, and the others.
split_window :
    (b : Buffer) (at cnt n : ℕ)
    → cnt ≤ n
    → window b at n ≡ window b at cnt ++ window b (at + cnt) (n - cnt)
split_window b at cnt n h =
    ap (window b at) (let e : n ≡ cnt + (n - cnt) = omega (arith, h) in e)
    ∙ sym (window-append b at cnt (n - cnt))

-- What a read leaves.
left_over :
    (n : ℕ) (s : WaveFinder)
    → let cnt = min n (s.count - s.readptr) in
      window s.recbuf (s.readptr + cnt) (s.count - s.readptr - cnt)
      ≡ pending (wavefinder_read n s).1
unfolding wavefinder_read
left_over n s =
    let cnt = min n (s.count - s.readptr) in
    elim (Bool-cases (cnt == 0)) [
      | inl e ↦
          let none : cnt ≡ 0 = (==_iff cnt 0).0 e in
          rw e (
            ap₂ (window s.recbuf) (let m : s.readptr + cnt ≡ s.readptr = omega (arith, none) in m)
              (let m : s.count - s.readptr - cnt ≡ s.count - s.readptr = omega (arith, none) in m))
      | inr e ↦ elim (Bool-cases (s.readptr + cnt == s.count)) [
        | inl f ↦
            let all : s.readptr + cnt ≡ s.count = (==_iff (s.readptr + cnt) s.count).0 f in
            rw (e, f)
              (ap (window s.recbuf (s.readptr + cnt))
                (let m : s.count - s.readptr - cnt ≡ 0 - 0 = omega (arith, all) in m))
        | inr f ↦
            rw (e, f)
              (ap (window s.recbuf (s.readptr + cnt)) (
                let m : s.count - s.readptr - cnt ≡ s.count - (s.readptr + cnt) = omega arith in m))
      ]
    ]

-- Each step moves bytes through the queue.
queued :
    (op : Op) (s : WaveFinder)
    → IsInside s
    → HasRoom op s
    → pending s ++ arrived op s ≡ got op s ++ pending (after op s)
unfolding copy_packet wavefinder_read
queued (arrive pk) s v room = elim (Bool-cases (is_new pk s)) [
  | inl e ↦ rw e (sym (copied pk s v (rw e at room)))
  | inr e ↦ rw e (append-nil (pending s))
]
queued (read n) s v h =
    let cnt = min n (s.count - s.readptr) in
    append-nil (pending s)
    ∙ split_window s.recbuf s.readptr cnt (s.count - s.readptr) (omega arith)
    ∙ ap (λ xs. window s.recbuf s.readptr cnt ++ xs) (left_over n s)

-- A sequence of steps.
abbrev pub run : List Op → WaveFinder → WaveFinder
run [] s = s
run (op ∷ ops) s = run ops (after op s)

abbrev pub all_arrived : List Op → WaveFinder → List ℕ
all_arrived [] s = []
all_arrived (op ∷ ops) s = arrived op s ++ all_arrived ops (after op s)

abbrev pub all_got : List Op → WaveFinder → List ℕ
all_got [] s = []
all_got (op ∷ ops) s = got op s ++ all_got ops (after op s)

abbrev pub AllHaveRoom : List Op → WaveFinder → Type 0
AllHaveRoom [] s = Unit
AllHaveRoom (op ∷ ops) s = HasRoom op s × AllHaveRoom ops (after op s)

-- A transfer is a packet after the other.
transferred :
    (packets : List IsoPacket) (s : WaveFinder)
    → run (map arrive packets) s ≡ wavefinder_iso_complete false packets s
unfolding wavefinder_iso_complete
transferred [] s = refl
transferred (pk ∷ packets) s = transferred packets (copy_packet pk s)

-- If the pointer of the reader is not behind the bytes in the buffer, these fit into it, and each packet
-- that is copied has room behind them, then however packets and reads follow one another, the reader
-- has got, and will get of what the buffer holds, the bytes that it held before and those of the new
-- packets, in the order of their arrival, each once. A packet that is not copied may have any length.
pub run_lem :
    (ops : List Op) (s : WaveFinder)
    → IsInside s
    → AllHaveRoom ops s
    → pending s ++ all_arrived ops s ≡ all_got ops s ++ pending (run ops s)
run_lem [] s v room = append-nil (pending s)
run_lem (op ∷ ops) s v room =
    sym (append_assoc (pending s) (arrived op s) (all_arrived ops (after op s)))
    ∙ ap (λ xs. xs ++ all_arrived ops (after op s)) (queued op s v room.0)
    ∙ append_assoc (got op s) (pending (after op s)) (all_arrived ops (after op s))
    ∙ ap (λ xs. got op s ++ xs) (run_lem ops (after op s) (IsInside-after op s v room.0) room.1)
    ∙ sym (append_assoc (got op s) (all_got ops (after op s)) (pending (run ops (after op s))))
