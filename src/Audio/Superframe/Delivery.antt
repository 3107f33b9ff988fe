-- ===== src/Audio/Superframe/Delivery.antt =====
-- The whole of `wfdabplusdec`, over the five frames of a superframe.
use opendab.Base.{
  ℕ, zero, suc, ◌+◌, ◌-◌, ◌*◌, ◌/◌, ◌<◌, ◌≡◌, refl, ap, ap₂, ◌∙◌, arith, true, ltb, ◌++◌, Buffer,
  shift, for_range,
}
use native.Mathlib.Decide.{dec_lt}
use native.Mathlib.Nat.{mul-add}
use opendab.Crc.{firecrccheck}
use opendab.Audio.Superframe.{
  Player, played, put_frame, correct_column, stream_parms, play_units, wfdabplusdec,
}
use opendab.Audio.Superframe.Gather.{IsGathering, put_frame-IsGathering, earlier}
use opendab.Audio.Superframe.Columns.{correct_columns_lem}
use opendab.Audio.Superframe.Frames.{gathered, play_frames, until_last}
use opendab.Audio.Superframe.Agree.{
  Agree, units-Agree, stream_parms-Agree, put_frame-out, starts_of, starts_of-Agree,
}
use opendab.Audio.Superframe.Sealed.{IsSealed, every, units-every}
use opendab.Crc.Accept.{IsBytes}
use opendab.Audio.Superframe.Units.{IsCut, units, inverted, play_units_lem}

-- Each of the first `s * n` bytes is in one of the `s` columns.
place : (s n x : ℕ) → x < s * n → (j : ℕ) × (i : ℕ) × (j < n) × (i < s) × (s * j + i ≡ x)
place s zero x h = absurd (omega (arith, h))
place s (suc n) x h = elim (dec_lt x (s * n)) [
  | yes old ↦ let (j, i, p, q, e) = place s n x old in (j, i, omega (arith, p), q, e)
  | no new ↦ (n, x - s * n, omega arith, omega (arith, new, h, mul-add s n 1), omega (arith, new))
]

-- The decoder gives back the first 110 bytes of each column that was sent.
abbrev pub Corrects : (Buffer → Buffer) → ℕ → Buffer → Buffer → Type 0
Corrects decode_rs s received sent =
    (i : ℕ) (cbuf : Buffer)
    → i < s
    → ((j : ℕ) → j < 120 → cbuf j ≡ received (s * j + i))
    → (j : ℕ) → j < 110
    → decode_rs cbuf j ≡ sent (s * j + i)

corrected :
    (decode_rs : Buffer → Buffer) (stack received sent : Buffer) (s : ℕ) (b : Buffer)
    → Corrects decode_rs s received sent
    → Agree b received (s * 120)
    → Agree (for_range s 0 (correct_column decode_rs stack s) b) sent (s * 110)
corrected decode_rs stack received sent s b corrects same x h =
    let (j, i, p, q, e) = place s 110 x h in
    rw (← e) (
      correct_columns_lem decode_rs stack s b sent
        (λ i cbuf p read.
          corrects i cbuf p (λ j q. read j q ∙ same (s * j + i) (earlier s j 120 i q p)))
        i j q p)

last :
    (decode_rs : Buffer → Buffer) (stack sent ibuf : Buffer) (ibytes bitrate s : ℕ) (p : Player)
    → bitrate / 8 ≡ s
    → ibytes ≡ 24 * s
    → 0 < s
    → (put_frame ibuf ibytes p).frame ≡ 5
    → Agree
        (for_range s 0 (correct_column decode_rs stack s) (put_frame ibuf ibytes p).sfbuf)
        sent
        (s * 110)
    → IsCut (starts_of sent) (s * 110)
    → (b : Buffer) × (wfdabplusdec decode_rs stack ibuf ibytes bitrate p
        ≡ played (record {
          frame = 0;
          sfbuf = b;
          out = p.out ++ units (stream_parms sent) (starts_of sent) (s * 110) sent;
        }))
unfolding wfdabplusdec
last decode_rs stack sent ibuf ibytes bitrate s p is_s bytes some_bytes five same cut =
    let p' = put_frame ibuf ibytes p in
    let sfbuf = for_range s 0 (correct_column decode_rs stack s) p'.sfbuf in
    let head : Agree sfbuf sent 11 = λ x h. same x (omega (arith, h, some_bytes)) in
    let begun : Player = record p' { frame = 0; sfbuf = sfbuf } in
    let over : ltb 4 p'.frame ≡ true = ground (arith, five) in
    let size : ibytes * 5 - s * 10 ≡ s * 110 = omega (arith, bytes) in
    let started = starts_of-Agree sfbuf sent head in
    let parms = stream_parms-Agree sfbuf sent head in
    (
      inverted (starts_of sent) (s * 110) sfbuf,
      rw (is_s, over)
          ((λ i. play_units (parms i) (started i) (size i) begun)
            ∙ play_units_lem (stream_parms sent) (starts_of sent) (s * 110) begun cut
            ∙ ap
                (λ l. played (record {
                  frame = 0;
                  sfbuf = inverted (starts_of sent) (s * 110) sfbuf;
                  out = l;
                }))
                (ap₂ ◌++◌ (put_frame-out ibuf ibytes p) (
                  units-Agree (stream_parms sent) (starts_of sent) (s * 110) sfbuf sent cut same))),
    )

play_frames-units :
    (decode_rs : Buffer → Buffer) (stack received sent : Buffer) (s : ℕ) (p : Player)
    → p.frame ≡ 0
    → 0 < s
    → firecrccheck received ≡ true
    → Corrects decode_rs s received sent
    → IsCut (starts_of sent) (s * 110)
    → (b : Buffer) × (play_frames decode_rs stack received (24 * s) (8 * s) 5 0 p
        ≡ played (record {
          frame = 0;
          sfbuf = b;
          out = p.out ++ units (stream_parms sent) (starts_of sent) (s * 110) sent;
        }))
play_frames-units decode_rs stack received sent s p first some_bytes good corrects cut =
    let frame : ℕ → Buffer = λ i. shift received (24 * s * i) in
    let none : IsGathering frame (24 * s) 0 p = record {
      at = first;
      held = λ i x h. absurd (omega (arith, h));
    } in
    let start : shift received (24 * s * 0) ≡ received =
      λ i x. received ((let e : 24 * s * 0 + x ≡ x = omega arith in e) i) in
    let good' : firecrccheck (frame 0) ≡ true = ap firecrccheck start ∙ good in
    let (q, four, out, run) =
      until_last decode_rs stack received (24 * s) (8 * s) 4 0 p good' refl none in
    let five = put_frame-IsGathering frame (24 * s) 4 q good' four in
    let same =
      corrected decode_rs stack received sent s (put_frame (frame 4) (24 * s) q).sfbuf corrects
        (λ x h.
          gathered received (24 * s) 5 (put_frame (frame 4) (24 * s) q) five.held x
            (omega (arith, h))) in
    let (b, e) =
      last decode_rs stack sent (frame 4) (24 * s) (8 * s) s q (omega arith) refl some_bytes five.at
        same cut in
    (
      b,
      run
          ∙ e
          ∙ ap
              (λ l. played (record {
                frame = 0;
                sfbuf = b;
                out = l ++ units (stream_parms sent) (starts_of sent) (s * 110) sent;
              }))
              out,
    )

-- From the start of a superframe on, five frames are given to `wfdabplusdec`, of which the first has a good
-- fire code. If the Reed-Solomon decoder gives back the first 110 bytes of each column of the superframe that
-- was sent, and its units, which do not overlap, end with their checks, then exactly its units are written,
-- in order, each without its check and behind its header, and the next superframe can begin.
pub play_frames-delivers :
    (decode_rs : Buffer → Buffer) (stack received sent : Buffer) (s : ℕ) (p : Player)
    → p.frame ≡ 0
    → 0 < s
    → firecrccheck received ≡ true
    → Corrects decode_rs s received sent
    → IsBytes sent
    → IsCut (starts_of sent) (s * 110)
    → IsSealed (starts_of sent) (s * 110) sent
    → (b : Buffer) × (play_frames decode_rs stack received (24 * s) (8 * s) 5 0 p
        ≡ played (record {
          frame = 0;
          sfbuf = b;
          out = p.out ++ every (stream_parms sent) (starts_of sent) (s * 110) sent;
        }))
play_frames-delivers decode_rs stack received sent s p first some_bytes good corrects bytes cut
      ends =
    let (b, e) =
      play_frames-units decode_rs stack received sent s p first some_bytes good corrects cut in
    (
      b,
      e
          ∙ ap (λ l. played (record { frame = 0; sfbuf = b; out = p.out ++ l }))
              (units-every (stream_parms sent) (starts_of sent) (s * 110) sent bytes cut ends),
    )
