-- ===== src/Audio/Superframe/Frames.antt =====
-- The calls of `wfdabplusdec` for the frames of a superframe, up to the last one.
use opendab.Base.{
  ℕ, zero, suc, ◌+◌, ◌-◌, ◌*◌, ◌<◌, ◌≡◌, refl, ◌∙◌, arith, true, false, ltb, Buffer, shift,
}
use native.Mathlib.Decide.{dec_lt}
use native.Mathlib.Nat.{mul-add}
use opendab.Crc.{firecrccheck}
use opendab.Audio.Superframe.{Player, Played, played, outside, put_frame, wfdabplusdec}
use opendab.Audio.Superframe.Gather.{IsGathering, put_frame-IsGathering}
use opendab.Audio.Superframe.Agree.{Agree, put_frame-out}

-- The frames that have come are in the memory as in the superframe.
pub gathered :
    (received : Buffer) (ibytes k : ℕ) (p : Player)
    → ((i x : ℕ) → i < k → x < ibytes → p.sfbuf (ibytes * i + x) ≡ received (ibytes * i + x))
    → Agree p.sfbuf received (ibytes * k)
gathered received ibytes zero p held x h = absurd (omega (arith, h))
gathered received ibytes (suc k) p held x h = elim (dec_lt x (ibytes * k)) [
  | yes old ↦ gathered received ibytes k p (λ i x q. held i x (omega (arith, q))) x old
  | no new ↦
      let e : ibytes * k + (x - ibytes * k) ≡ x = omega (arith, new) in
      rw e at (held k (x - ibytes * k) (omega arith) (omega (arith, new, h, mul-add ibytes k 1)))
]

-- The next call, if this one has a result.
unfoldable pub followed : Played → (Player → Played) → Played
followed (played p) f = f p
followed outside f = outside

followed-played : (r : Played) → followed r played ≡ r
unfolding followed
followed-played (played p) = refl
followed-played outside = refl

-- The calls for the `n` frames of a superframe from frame `k` on, of `ibytes` bytes each.
unfoldable pub play_frames : (Buffer → Buffer) → Buffer → Buffer → ℕ → ℕ → ℕ → ℕ → Player → Played
play_frames decode_rs stack received ibytes bitrate zero k p = played p
play_frames decode_rs stack received ibytes bitrate (suc n) k p =
    followed (wfdabplusdec decode_rs stack (shift received (ibytes * k)) ibytes bitrate p)
      (play_frames decode_rs stack received ibytes bitrate n (k + 1))

module _ (decode_rs : Buffer → Buffer) (stack : Buffer) (received : Buffer)
    (ibytes bitrate : ℕ) where
  early :
      (k : ℕ) (p : Player)
      → k < 4
      → (put_frame (shift received (ibytes * k)) ibytes p).frame ≡ k + 1
      → wfdabplusdec decode_rs stack (shift received (ibytes * k)) ibytes bitrate p
        ≡ played (put_frame (shift received (ibytes * k)) ibytes p)
  unfolding wfdabplusdec
  early k p h e =
      let not_yet : ltb 4 (put_frame (shift received (ibytes * k)) ibytes p).frame ≡ false =
        ground (arith, h, e) in
      rw not_yet refl

  pub until_last :
      (n k : ℕ) (p : Player)
      → firecrccheck (shift received (ibytes * 0)) ≡ true
      → k + n ≡ 4
      → IsGathering (λ i. shift received (ibytes * i)) ibytes k p
      → (q : Player) × IsGathering (λ i. shift received (ibytes * i)) ibytes 4 q
        × (q.out ≡ p.out)
        × (play_frames decode_rs stack received ibytes bitrate (suc n) k p
            ≡ wfdabplusdec decode_rs stack (shift received (ibytes * 4)) ibytes bitrate q)
  unfolding play_frames followed
  until_last zero k p good e v =
      let now : k ≡ 4 = omega (arith, e) in
      let four : IsGathering (λ i. shift received (ibytes * i)) ibytes 4 p = rw (← now) v in
      (
        p,
        four,
        refl,
        rw now (
            followed-played
              (wfdabplusdec decode_rs stack (shift received (ibytes * 4)) ibytes bitrate p)),
      )
  until_last (suc n) k p good e v =
      let next = put_frame-IsGathering (λ i. shift received (ibytes * i)) ibytes k p good v in
      let p' = put_frame (shift received (ibytes * k)) ibytes p in
      let (q, w, out, run) = until_last n (k + 1) p' good (omega (arith, e)) next in
      (
        q,
        w,
        out ∙ put_frame-out (shift received (ibytes * k)) ibytes p,
        rw (early k p (omega (arith, e)) next.at) run,
      )
