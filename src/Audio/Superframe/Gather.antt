-- ===== src/Audio/Superframe/Gather.antt =====
-- Five frames and the superframe they are put together to.
use native.Mathlib.Decide.{dec_lt}
use native.Mathlib.Nat.{mul-le-mul_left, mul-add}
use opendab.Base.{
  ℕ, zero, suc, ◌+◌, ◌*◌, ◌<◌, ◌≡◌, refl, ◌∙◌, arith, true, false, ◌==◌, ltb, Buffer, memcpy,
}
use opendab.Base.Copy.{memcpy_in, memcpy_out}
use opendab.Crc.{firecrccheck}
use opendab.Audio.Superframe.{Player, put_frame}

-- The frames before `k` are in the memory, one behind the other.
pub record IsGathering (f : ℕ → Buffer) (ibytes k : ℕ) (p : Player) : Type 0 where
  pub at : p.frame ≡ k
  pub held : (i x : ℕ) → i < k → x < ibytes → p.sfbuf (ibytes * i + x) ≡ f i x

-- A place in an earlier frame lies before the next one.
pub earlier : (n i k x : ℕ) → i < k → x < n → n * i + x < n * k
earlier n i k x h p =
    omega (arith, p, mul-le-mul_left {m = i + 1} {n = k} n (omega (arith, h)), mul-add n i 1)

next_frame :
    (f : ℕ → Buffer) (ibytes k : ℕ) (p : Player)
    → IsGathering f ibytes k p
    → IsGathering f ibytes
        (k + 1)
        (record p { frame = p.frame + 1; sfbuf = memcpy p.sfbuf (ibytes * k) (f k) ibytes })
next_frame f ibytes k p v = record {
  at = omega (arith, v.at);
  held = λ i x h q. elim (dec_lt i k) [
    | yes old ↦
        memcpy_out p.sfbuf (f k) (ibytes * k) ibytes (ibytes * i + x)
          (λ e. absurd (omega (arith, e, earlier ibytes i k x old q)))
        ∙ v.held i x old q
    | no new ↦
        let e : i ≡ k = omega (arith, new, h) in
        rw e (memcpy_in p.sfbuf (f k) (ibytes * k) ibytes x q)
  ];
}

pub put_frame-IsGathering :
    (f : ℕ → Buffer) (ibytes k : ℕ) (p : Player)
    → firecrccheck (f 0) ≡ true
    → IsGathering f ibytes k p
    → IsGathering f ibytes (k + 1) (put_frame (f k) ibytes p)
unfolding put_frame
put_frame-IsGathering f ibytes zero p good v =
    let none : ibytes * 0 ≡ 0 = omega arith in
    rw (v.at, good) (rw (v.at, none) at (next_frame f ibytes 0 p v))
put_frame-IsGathering f ibytes (suc k) p good v =
    rw (v.at, later k, more k) (rw v.at at (next_frame f ibytes (suc k) p v))
  where
    later : (k : ℕ) → (suc k == 0) ≡ false
    later k = ground arith

    more : (k : ℕ) → ltb 0 (suc k) ≡ true
    more k = ground arith

-- Out of turn, a frame without a good fire code changes nothing.
pub put_frame_bad :
    (ibuf : Buffer) (ibytes : ℕ) (p : Player)
    → p.frame ≡ 0
    → firecrccheck ibuf ≡ false
    → put_frame ibuf ibytes p ≡ p
unfolding put_frame
put_frame_bad ibuf ibytes p e bad = rw (e, bad) refl

-- The frames from `k` on, `n` of them.
unfoldable pub put_frames : (ℕ → Buffer) → ℕ → ℕ → ℕ → Player → Player
put_frames f ibytes zero k p = p
put_frames f ibytes (suc n) k p = put_frames f ibytes n (k + 1) (put_frame (f k) ibytes p)

put_frames-IsGathering :
    (f : ℕ → Buffer) (ibytes n k last : ℕ) (p : Player)
    → firecrccheck (f 0) ≡ true
    → k + n ≡ last
    → IsGathering f ibytes k p
    → IsGathering f ibytes last (put_frames f ibytes n k p)
unfolding put_frames
put_frames-IsGathering f ibytes zero k last p good e v =
    let same : k ≡ last = omega (arith, e) in rw (← same) v
put_frames-IsGathering f ibytes (suc n) k last p good e v =
    put_frames-IsGathering f ibytes n (k + 1) last (put_frame (f k) ibytes p) good
      (omega (arith, e)) (put_frame-IsGathering f ibytes k p good v)

-- From the start of a superframe on, five frames of which the first has a good fire code are all kept,
-- one behind the other.
pub put_frames_five :
    (f : ℕ → Buffer) (ibytes : ℕ) (p : Player)
    → p.frame ≡ 0
    → firecrccheck (f 0) ≡ true
    → IsGathering f ibytes 5 (put_frames f ibytes 5 0 p)
put_frames_five f ibytes p e good =
    put_frames-IsGathering f ibytes 5 0 5 p good refl
      (record { at = e; held = λ i x h. absurd (omega (arith, h)) })
