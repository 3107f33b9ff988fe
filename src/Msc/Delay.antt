-- ===== src/Msc/Delay.antt =====
-- The frames that time disinterleaving reads.
use native.Mathlib.Decide.{ℕ_discrete}
use opendab.Base.{
  ℕ, ◌+◌, ◌-◌, ◌*◌, ◌%◌, ◌<◌, ◌≤◌, ◌≡◌, refl, ◌∙◌, arith, Bool, true, false, ◌==◌, ltb, ltb→lt, ◌≢◌,
  if◌then◌else◌, Buffer, get_or,
}
use opendab.Base.Fill.{filled_by}
use opendab.Base.Check.{all_below, all_below_sound}
use opendab.Figs.{Symrange, bits_per_cu, bits_per_sym}
use opendab.Msc.{Ring, delay_map, time_disinterleave}
use opendab.Msc.Held.{IsHeld}
use opendab.Msc.Written.{Recorded, Recorded-IsWritten}

map-lt : (i : ℕ) → get_or delay_map (i % 16) 0 < 16
map-lt i =
    ltb→lt _ _
      (all_below_sound 16 (λ k. ltb (get_or delay_map k 0) 16) (i % 16) below (omega arith))
  where
    below : all_below 16 (λ k. ltb (get_or delay_map k 0) 16) ≡ true
    below = unfold all_below in refl

-- The frame that stands `m` places behind that of frame `q`.
frame_at :
    (n : ℕ) (f : ℕ → Buffer) (q m x : ℕ) (c : Ring)
    → IsHeld n f q n c
    → 15 ≤ q
    → m < 16
    → x < n * bits_per_sym
    → c.frames ((c.head + m) % 16) x ≡ f (if m == 0 then q else q + m - 16) x
frame_at n f q m x c v late small within = elim (ℕ_discrete m 0) [
  | yes e ↦ rw (e, v.led, own) (v.newest x within)
  | no ne ↦
      rw (v.led, other ne, untested m ne)
        (v.earlier (q + m - 16) x (omega (arith, small, late)) (omega (arith, small, late, ne))
          within)
]
  where
    own : (q % 16 + 0) % 16 ≡ q % 16
    own = omega arith

    other : m ≢ 0 → (q % 16 + m) % 16 ≡ (q + m - 16) % 16
    other ne = omega (arith, ne, late)

    untested : (m : ℕ) → m ≢ 0 → m == 0 ≡ false
    untested m ne = ground arith

-- Once sixteen frames are complete, each bit of the logical frame comes from its own place: with the
-- delay 0 out of the newest frame `q`, and with a delay `m` from 1 to 15 out of frame `q - 16 + m`.
pub time_disinterleave_lem :
    (sr : Symrange) (f : ℕ → Buffer) (q : ℕ) (t : Ring × Bool) (obuf : Buffer) (subchsz i : ℕ)
    → 0 < sr.numsyms
    → Recorded sr f q sr.numsyms t
    → 15 ≤ q
    → bits_per_cu * (sr.startcu + subchsz) ≤ sr.numsyms * bits_per_sym
    → i < subchsz * bits_per_cu
    → let m = get_or delay_map (i % 16) 0 in
      time_disinterleave obuf subchsz sr t.0 i
      ≡ f (if m == 0 then q else q + m - 16) (bits_per_cu * sr.startcu + i)
unfolding time_disinterleave
time_disinterleave_lem sr f q t obuf subchsz i pos w late fits h =
    filled_by _ (subchsz * bits_per_cu) i obuf h
    ∙ frame_at sr.numsyms f q (get_or delay_map (i % 16) 0) (bits_per_cu * sr.startcu + i) t.0
        (Recorded-IsWritten sr f q sr.numsyms t pos w).held late (map-lt i) (omega (arith, fits, h))
