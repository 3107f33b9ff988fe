-- ===== src/Wfic/Puncture/RoundTrip.antt =====
-- Puncturing and depuncturing one after the other.
use native.Mathlib.Decide.{dec_lt}
use mathlib.Core.Path.{subst}
use opendab.Base.{
  ℕ, ◌+◌, ◌*◌, ◌/◌, ◌%◌, ◌<◌, ◌≡◌, refl, sym, ap, ◌∙◌, arith, ltb, ltb→lt, if◌then◌else◌, Buffer,
  Bool-cases, inl, inr,
}
use opendab.Wfic.Puncture.{
  Punctured, keep3, keep2, rounds, puncture, restore3, restore2, depuncture,
}
use opendab.Wfic.Puncture.Places.{width, place, place_step, place_lt, rounds_inv}
use opendab.Wfic.Puncture.Stores.{
  three_stores, two_stores, four_stores, three_before, two_before, four_before, three_in, two_in,
  four_in,
}

record IsPunctured (ibuf : Buffer) (c : ℕ) (s : Punctured) : Type 0 where
  at : s.k ≡ place c
  kept : (q r : ℕ) → q < c → r < width q → s.obuf (place q + r) ≡ ibuf (4 * q + r)

kept_next :
    (ibuf : Buffer) (c : ℕ) (s t : Punctured)
    → c < 774
    → IsPunctured ibuf c s
    → t.k ≡ s.k + width c
    → ((j : ℕ) → j < s.k → t.obuf j ≡ s.obuf j)
    → ((r : ℕ) → r < width c → t.obuf (s.k + r) ≡ ibuf (4 * c + r))
    → IsPunctured ibuf (c + 1) t
kept_next ibuf c s t h v e before in_place = record {
  at = e ∙ ap (λ k. k + width c) v.at ∙ sym (place_step c h);
  kept = λ q r p w. elim (dec_lt q c) [
    | yes old ↦
        before (place q + r) (omega (arith, v.at, place_lt q r c old (omega (arith, h)) w))
        ∙ v.kept q r old w
    | no new ↦ let same : q ≡ c = omega (arith, new, p) in here q r same w
  ];
}
  where
    here : (q r : ℕ) → q ≡ c → r < width q → t.obuf (place q + r) ≡ ibuf (4 * q + r)
    here q r same w =
        subst (λ n. r < width n → t.obuf (place n + r) ≡ ibuf (4 * n + r)) (sym same)
          (λ w. ap (λ k. t.obuf (k + r)) (sym v.at) ∙ in_place r w) w

keep3-IsPunctured :
    (ibuf : Buffer) (c : ℕ) (s : Punctured)
    → c < 774
    → width c ≡ 3
    → IsPunctured ibuf c s
    → IsPunctured ibuf (c + 1) (keep3 ibuf (4 * c) s)
unfolding keep3 three_stores
keep3-IsPunctured ibuf c s h w v =
    kept_next ibuf c s (keep3 ibuf (4 * c) s) h v (ap (λ n. s.k + n) (sym w))
      (three_before s.obuf (λ r. ibuf (4 * c + r)) s.k)
      (λ r p. three_in s.obuf (λ r. ibuf (4 * c + r)) s.k r (omega (arith, p, w)))

keep2-IsPunctured :
    (ibuf : Buffer) (c : ℕ) (s : Punctured)
    → c < 774
    → width c ≡ 2
    → IsPunctured ibuf c s
    → IsPunctured ibuf (c + 1) (keep2 ibuf (4 * c) s)
unfolding keep2 two_stores
keep2-IsPunctured ibuf c s h w v =
    kept_next ibuf c s (keep2 ibuf (4 * c) s) h v (ap (λ n. s.k + n) (sym w))
      (two_before s.obuf (λ r. ibuf (4 * c + r)) s.k)
      (λ r p. two_in s.obuf (λ r. ibuf (4 * c + r)) s.k r (omega (arith, p, w)))

record IsRestored (ibuf : Buffer) (c : ℕ) (s : Punctured) : Type 0 where
  at : s.k ≡ place c
  restored :
      (q r : ℕ)
      → q < c
      → r < 4
      → s.obuf (4 * q + r) ≡ (if ltb r (width q) then ibuf (place q + r) else 8)

restore_next :
    (ibuf v : Buffer) (c : ℕ) (s t : Punctured)
    → c < 774
    → IsRestored ibuf c s
    → t.k ≡ s.k + width c
    → t.obuf ≡ four_stores s.obuf v (4 * c)
    → ((r : ℕ) → r < 4 → v r ≡ (if ltb r (width c) then ibuf (s.k + r) else 8))
    → IsRestored ibuf (c + 1) t
restore_next ibuf v c s t h w e f values = record {
  at = e ∙ ap (λ k. k + width c) w.at ∙ sym (place_step c h);
  restored = λ q r p u. elim (dec_lt q c) [
    | yes old ↦
        ap (λ (b : Buffer). b (4 * q + r)) f
        ∙ four_before s.obuf v (4 * c) (4 * q + r) (omega (arith, old, u))
        ∙ w.restored q r old u
    | no new ↦
        let same : q ≡ c = omega (arith, new, p) in
        rw same (
          ap (λ (b : Buffer). b (4 * c + r)) f
          ∙ four_in s.obuf v (4 * c) r u
          ∙ values r u
          ∙ ap (λ (k : ℕ). if ltb r (width c) then ibuf (k + r) else 8) w.at)
  ];
}

restore3-IsRestored :
    (ibuf : Buffer) (c : ℕ) (s : Punctured)
    → c < 774
    → width c ≡ 3
    → IsRestored ibuf c s
    → IsRestored ibuf (c + 1) (restore3 ibuf (4 * c) s)
unfolding restore3 four_stores three_stores
restore3-IsRestored ibuf c s h w v =
    restore_next ibuf (λ r. if ltb r 3 then ibuf (s.k + r) else 8) c s (restore3 ibuf (4 * c) s) h v
      (ap (λ n. s.k + n) (sym w)) refl
      (λ r p. ap (λ n. if ltb r n then ibuf (s.k + r) else 8) (sym w))

restore2-IsRestored :
    (ibuf : Buffer) (c : ℕ) (s : Punctured)
    → c < 774
    → width c ≡ 2
    → IsRestored ibuf c s
    → IsRestored ibuf (c + 1) (restore2 ibuf (4 * c) s)
unfolding restore2 four_stores three_stores
restore2-IsRestored ibuf c s h w v =
    restore_next ibuf (λ r. if ltb r 2 then ibuf (s.k + r) else 8) c s (restore2 ibuf (4 * c) s) h v
      (ap (λ n. s.k + n) (sym w)) refl
      (λ r p. ap (λ n. if ltb r n then ibuf (s.k + r) else 8) (sym w))

-- The bits that puncturing keeps, one behind the other.
pub puncture_lem :
    (ibuf out : Buffer) (q r : ℕ)
    → q < 774
    → r < width q
    → puncture ibuf out (place q + r) ≡ ibuf (4 * q + r)
unfolding puncture
puncture_lem ibuf out q r h p = sent.kept q r h p
  where
    sent : IsPunctured ibuf 774 (rounds (keep3 ibuf) (keep2 ibuf) (record { k = 0; obuf = out }))
    sent =
        rounds_inv (IsPunctured ibuf) (keep3 ibuf) (keep2 ibuf) (keep3-IsPunctured ibuf)
          (keep2-IsPunctured ibuf) (record { k = 0; obuf = out })
          (record { at = unfold place in refl; kept = λ q r p w. absurd (omega (arith, p)) })

-- What depuncturing puts at each place.
pub depuncture_lem :
    (ibuf out : Buffer) (i : ℕ)
    → i < 3096
    → depuncture ibuf out i
      ≡ (if ltb (i % 4) (width (i / 4)) then ibuf (place (i / 4) + i % 4) else 8)
unfolding depuncture
depuncture_lem ibuf out i h =
    ap (depuncture ibuf out) (let e : i ≡ 4 * (i / 4) + i % 4 = omega arith in e)
    ∙ end.restored (i / 4) (i % 4) (omega (arith, h)) (omega arith)
  where
    end :
        IsRestored ibuf 774 (rounds (restore3 ibuf) (restore2 ibuf) (record { k = 0; obuf = out }))
    end =
        rounds_inv (IsRestored ibuf) (restore3 ibuf) (restore2 ibuf) (restore3-IsRestored ibuf)
          (restore2-IsRestored ibuf) (record { k = 0; obuf = out })
          (record { at = unfold place in refl; restored = λ q r p w. absurd (omega (arith, p)) })

-- Of the 3096 bits of a code word, depuncturing gives back those that puncturing kept, and the mark 8
-- in place of the others.
pub depuncture-puncture :
    (ibuf mid out : Buffer) (i : ℕ)
    → i < 3096
    → depuncture (puncture ibuf mid) out i ≡ (if ltb (i % 4) (width (i / 4)) then ibuf i else 8)
depuncture-puncture ibuf mid out i h =
    depuncture_lem (puncture ibuf mid) out i h ∙ elim (Bool-cases (ltb (i % 4) (width (i / 4)))) [
      | inl e ↦ rw e (
          puncture_lem ibuf mid (i / 4) (i % 4) (omega (arith, h)) (ltb→lt _ _ e)
          ∙ ap ibuf (let e : 4 * (i / 4) + i % 4 ≡ i = omega arith in e))
      | inr e ↦ rw e refl
    ]
