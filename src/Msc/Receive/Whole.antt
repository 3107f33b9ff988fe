-- ===== src/Msc/Receive/Whole.antt =====
-- The symbols of a sub-channel one after the other, as `msc_assemble` takes them.
use native.Mathlib.Decide.{ℕ_discrete}
use opendab.Base.{
  ℕ, ◌+◌, ◌*◌, ◌/◌, ◌%◌, ◌^◌, ◌<◌, ◌≤◌, ◌≡◌, ◌≢◌, refl, sym, ap, ◌∙◌, arith, true, false, ◌&&◌,
  ◌==◌, ltb, leb, if◌then◌else◌, Buffer, for_range, inl, inr,
}
use opendab.Figs.{Subch, Symrange}
use opendab.Symsel.{startsym}
use opendab.Symsel.Cover.{startsym_ranges}
use opendab.Msc.Receive.{Reception, take_symbol, first_of_range, rest_of_range, msc_assemble}
use opendab.Msc.Receive.Step.{
  begins_range, within_range, first_loop, first_once, rest_skipped, rest_loop, AreApart, not_begun,
  not_within,
}

-- A further symbol of a range: `cifcnt` counts the last one if it is of the current frame.
abbrev pub take_further : Buffer → Buffer → Symrange → ℕ → Reception → Reception
take_further junk symbuf sr j s =
    let taken = take_symbol junk symbuf sr s in
    record taken {
      cifcnt =
          (taken.cifcnt + (if (symbuf 3 == s.cur_frame) && (symbuf 2 == sr.end j) then 1 else 0))
          % 2 ^ 32;
    }

rest_taken :
    (junk symbuf : Buffer) (sr : Symrange) (j : ℕ) (s : Reception)
    → within_range symbuf sr j ≡ true
    → rest_of_range junk symbuf sr j s ≡ take_further junk symbuf sr j s
unfolding rest_of_range
rest_taken junk symbuf sr j s e = rw e refl

rest_once :
    (junk symbuf : Buffer) (sr : Symrange) (i : ℕ) (s : Reception)
    → i < 4
    → within_range symbuf sr i ≡ true
    → ((j : ℕ) → j < 4 → j ≢ i → within_range symbuf sr j ≡ false)
    → for_range 4 0 (rest_of_range junk symbuf sr) s ≡ take_further junk symbuf sr i s
unfolding for_range
rest_once junk symbuf sr i s hi e none = elim (ℕ_discrete i 0) [
  | yes p ↦
      ap (λ t. f 3 (f 2 (f 1 t))) (hit 0 p)
      ∙ ap (λ t. f 3 (f 2 t)) (skip 1 (omega arith) (λ q. omega (arith, p, q)) u)
      ∙ ap (f 3) (skip 2 (omega arith) (λ q. omega (arith, p, q)) u)
      ∙ skip 3 (omega arith) (λ q. omega (arith, p, q)) u
  | no l ↦
      ap (λ t. f 3 (f 2 (f 1 t))) (skip 0 (omega arith) (λ q. omega (arith, l, q)) s)
      ∙ elim (ℕ_discrete i 1) [
        | yes p ↦
            ap (λ t. f 3 (f 2 t)) (hit 1 p)
            ∙ ap (f 3) (skip 2 (omega arith) (λ q. omega (arith, p, q)) u)
            ∙ skip 3 (omega arith) (λ q. omega (arith, p, q)) u
        | no n ↦
            ap (λ t. f 3 (f 2 t)) (skip 1 (omega arith) (λ q. omega (arith, n, q)) s)
            ∙ elim (ℕ_discrete i 2) [
              | yes p ↦ ap (f 3) (hit 2 p) ∙ skip 3 (omega arith) (λ q. omega (arith, p, q)) u
              | no m ↦
                  ap (f 3) (skip 2 (omega arith) (λ q. omega (arith, m, q)) s)
                  ∙ hit 3 (omega (arith, l, n, m))
            ]
      ]
]
  where
    f : ℕ → Reception → Reception
    f = rest_of_range junk symbuf sr

    u : Reception
    u = take_further junk symbuf sr i s

    skip : (j : ℕ) → j < 4 → j ≢ i → (t : Reception) → f j t ≡ t
    skip j p ne t = rest_skipped junk symbuf sr j t (none j p ne)

    hit : (j : ℕ) → i ≡ j → f j s ≡ u
    hit j p =
        rest_taken junk symbuf sr j s (ap (within_range symbuf sr) (sym p) ∙ e)
        ∙ ap (λ k. take_further junk symbuf sr k s) (sym p)

abbrev emptied : Reception → Reception
emptied s = record s { buffer_full = false }

-- A symbol that does not start the first range goes through both loops.
looped :
    (junk symbuf : Buffer) (sr : Symrange) (s : Reception)
    → begins_range symbuf sr 0 ≡ false
    → msc_assemble junk symbuf sr s
      ≡ for_range 4 0
          (rest_of_range junk symbuf sr)
          (for_range 3 1 (first_of_range junk symbuf sr) (emptied s))
unfolding msc_assemble
looped junk symbuf sr s e = rw e refl

-- `startsym` sets the ranges apart, unless the sub-channel takes up a whole frame.
pub startsym-AreApart :
    (r : Symrange) (s : Subch)
    → (s.startaddr + s.subchsz) / 48 < s.startaddr / 48 + 18
    → AreApart (startsym r s) (s.startaddr / 48 + 5) ((s.startaddr + s.subchsz) / 48 + 5)
startsym-AreApart r s h = record {
  starts = λ j p. (startsym_ranges r s j p).0;
  ends = λ j p. (startsym_ranges r s j p).1;
  ordered = omega arith;
  short = omega (arith, h);
}

-- With the four ranges apart, the first symbol of a later range is taken exactly once.
pub msc_assemble-next :
    (junk symbuf : Buffer) (sr : Symrange) (s : Reception) (a b i : ℕ)
    → AreApart sr a b
    → 1 ≤ i
    → i < 4
    → symbuf 2 ≡ a + 18 * i
    → msc_assemble junk symbuf sr s ≡ take_symbol junk symbuf sr (record s { buffer_full = false })
msc_assemble-next junk symbuf sr s a b i v lo hi e =
    looped junk symbuf sr s (other 0 (omega arith) (λ p. omega (arith, p, lo)))
    ∙ ap (for_range 4 0 (rest_of_range junk symbuf sr))
        (first_once junk symbuf sr i (emptied s) lo hi here other)
    ∙ rest_loop junk symbuf sr (take_symbol junk symbuf sr (emptied s))
        (λ j p. not_within symbuf sr a b i 0 j v at (omega arith) p (λ q. inl refl))
  where
    at : symbuf 2 ≡ a + 18 * i + 0
    at = omega (arith, e)

    here : begins_range symbuf sr i ≡ true
    here = rw (v.starts i hi, e) (same (a + 18 * i))
      where
        same : (k : ℕ) → k == k ≡ true
        same k = ground arith

    other : (j : ℕ) → j < 4 → j ≢ i → begins_range symbuf sr j ≡ false
    other j p ne = not_begun symbuf sr a b i 0 j v at (omega arith) p (λ q. absurd (ne q))

-- With the four ranges apart, each further symbol of a range is taken exactly once, and the last one
-- is counted if it is of the current frame.
pub msc_assemble-within :
    (junk symbuf : Buffer) (sr : Symrange) (s : Reception) (a b i d : ℕ)
    → AreApart sr a b
    → i < 4
    → 0 < d
    → a + d ≤ b
    → symbuf 2 ≡ a + 18 * i + d
    → msc_assemble junk symbuf sr s
      ≡ take_further junk symbuf sr i (record s { buffer_full = false })
msc_assemble-within junk symbuf sr s a b i d v hi lo last e =
    looped junk symbuf sr s (started 0 (omega arith))
    ∙ ap (for_range 4 0 (rest_of_range junk symbuf sr))
        (first_loop junk symbuf sr (emptied s) started)
    ∙ rest_once junk symbuf sr i (emptied s) hi here
        (λ j p ne. not_within symbuf sr a b i d j v e small p (λ q. absurd (ne q)))
  where
    small : d < 18
    small = omega (arith, v.short, last)

    started : (j : ℕ) → j < 4 → begins_range symbuf sr j ≡ false
    started j p = not_begun symbuf sr a b i d j v e small p (λ q. lo)

    here : within_range symbuf sr i ≡ true
    here = rw (v.starts i hi, v.ends i hi, e) (inside a b i d lo last)
      where
        inside :
            (a b i d : ℕ)
            → 0 < d
            → a + d ≤ b
            → ltb (a + 18 * i) (a + 18 * i + d) && leb (a + 18 * i + d) (b + 18 * i) ≡ true
        inside a b i d lo last = ground arith

-- With the four ranges apart, a symbol between two of them changes nothing but the flag of a full
-- buffer.
pub msc_assemble-between :
    (junk symbuf : Buffer) (sr : Symrange) (s : Reception) (a b i d : ℕ)
    → AreApart sr a b
    → b < a + d
    → d < 18
    → symbuf 2 ≡ a + 18 * i + d
    → msc_assemble junk symbuf sr s ≡ record s { buffer_full = false }
msc_assemble-between junk symbuf sr s a b i d v out small e =
    looped junk symbuf sr s (started 0 (omega arith))
    ∙ ap (for_range 4 0 (rest_of_range junk symbuf sr))
        (first_loop junk symbuf sr (emptied s) started)
    ∙ rest_loop junk symbuf sr (emptied s)
        (λ j p. not_within symbuf sr a b i d j v e small p (λ q. inr out))
  where
    started : (j : ℕ) → j < 4 → begins_range symbuf sr j ≡ false
    started j p = not_begun symbuf sr a b i d j v e small p (λ q. omega (arith, v.ordered, out))
