-- ===== src/Msc/Receive/Step.antt =====
-- What `msc_assemble` does with a symbol, if the ranges of the four frames are apart.
use native.Mathlib.Decide.{ℕ_discrete}
use opendab.Base.{
  ℕ, ◌+◌, ◌*◌, ◌<◌, ◌≤◌, ◌≡◌, ◌≢◌, ◌⊎◌, refl, sym, ap, ◌∙◌, arith, Bool, true, false, ◌&&◌, ◌==◌,
  ltb, leb, Buffer, for_range,
}
use opendab.Figs.{Symrange}
use opendab.Msc.Receive.{Reception, take_symbol, first_of_range, rest_of_range}

-- The tests of the two loops' rounds.
abbrev pub begins_range : Buffer → Symrange → ℕ → Bool
begins_range symbuf sr j = symbuf 2 == sr.start j

abbrev pub within_range : Buffer → Symrange → ℕ → Bool
within_range symbuf sr j = ltb (sr.start j) (symbuf 2) && leb (symbuf 2) (sr.end j)

first_skipped :
    (junk symbuf : Buffer) (sr : Symrange) (j : ℕ) (s : Reception)
    → begins_range symbuf sr j ≡ false
    → first_of_range junk symbuf sr j s ≡ s
unfolding first_of_range
first_skipped junk symbuf sr j s e = rw e refl

pub rest_skipped :
    (junk symbuf : Buffer) (sr : Symrange) (j : ℕ) (s : Reception)
    → within_range symbuf sr j ≡ false
    → rest_of_range junk symbuf sr j s ≡ s
unfolding rest_of_range
rest_skipped junk symbuf sr j s e = rw e refl

pub first_loop :
    (junk symbuf : Buffer) (sr : Symrange) (s : Reception)
    → ((j : ℕ) → j < 4 → begins_range symbuf sr j ≡ false)
    → for_range 3 1 (first_of_range junk symbuf sr) s ≡ s
unfolding for_range
first_loop junk symbuf sr s none =
    rw
      (
        first_skipped junk symbuf sr 1 s (none 1 (omega arith)),
        first_skipped junk symbuf sr 2 s (none 2 (omega arith)),
        first_skipped junk symbuf sr 3 s (none 3 (omega arith)),
      )
      refl

pub rest_loop :
    (junk symbuf : Buffer) (sr : Symrange) (s : Reception)
    → ((j : ℕ) → j < 4 → within_range symbuf sr j ≡ false)
    → for_range 4 0 (rest_of_range junk symbuf sr) s ≡ s
unfolding for_range
rest_loop junk symbuf sr s none =
    rw
      (
        rest_skipped junk symbuf sr 0 s (none 0 (omega arith)),
        rest_skipped junk symbuf sr 1 s (none 1 (omega arith)),
        rest_skipped junk symbuf sr 2 s (none 2 (omega arith)),
        rest_skipped junk symbuf sr 3 s (none 3 (omega arith)),
      )
      refl

first_taken :
    (junk symbuf : Buffer) (sr : Symrange) (j : ℕ) (s : Reception)
    → begins_range symbuf sr j ≡ true
    → first_of_range junk symbuf sr j s ≡ take_symbol junk symbuf sr s
unfolding first_of_range
first_taken junk symbuf sr j s e = rw e refl

pub first_once :
    (junk symbuf : Buffer) (sr : Symrange) (i : ℕ) (s : Reception)
    → 1 ≤ i
    → i < 4
    → begins_range symbuf sr i ≡ true
    → ((j : ℕ) → j < 4 → j ≢ i → begins_range symbuf sr j ≡ false)
    → for_range 3 1 (first_of_range junk symbuf sr) s ≡ take_symbol junk symbuf sr s
unfolding for_range
first_once junk symbuf sr i s lo hi e none = elim (ℕ_discrete i 1) [
  | yes p ↦
      ap (λ t. f 3 (f 2 t)) (hit 1 p)
      ∙ ap (f 3) (skip 2 (omega arith) (λ q. omega (arith, p, q)) u)
      ∙ skip 3 (omega arith) (λ q. omega (arith, p, q)) u
  | no n ↦ elim (ℕ_discrete i 2) [
    | yes p ↦
        ap (λ t. f 3 (f 2 t)) (skip 1 (omega arith) (λ q. omega (arith, p, q)) s)
        ∙ ap (f 3) (hit 2 p)
        ∙ skip 3 (omega arith) (λ q. omega (arith, p, q)) u
    | no m ↦
        ap (λ t. f 3 (f 2 t)) (skip 1 (omega arith) (λ q. omega (arith, n, q)) s)
        ∙ ap (f 3) (skip 2 (omega arith) (λ q. omega (arith, m, q)) s)
        ∙ hit 3 (omega (arith, n, m))
  ]
]
  where
    f : ℕ → Reception → Reception
    f = first_of_range junk symbuf sr

    u : Reception
    u = take_symbol junk symbuf sr s

    skip : (j : ℕ) → j < 4 → j ≢ i → (t : Reception) → f j t ≡ t
    skip j p ne t = first_skipped junk symbuf sr j t (none j p ne)

    hit : (j : ℕ) → i ≡ j → f j s ≡ u
    hit j p = first_taken junk symbuf sr j s (ap (begins_range symbuf sr) (sym p) ∙ e)

-- The four ranges as `startsym` sets them: from `a` to `b`, 18 symbols apart, in less than 18 symbols.
pub record AreApart (sr : Symrange) (a b : ℕ) : Type 0 where
  pub starts : (j : ℕ) → j < 4 → sr.start j ≡ a + 18 * j
  pub ends : (j : ℕ) → j < 4 → sr.end j ≡ b + 18 * j
  pub ordered : a ≤ b
  pub short : b < a + 18

pub not_begun :
    (symbuf : Buffer) (sr : Symrange) (a b i d j : ℕ)
    → AreApart sr a b
    → symbuf 2 ≡ a + 18 * i + d
    → d < 18
    → j < 4
    → (j ≡ i → 0 < d)
    → begins_range symbuf sr j ≡ false
not_begun symbuf sr a b i d j v e h p ne = rw (v.starts j p, e) (apart a i d j h ne)
  where
    apart : (a i d j : ℕ) → d < 18 → (j ≡ i → 0 < d) → a + 18 * i + d == a + 18 * j ≡ false
    apart a i d j h ne = ground arith

pub not_within :
    (symbuf : Buffer) (sr : Symrange) (a b i d j : ℕ)
    → AreApart sr a b
    → symbuf 2 ≡ a + 18 * i + d
    → d < 18
    → j < 4
    → (j ≡ i → (d ≡ 0) ⊎ (b < a + d))
    → within_range symbuf sr j ≡ false
not_within symbuf sr a b i d j v e h p out =
    rw (v.starts j p, v.ends j p, e) (apart a b i d j v.ordered v.short h out)
  where
    apart :
        (a b i d j : ℕ)
        → a ≤ b
        → b < a + 18
        → d < 18
        → (j ≡ i → (d ≡ 0) ⊎ (b < a + d))
        → ltb (a + 18 * j) (a + 18 * i + d) && leb (a + 18 * i + d) (b + 18 * j) ≡ false
    apart a b i d j h k l out = ground arith
