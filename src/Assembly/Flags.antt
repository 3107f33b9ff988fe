-- ===== src/Assembly/Flags.antt =====
-- The flags of `fic_assemble`: which symbols they tell of.
use native.Mathlib.Decide.{ℕ_discrete}
use mathlib.Core.Path.{subst}
use opendab.Base.{
  ℕ, ◌/◌, ◌%◌, ◌<◌, ◌≤◌, ◌≡◌, ◌≢◌, refl, arith, Bool, true, false, not, ◌&&◌, ◌==◌, ltb, ltb→lt,
  leb, if◌then◌else◌, bit_or, Bool-cases, inl, inr,
}
use opendab.Base.Check.{all_below, all_below_sound}

-- Whether the flags tell of symbol `s`: the bit 3 of symbol 2, the bit 0 of symbol 3, the bit 2 of 4.
abbrev pub seen : ℕ → ℕ → Bool
seen flags s = if s == 2 then leb 8 flags else if s == 3 then flags % 2 == 1 else flags / 4 % 2 == 1

agree : ℕ → ℕ → ℕ → Bool
agree k s f = ltb (bit_or f k) 16 && (if seen (bit_or f k) s then seen f s else not (seen f s))

agree_sound :
    (k s f : ℕ) → agree k s f ≡ true → (bit_or f k < 16) × (seen (bit_or f k) s ≡ seen f s)
unfolding agree
agree_sound k s f h = elim (Bool-cases (ltb (bit_or f k) 16)) [
  | inl e ↦
      (ltb→lt _ _ e, same (seen (bit_or f k) s) (seen f s) (subst (λ t. t && rest ≡ true) e h))
  | inr e ↦ absurd (lost (subst (λ t. t && rest ≡ true) e h))
]
  where
    rest : Bool
    rest = if seen (bit_or f k) s then seen f s else not (seen f s)

    lost : ¬ (false ≡ true)
    lost h = ground (arith, h)

    same : (x y : Bool) → (if x then y else not y) ≡ true → x ≡ y
    same true true h = refl
    same true false h = absurd (lost h)
    same false true h = absurd (lost h)
    same false false h = refl

-- A joining symbol's flag says nothing of the others.
pub flags_lem :
    (f k s : ℕ)
    → f < 16
    → 3 ≤ k
    → k ≤ 4
    → 2 ≤ s
    → s ≤ 4
    → s ≢ k
    → (bit_or f k < 16) × (seen (bit_or f k) s ≡ seen f s)
flags_lem f k s small lo hi lo' hi' ne = agree_sound k s f (elim (ℕ_discrete k 3) [
  | yes e ↦ elim (ℕ_discrete s 2) [
    | yes e' ↦ rw (e, e') (all_below_sound 16 (agree 3 2) f (unfold all_below agree in refl) small)
    | no n ↦
        let e' : s ≡ 4 = omega (arith, n, ne, e) in
        rw (e, e') (all_below_sound 16 (agree 3 4) f (unfold all_below agree in refl) small)
  ]
  | no m ↦
      let e : k ≡ 4 = omega (arith, m) in
      elim (ℕ_discrete s 2) [
        | yes e' ↦
            rw (e, e') (all_below_sound 16 (agree 4 2) f (unfold all_below agree in refl) small)
        | no n ↦
            let e' : s ≡ 3 = omega (arith, n, ne, e) in
            rw (e, e') (all_below_sound 16 (agree 4 3) f (unfold all_below agree in refl) small)
      ]
])
