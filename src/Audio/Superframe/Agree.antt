-- ===== src/Audio/Superframe/Agree.antt =====
-- What is written of superframes whose first bytes agree.
use opendab.Base.{
  ℕ, ◌+◌, ◌-◌, ◌<◌, ◌≤◌, ◌≡◌, refl, sym, ap, ap₂, ◌∙◌, arith, ◌&&◌, ◌==◌, ltb, if◌then◌else◌, List,
  [], ◌∷◌, ◌++◌, Bool-cases, inl, inr, ==_iff, bit_xor, Buffer, get_or, store, shift,
}
use opendab.Base.Window.{window_ext}
use opendab.Crc.{firecrccheck}
use opendab.Crc.Checks.{crccheck_ext}
use opendab.Audio.Adts.{StreamParms, rates, wfadts}
use opendab.Audio.Superframe.{Player, put_frame, stream_parms, austab, au_start, end_of, invert}
use opendab.Audio.Superframe.Units.{IsCut, sealed, unit, units}

-- Two buffers with the same first `n` bytes.
abbrev pub Agree : Buffer → Buffer → ℕ → Type 0
Agree a b n = (x : ℕ) → x < n → a x ≡ b x

seal-Agree : (a b : Buffer) (n k : ℕ) → Agree a b n → Agree (invert a k) (invert b k) n
unfolding store
seal-Agree a b n k h x p = elim (Bool-cases (x == k)) [
  | inl e ↦
      let at : x ≡ k = (==_iff x k).0 e in
      rw e (ap (λ t. bit_xor t 0xff) (ap a (sym at) ∙ h x p ∙ ap b at))
  | inr e ↦ rw e (h x p)
]

unit-Agree :
    (sp : StreamParms) (a b : Buffer) (size : ℕ) → Agree a b size → unit sp a size ≡ unit sp b size
unfolding unit sealed
unit-Agree sp a b size h =
    ap₂ (λ good bytes. if good then wfadts (size - 2) sp ++ bytes else [])
      (crccheck_ext size (sealed a size) (sealed b size) (
        seal-Agree (invert a (size - 2)) (invert b (size - 2)) size (size - 1)
          (seal-Agree a b size (size - 2) h)))
      (window_ext a b 0 0 (size - 2) (λ x p. h (0 + x) (omega (arith, p))))

end_within : (starts : List ℕ) (last : ℕ) → IsCut starts last → end_of starts last ≤ last
end_within [] last cut = omega arith
end_within (start ∷ starts) last cut = omega (arith, cut.0, end_within starts last cut.1)

pub units-Agree :
    (sp : StreamParms) (starts : List ℕ) (last : ℕ) (a b : Buffer)
    → IsCut starts last
    → Agree a b last
    → units sp starts last a ≡ units sp starts last b
unfolding units
units-Agree sp [] last a b cut h = refl
units-Agree sp (start ∷ starts) last a b cut h =
    ap₂ ◌++◌
      (unit-Agree sp (shift a start) (shift b start) (end_of starts last - start)
        (λ x p. h (start + x) (omega (arith, p, end_within starts last cut.1))))
      (units-Agree sp starts last a b cut.1 h)

pub stream_parms-Agree : (a b : Buffer) → Agree a b 11 → stream_parms a ≡ stream_parms b
unfolding stream_parms
stream_parms-Agree a b h = ap (λ (c : ℕ). stream_parms (λ i. c)) (h 2 (omega arith))

pub au_start-Agree : (n : ℕ) (a b : Buffer) → Agree a b 11 → au_start n a ≡ au_start n b
unfolding au_start
au_start-Agree n a b h =
    rw
      (
        h 3 (omega arith),
        h 4 (omega arith),
        h 5 (omega arith),
        h 6 (omega arith),
        h 7 (omega arith),
        h 8 (omega arith),
        h 9 (omega arith),
        h 10 (omega arith),
      )
      refl

pub put_frame-out :
    (ibuf : Buffer) (ibytes : ℕ) (p : Player) → (put_frame ibuf ibytes p).out ≡ p.out
unfolding put_frame
put_frame-out ibuf ibytes p = elim (Bool-cases ((p.frame == 0) && firecrccheck ibuf)) [
  | inl e ↦ rw e refl
  | inr e ↦ elim (Bool-cases (ltb 0 p.frame)) [
    | inl e' ↦ rw (e, e') refl
    | inr e' ↦ rw (e, e') refl
  ]
]

-- The starts of the units of a superframe, by its own header.
abbrev pub starts_of : Buffer → List ℕ
starts_of b = au_start (get_or austab (rates (stream_parms b)) 0) b

pub starts_of-Agree : (a b : Buffer) → Agree a b 11 → starts_of a ≡ starts_of b
starts_of-Agree a b h =
    ap (λ sp. au_start (get_or austab (rates sp) 0) a) (stream_parms-Agree a b h)
    ∙ au_start-Agree (get_or austab (rates (stream_parms b)) 0) a b h
