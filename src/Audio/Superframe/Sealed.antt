-- ===== src/Audio/Superframe/Sealed.antt =====
-- Units that are sent with the right checks.
use opendab.Base.{
  ℕ, ◌+◌, ◌-◌, ◌*◌, ◌<◌, ◌≤◌, ◌≡◌, refl, sym, ap, ap₂, ◌∙◌, arith, Bool-cases, inl, inr, true, ◌==◌,
  List, [], ◌∷◌, ◌++◌, bit_xor, Buffer, store, shift, window,
}
use opendab.Base.Window.{window_ext}
use opendab.Base.Bits.{bit_xor-lt}
use opendab.Crc.{crccheck}
use opendab.Crc.Accept.{IsBytes, remainder}
use opendab.Crc.Checks.{crccheck_iff}
use opendab.Audio.Adts.{StreamParms, wfadts}
use opendab.Audio.Superframe.{end_of, invert}
use opendab.Audio.Superframe.Units.{IsCut, sealed, unit, units}

-- Each unit ends with the remainder of its bytes, high byte first and inverted.
abbrev pub IsSealed : List ℕ → ℕ → Buffer → Type 0
IsSealed [] last b = Unit
IsSealed (start ∷ starts) last b =
    (bit_xor (b (end_of starts last - 2)) 0xff * 256 + bit_xor (b (end_of starts last - 1)) 0xff
      ≡ remainder 0x1021 0xffff (window b start (end_of starts last - start - 2)))
    × IsSealed starts last b

-- Every unit without its check, behind its header.
unfoldable pub every : StreamParms → List ℕ → ℕ → Buffer → List ℕ
every sp [] last b = []
every sp (start ∷ starts) last b =
    let size = end_of starts last - start in
    (wfadts (size - 2) sp ++ window b start (size - 2)) ++ every sp starts last b

inverted-IsBytes : (b : Buffer) (k : ℕ) → IsBytes b → IsBytes (invert b k)
unfolding store
inverted-IsBytes b k bytes i = elim (Bool-cases (i == k)) [
  | inl e ↦ rw e (bit_xor-lt 8 (b k) 0xff (bytes k) (omega arith))
  | inr e ↦ rw e (bytes i)
]

module _ (c : Buffer) (n : ℕ) where
  sealed-IsBytes : IsBytes c → IsBytes (sealed c (n + 2))
  unfolding sealed
  sealed-IsBytes bytes =
      inverted-IsBytes (invert c (n + 2 - 2)) (n + 2 - 1) (inverted-IsBytes c (n + 2 - 2) bytes)

  high : sealed c (n + 2) n ≡ bit_xor (c n) 0xff
  unfolding sealed store
  high = ground arith

  low : sealed c (n + 2) (n + 1) ≡ bit_xor (c (n + 1)) 0xff
  unfolding sealed store
  low = ground arith

  before : (x : ℕ) → x < n → sealed c (n + 2) (0 + x) ≡ c (0 + x)
  unfolding sealed store
  before x h = ground (arith, h)

  sealed-good :
      IsBytes c
      → bit_xor (c n) 0xff * 256 + bit_xor (c (n + 1)) 0xff ≡ remainder 0x1021 0xffff (window c 0 n)
      → crccheck (sealed c (n + 2)) (n + 2) ≡ true
  sealed-good bytes e = (crccheck_iff (sealed c (n + 2)) n (sealed-IsBytes bytes)).0.1 (
      ap₂ (λ (a b : ℕ). a * 256 + b) high low
      ∙ e
      ∙ sym (ap (remainder 0x1021 0xffff) (window_ext (sealed c (n + 2)) c 0 0 n before)))

unit_lem :
    (sp : StreamParms) (b : Buffer) (start end : ℕ)
    → IsBytes b
    → start + 2 ≤ end
    → bit_xor (b (end - 2)) 0xff * 256 + bit_xor (b (end - 1)) 0xff
      ≡ remainder 0x1021 0xffff (window b start (end - start - 2))
    → unit sp (shift b start) (end - start)
      ≡ wfadts (end - start - 2) sp ++ window b start (end - start - 2)
unfolding unit
unit_lem sp b start end bytes h e =
    let n = end - start - 2 in
    let size : n + 2 ≡ end - start = omega (arith, h) in
    let text : window (shift b start) 0 n ≡ window b start n =
      window_ext (shift b start) b 0 start n
        (λ x p. ap b (let f : start + (0 + x) ≡ start + x = omega arith in f)) in
    let high : start + n ≡ end - 2 = omega (arith, h) in
    let low : start + (n + 1) ≡ end - 1 = omega (arith, h) in
    let good : crccheck (sealed (shift b start) (n + 2)) (n + 2) ≡ true =
      sealed-good (shift b start) n (λ i. bytes (start + i))
        (ap₂ (λ (k l : ℕ). bit_xor (b k) 0xff * 256 + bit_xor (b l) 0xff) high low
          ∙ e
          ∙ sym (ap (remainder 0x1021 0xffff) text)) in
    let good' : crccheck (sealed (shift b start) (end - start)) (end - start) ≡ true =
      rw size at good in
    rw good' (ap (λ l. wfadts n sp ++ l) text)

pub units-every :
    (sp : StreamParms) (starts : List ℕ) (last : ℕ) (b : Buffer)
    → IsBytes b
    → IsCut starts last
    → IsSealed starts last b
    → units sp starts last b ≡ every sp starts last b
unfolding units every
units-every sp [] last b bytes cut good = refl
units-every sp (start ∷ starts) last b bytes cut good =
    ap₂ ◌++◌ (unit_lem sp b start (end_of starts last) bytes cut.0 good.0)
      (units-every sp starts last b bytes cut.1 good.1)
