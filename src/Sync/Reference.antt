-- ===== src/Sync/Reference.antt =====
-- src/wfref.c, wfref: a rotated copy of the reference, and the windows of it that `wf_sync` of
-- src/wfsync.c multiplies with what was received. The values are complex numbers, of any type here.
use native.Mathlib.Nat.{mod-eq_of_lt, mod-eq-sub-mod}
use native.Mathlib.Decide.{dec_lt}
use opendab.Base.{
  ℕ, zero, suc, ◌+◌, ◌-◌, ◌%◌, ◌<◌, ◌≤◌, ◌≡◌, sym, ap, ◌∙◌, arith, Bool, false, ◌&&◌, ltb, leb,
  if◌then◌else◌, Bool-cases, inl, inr,
}
use opendab.Base.Int.{ℤ, pos, negsuc}

-- `memcpy` of `n` values.
pub copy {ℓ} : {A : Type ℓ} → (ℕ → A) → ℕ → (ℕ → A) → ℕ → ℕ → A
copy dst at src n j = if leb at j && ltb j (at + n) then src (j - at) else dst j

pub wfref {ℓ} : {A : Type ℓ} → ℤ → ℕ → (ℕ → A) → (ℕ → A) → ℕ → A
wfref (pos zero) pts outp inp = copy outp 0 inp pts
wfref (pos (suc n)) pts outp inp =
    let outp = copy outp 0 (λ j. inp (pts - suc n + j)) (suc n) in
    copy outp (suc n) inp (pts - suc n)
wfref (negsuc n) pts outp inp =
    let outp = copy outp (pts - suc n) inp (suc n) in
    copy outp 0 (λ j. inp (suc n + j)) (pts - suc n)

-- The reference to compare with: as it is, or turned by 12, and with its start again at its end.
pub local_reference {ℓ} : {A : Type ℓ} → Bool → (ℕ → A) → (ℕ → A) → ℕ → A
local_reference sync_locked prslocal prs1 =
    let prslocal = wfref (if sync_locked then pos 0 else pos 0x0c) 0x800 prslocal prs1 in
    copy prslocal 0x800 prslocal 0x18

-- Where the value at `k` of a turn comes from.
abbrev pub source_of : ℤ → ℕ → ℕ → ℕ
source_of (pos n) pts k = (k + pts - n) % pts
source_of (negsuc n) pts k = (k + suc n) % pts

abbrev pub IsTurn : ℤ → ℕ → Type 0
IsTurn (pos n) pts = n ≤ pts
IsTurn (negsuc n) pts = suc n ≤ pts

around : (pts a : ℕ) → pts ≤ a → a < pts + pts → a % pts ≡ a - pts
around pts a h k = mod-eq-sub-mod h ∙ mod-eq_of_lt (omega (arith, h, k))

module _ {ℓ} {A : Type ℓ} where
  copy_in :
      (dst : ℕ → A) (at : ℕ) (src : ℕ → A) (n j : ℕ)
      → at ≤ j
      → j < at + n
      → copy dst at src n j ≡ src (j - at)
  unfolding copy
  copy_in dst at src n j p q = ground arith

  copy_before :
      (dst : ℕ → A) (at : ℕ) (src : ℕ → A) (n j : ℕ) → j < at → copy dst at src n j ≡ dst j
  unfolding copy
  copy_before dst at src n j p = ground arith

  copy_behind :
      (dst : ℕ → A) (at : ℕ) (src : ℕ → A) (n j : ℕ) → at + n ≤ j → copy dst at src n j ≡ dst j
  unfolding copy
  copy_behind dst at src n j p = ground arith

  -- A turn by `i` moves the value at `k` to `k + i`, around the end.
  pub wfref_lem :
      (i : ℤ) (pts : ℕ) (outp inp : ℕ → A) (k : ℕ)
      → IsTurn i pts
      → k < pts
      → wfref i pts outp inp k ≡ inp (source_of i pts k)
  unfolding wfref
  wfref_lem (pos zero) pts outp inp k h p =
      copy_in outp 0 inp pts k (omega arith) (omega (arith, p))
      ∙ ap inp (sym (around pts (k + pts - 0) (omega arith) (omega (arith, p)) ∙ omega (arith, p)))
  wfref_lem (pos (suc n)) pts outp inp k h p =
      let first = copy outp 0 (λ j. inp (pts - suc n + j)) (suc n) in
      elim (dec_lt k (suc n)) [
        | yes low ↦
            copy_before first (suc n) inp (pts - suc n) k low
            ∙ copy_in outp 0 (λ j. inp (pts - suc n + j)) (suc n) k (omega arith)
                (omega (arith, low))
            ∙ ap inp (omega (arith, h, low) ∙ sym (mod-eq_of_lt (omega (arith, h, low))))
        | no high ↦
            copy_in first (suc n) inp (pts - suc n) k (omega (arith, high)) (omega (arith, h, p))
            ∙ ap inp (
                sym (
                  around pts (k + pts - suc n) (omega (arith, high)) (omega (arith, h, p))
                  ∙ omega (arith, high)))
      ]
  wfref_lem (negsuc n) pts outp inp k h p =
      let first = copy outp (pts - suc n) inp (suc n) in
      elim (dec_lt k (pts - suc n)) [
        | yes low ↦
            copy_in first 0 (λ j. inp (suc n + j)) (pts - suc n) k (omega arith)
              (omega (arith, low))
            ∙ ap inp (omega (arith, low) ∙ sym (mod-eq_of_lt (omega (arith, h, low))))
        | no high ↦
            copy_behind first 0 (λ j. inp (suc n + j)) (pts - suc n) k (omega (arith, high))
            ∙ copy_in outp (pts - suc n) inp (suc n) k (omega (arith, high)) (omega (arith, h, p))
            ∙ ap inp (
                sym (
                  around pts (k + suc n) (omega (arith, h, high)) (omega (arith, h, p))
                  ∙ omega (arith, h, high)))
      ]

  turned_back :
      (prs1 prslocal : ℕ → A) (x : ℕ)
      → x < 0x818
      → local_reference false prslocal prs1 x ≡ prs1 ((x + 0x800 - 0x0c) % 0x800)
  unfolding local_reference
  turned_back prs1 prslocal x h =
      let turned = wfref (pos 0x0c) 0x800 prslocal prs1 in
      elim (dec_lt x 0x800) [
        | yes low ↦
            copy_before turned 0x800 turned 0x18 x low
            ∙ wfref_lem (pos 0x0c) 0x800 prslocal prs1 x (omega arith) low
        | no high ↦
            copy_in turned 0x800 turned 0x18 x (omega (arith, high)) (omega (arith, h))
            ∙ wfref_lem (pos 0x0c) 0x800 prslocal prs1 (x - 0x800) (omega arith) (omega (arith, h))
            ∙ ap prs1 (omega (arith, high, h))
      ]

  -- Before `wf_sync` is locked, the 25 windows that it compares with are the turns of the reference by
  -- 12 to the right (`j` is 0) up to 12 to the left (`j` is 24).
  pub local_reference_turns :
      (prs1 prslocal : ℕ → A) (j k : ℕ)
      → j < 25
      → k < 0x800
      → local_reference false prslocal prs1 (j + k)
        ≡ wfref (if leb j 12 then pos (12 - j) else negsuc (j - 13)) 0x800 prslocal prs1 k
  local_reference_turns prs1 prslocal j k h p =
      turned_back prs1 prslocal (j + k) (omega (arith, h, p)) ∙ elim (Bool-cases (leb j 12)) [
        | inl low ↦ rw low (
            ap prs1 (ground (arith, low, p))
            ∙ sym (wfref_lem (pos (12 - j)) 0x800 prslocal prs1 k (ground arith) p))
        | inr high ↦ rw high (
            ap prs1 (ground (arith, high, p, h))
            ∙ sym (wfref_lem (negsuc (j - 13)) 0x800 prslocal prs1 k (ground (arith, h)) p))
      ]
