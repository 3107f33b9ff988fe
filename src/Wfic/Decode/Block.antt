-- ===== src/Wfic/Decode/Block.antt =====
-- The last loop of `fic_decode`, over the twelve blocks.
use native.Mathlib.Decide.{dec_lt}
use native.Mathlib.Numerals.{add-one}
use opendab.Base.{
  ℕ, zero, suc, ◌+◌, ◌*◌, ◌<◌, ◌≤◌, ◌≡◌, refl, sym, ap, ◌∙◌, arith, ◌==◌, true, false,
  if◌then◌else◌, Buffer, for_range, for_range_inv, memcpy, Bool-cases, inl, inr, List, [], ◌∷◌,
  ◌++◌, length, get_or, length-append, get_or-append, get_or-last,
}
use opendab.Base.Copy.{memcpy_in, memcpy_out}
use opendab.Base.Fill.{filled_by}
use opendab.Wfic.Order.{byte_at, bit_to_byte}
use opendab.Wfic.Decode.{crc16, Scan, set_block, scan_block}

-- The numbers of the blocks before `n` with a good CRC.
unfoldable pub good : (ℕ → Buffer) → ℕ → List ℕ
good blocks zero = []
good blocks (suc k) =
    let before = good blocks k in if crc16 (blocks k) 256 1 == 0 then before ++ (k ∷ []) else before

-- The bytes of a block.
unfoldable pub bytes_of : Buffer → Buffer
bytes_of bits r = byte_at 1 bits (8 * r)

-- What the output holds: the good blocks, 30 bytes of each, and nothing else is changed.
pub record IsScanned (blocks : ℕ → Buffer) (obuf : Buffer) (k : ℕ) (s : Scan) : Type 0 where
  pub counted : s.okfibs ≡ length (good blocks k)
  pub pointed : s.optr ≡ 30 * length (good blocks k)
  pub copied :
      (n r : ℕ)
      → n < length (good blocks k)
      → r < 30
      → s.obuf (30 * n + r) ≡ bytes_of (blocks (get_or (good blocks k) n 0)) r
  pub rest : (x : ℕ) → 30 * length (good blocks k) ≤ x → s.obuf x ≡ obuf x

bytes_lem : (bits out : Buffer) (r : ℕ) → r < 32 → bit_to_byte 1 bits 256 out r ≡ bytes_of bits r
unfolding bit_to_byte bytes_of
bytes_lem bits out r h = filled_by (λ j. byte_at 1 bits (8 * j)) 32 r out h

good_bad :
    (blocks : ℕ → Buffer) (k : ℕ)
    → (crc16 (blocks k) 256 1 == 0) ≡ false
    → good blocks (k + 1) ≡ good blocks k
unfolding good
good_bad blocks k e = ap (good blocks) (add-one k) ∙ rw e refl

good_next :
    (blocks : ℕ → Buffer) (k : ℕ)
    → (crc16 (blocks k) 256 1 == 0) ≡ true
    → good blocks (k + 1) ≡ good blocks k ++ (k ∷ [])
unfolding good
good_next blocks k e = ap (good blocks) (add-one k) ∙ rw e refl

abbrev kept : (ℕ → Buffer) → ℕ → Scan → Scan
kept blocks k s = record s {
  fib_b = set_block s.fib_b k (bit_to_byte 1 (blocks k) 256 (s.fib_b k));
  obuf = memcpy s.obuf s.optr (bit_to_byte 1 (blocks k) 256 (s.fib_b k)) 30;
  optr = s.optr + 30;
  okfibs = s.okfibs + 1;
}

-- A good block behind those before it.
kept-IsScanned :
    (blocks : ℕ → Buffer) (obuf : Buffer) (k : ℕ) (s : Scan)
    → good blocks (k + 1) ≡ good blocks k ++ (k ∷ [])
    → IsScanned blocks obuf k s
    → IsScanned blocks obuf (k + 1) (kept blocks k s)
kept-IsScanned blocks obuf k s e v = record {
  counted = rw e (omega (arith, v.counted, count));
  pointed = rw e (omega (arith, v.pointed, count));
  copied = λ n r p q. elim (dec_lt n (length (good blocks k))) [
    | yes old ↦
        memcpy_out s.obuf bytes s.optr 30 (30 * n + r)
          (λ h. absurd (omega (arith, h, v.pointed, old, q)))
        ∙ v.copied n r old q
        ∙ ap (λ m. bytes_of (blocks m) r)
            (sym (ap (λ l. get_or l n 0) e ∙ get_or-append (good blocks k) (k ∷ []) n 0 old))
    | no new ↦
        let last : n ≡ length (good blocks k) = omega (arith, new, p, ap length e, count) in
        ap (memcpy s.obuf s.optr bytes 30)
          (let m : 30 * n + r ≡ s.optr + r = omega (arith, v.pointed, last) in m)
        ∙ memcpy_in s.obuf bytes s.optr 30 r q
        ∙ bytes_lem (blocks k) (s.fib_b k) r (omega (arith, q))
        ∙ ap (λ m. bytes_of (blocks m) r)
            (sym (
              ap (λ l. get_or l n 0) e
              ∙ ap (λ n. get_or (good blocks k ++ (k ∷ [])) n 0) last
              ∙ get_or-last (good blocks k) k 0))
  ];
  rest = λ x h.
      let far : 30 * length (good blocks k) + 30 ≤ x = omega (arith, h, ap length e, count) in
      memcpy_out s.obuf bytes s.optr 30 x (λ _. omega (arith, far, v.pointed))
      ∙ v.rest x (omega (arith, far));
}
  where
    bytes : Buffer
    bytes = bit_to_byte 1 (blocks k) 256 (s.fib_b k)

    count : length (good blocks k ++ (k ∷ [])) ≡ length (good blocks k) + 1
    count = length-append (good blocks k) (k ∷ [])

skipped-IsScanned :
    (blocks : ℕ → Buffer) (obuf : Buffer) (k : ℕ) (s : Scan)
    → good blocks (k + 1) ≡ good blocks k
    → IsScanned blocks obuf k s
    → IsScanned blocks obuf
        (k + 1)
        (record s { fib_b = set_block s.fib_b k (bit_to_byte 1 (blocks k) 256 (s.fib_b k)) })
skipped-IsScanned blocks obuf k s e v = record {
  counted = rw e v.counted;
  pointed = rw e v.pointed;
  copied = rw e v.copied;
  rest = rw e v.rest;
}

scan_block-IsScanned :
    (blocks : ℕ → Buffer) (obuf : Buffer) (k : ℕ) (s : Scan)
    → IsScanned blocks obuf k s
    → IsScanned blocks obuf (k + 1) (scan_block blocks k s)
unfolding scan_block
scan_block-IsScanned blocks obuf k s v = elim (Bool-cases (crc16 (blocks k) 256 1 == 0)) [
  | inl e ↦ rw e (kept-IsScanned blocks obuf k s (good_next blocks k e) v)
  | inr e ↦ rw e (skipped-IsScanned blocks obuf k s (good_bad blocks k e) v)
]

pub scan_lem :
    (blocks fib_b : ℕ → Buffer) (obuf : Buffer)
    → IsScanned blocks obuf 12 (
        for_range 12 0
          (scan_block blocks)
          (record { fib_b = fib_b; optr = 0; obuf = obuf; okfibs = 0 }))
unfolding good
scan_lem blocks fib_b obuf =
    for_range_inv (IsScanned blocks obuf) (scan_block blocks) 12
      (λ k s p v. scan_block-IsScanned blocks obuf k s v) 12 0 _ (omega arith)
      (record {
        counted = refl;
        pointed = refl;
        copied = λ n r p q. absurd (omega (arith, p));
        rest = λ x p. refl;
      })
