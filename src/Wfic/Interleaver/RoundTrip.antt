-- ===== src/Wfic/Interleaver/RoundTrip.antt =====
-- Interleaving and mapping, each followed by its inverse.
use native.Mathlib.Decide.{ℕ_discrete, dec_lt}
use mathlib.Core.Path.{subst}
use opendab.Base.{
  ℕ, zero, suc, ◌+◌, ◌-◌, ◌*◌, ◌/◌, ◌%◌, ◌<◌, ◌≡◌, ◌↔◌, refl, sym, ap, ◌∙◌, arith, Bool, true, ◌&&◌,
  ◌==◌, ltb, List, [], ◌∷◌, Buffer, get_or, length,
}
use opendab.Base.Int.{ℤ, pos}
use opendab.Base.Scatter.{IsScatter, scatter_lem}
use opendab.Wfic.Interleaver.{
  inverse_rows, qpsk_symbol_mapper, qpsk_symbol_demapper, init_table49, carrier_number, carrier,
  frequency_interleaver, frequency_deinterleaver,
}

-- The symbol of a carrier, by the table of inverses.
unfoldable pub symbol_of : ℕ → ℕ
symbol_of k = get_or (get_or inverse_rows (k / 32) []) (k % 32) 0

in_order : ℕ → List ℤ → Bool
in_order n [] = true
in_order n (k ∷ ks) =
    (symbol_of (carrier_number k) == n) && ltb (carrier_number k) 1536 && in_order (n + 1) ks

in_order_table : in_order 0 init_table49 ≡ true
unfolding in_order symbol_of carrier_number init_table49
in_order_table = refl

length_table : length init_table49 ≡ 1536
unfolding init_table49
length_table = refl

in_order_sound :
    (n i : ℕ) (ks : List ℤ)
    → in_order n ks ≡ true
    → i < length ks
    → (symbol_of (carrier_number (get_or ks i (pos 0))) ≡ n + i)
      × (carrier_number (get_or ks i (pos 0)) < 1536)
unfolding in_order
in_order_sound n i [] h p = absurd (omega arith)
in_order_sound n zero (k ∷ ks) h p = ground arith
in_order_sound n (suc i) (k ∷ ks) h p = ground (arith, in_order_sound (n + 1) i ks)

pub carrier_lem : (n : ℕ) → n < 1536 → (symbol_of (carrier n) ≡ n) × (carrier n < 1536)
unfolding carrier
carrier_lem n h =
    let both = in_order_sound 0 n init_table49 in_order_table (rw length_table h) in
    (both.0 ∙ omega arith, both.1)

-- Table 49 gives each of the 1536 symbols a carrier below 1536, and two symbols have one carrier only
-- if they are the same.
pub carrier_injective :
    (m n : ℕ) → m < 1536 → n < 1536 → (carrier m < 1536) × ((carrier m ≡ carrier n) ↔ (m ≡ n))
carrier_injective m n hm hn = (
  (carrier_lem m hm).1,
  (λ e. sym (carrier_lem m hm).0 ∙ ap symbol_of e ∙ (carrier_lem n hn).0, ap carrier),
)

by_carrier : IsScatter 1536 (λ n. 2 * carrier n + 0) (λ n. 2 * carrier n + 1)
by_carrier = record {
  first = λ i j p q e. (carrier_injective i j p q).1.0 (omega (arith, e));
  second = λ i j p q e. (carrier_injective i j p q).1.0 (omega (arith, e));
  apart = λ i j p q e. omega (arith, e);
}

by_symbol : IsScatter 1536 (λ n. 2 * n + 0) (λ n. 2 * n + 1)
by_symbol = record {
  first = λ i j p q e. omega (arith, e);
  second = λ i j p q e. omega (arith, e);
  apart = λ i j p q e. omega (arith, e);
}

by_half : IsScatter 1536 (λ n. n) (λ n. n + 1536)
by_half = record {
  first = λ i j p q e. e;
  second = λ i j p q e. omega (arith, e);
  apart = λ i j p q e. omega (arith, e, p, q);
}

-- An index is the even or the odd one of its pair.
pairs : (P : ℕ → Type 0) (i : ℕ) → P (2 * (i / 2) + 0) → P (2 * (i / 2) + 1) → P i
pairs P i even odd = elim (ℕ_discrete (i % 2) 0) [
  | yes e ↦ subst P (omega (arith, e)) even
  | no ne ↦ subst P (omega (arith, ne)) odd
]

pub interleaved :
    (q y : Buffer) (n : ℕ)
    → n < 1536
    → (frequency_interleaver q y (2 * carrier n + 0) ≡ q (2 * n + 0))
      × (frequency_interleaver q y (2 * carrier n + 1) ≡ q (2 * n + 1))
unfolding frequency_interleaver
interleaved q y n h =
    let all =
      scatter_lem 1536 (λ n. 2 * carrier n + 0) (λ n. 2 * carrier n + 1) (λ n. q (2 * n + 0))
        (λ n. q (2 * n + 1)) by_carrier y in
    (all.0 n h, all.1 n h)

deinterleaved :
    (y q : Buffer) (n : ℕ)
    → n < 1536
    → (frequency_deinterleaver y q (2 * n + 0) ≡ y (2 * carrier n + 0))
      × (frequency_deinterleaver y q (2 * n + 1) ≡ y (2 * carrier n + 1))
unfolding frequency_deinterleaver
deinterleaved y q n h =
    let all =
      scatter_lem 1536 (λ n. 2 * n + 0) (λ n. 2 * n + 1) (λ n. y (2 * carrier n + 0))
        (λ n. y (2 * carrier n + 1)) by_symbol q in
    (all.0 n h, all.1 n h)

-- Frequency deinterleaving gives back every one of the 3072 values that were interleaved.
pub deinterleaver-interleaver :
    (q mid out : Buffer) (i : ℕ)
    → i < 3072
    → frequency_deinterleaver (frequency_interleaver q mid) out i ≡ q i
deinterleaver-interleaver q mid out i h =
    pairs (λ k. frequency_deinterleaver (frequency_interleaver q mid) out k ≡ q k) i
      ((deinterleaved (frequency_interleaver q mid) out (i / 2) (omega arith)).0
        ∙ (interleaved q mid (i / 2) (omega arith)).0)
      ((deinterleaved (frequency_interleaver q mid) out (i / 2) (omega arith)).1
        ∙ (interleaved q mid (i / 2) (omega arith)).1)

pub mapped :
    (p q : Buffer) (n : ℕ)
    → n < 1536
    → (qpsk_symbol_mapper p q (2 * n + 0) ≡ p n)
      × (qpsk_symbol_mapper p q (2 * n + 1) ≡ p (n + 1536))
unfolding qpsk_symbol_mapper
mapped p q n h =
    let all =
      scatter_lem 1536 (λ n. 2 * n + 0) (λ n. 2 * n + 1) p (λ n. p (n + 1536)) by_symbol q in
    (all.0 n h, all.1 n h)

pub demapped :
    (q p : Buffer) (n : ℕ)
    → n < 1536
    → (qpsk_symbol_demapper q p n ≡ q (2 * n + 0))
      × (qpsk_symbol_demapper q p (n + 1536) ≡ q (2 * n + 1))
unfolding qpsk_symbol_demapper
demapped q p n h =
    let all =
      scatter_lem 1536 (λ n. n) (λ n. n + 1536) (λ n. q (2 * n + 0)) (λ n. q (2 * n + 1)) by_half
        p in
    (all.0 n h, all.1 n h)

-- Demapping gives back every one of the 3072 bits that were mapped to QPSK symbols.
pub demapper-mapper :
    (p mid out : Buffer) (i : ℕ)
    → i < 3072
    → qpsk_symbol_demapper (qpsk_symbol_mapper p mid) out i ≡ p i
demapper-mapper p mid out i h = elim (dec_lt i 1536) [
  | yes low ↦ (demapped (qpsk_symbol_mapper p mid) out i low).0 ∙ (mapped p mid i low).0
  | no high ↦
      let e : i - 1536 + 1536 ≡ i = omega (arith, high) in
      let bound : i - 1536 < 1536 = omega (arith, high, h) in
      subst (λ k. qpsk_symbol_demapper (qpsk_symbol_mapper p mid) out k ≡ p k) e
        ((demapped (qpsk_symbol_mapper p mid) out (i - 1536) bound).1
          ∙ (mapped p mid (i - 1536) bound).1)
]

-- The received bits of a symbol, deinterleaved and demapped: bit `n` and bit `n + 1536` are those of
-- the carrier of `n`.
pub symbol_bits :
    (y mid out : Buffer) (n : ℕ)
    → n < 1536
    → let bits = qpsk_symbol_demapper (frequency_deinterleaver y mid) out in
      (bits n ≡ y (2 * carrier n + 0)) × (bits (n + 1536) ≡ y (2 * carrier n + 1))
symbol_bits y mid out n h = (
  (demapped (frequency_deinterleaver y mid) out n h).0 ∙ (deinterleaved y mid n h).0,
  (demapped (frequency_deinterleaver y mid) out n h).1 ∙ (deinterleaved y mid n h).1,
)
