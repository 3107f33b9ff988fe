-- ===== src/Audio/Superframe/Columns.antt =====
-- The columns of a superframe: byte `j` of column `i` is at `s * j + i`.
use native.Mathlib.Decide.{ℕ_discrete}
use native.Mathlib.Nat.{mul-add-mod_self_left, mod-eq_of_lt, mul-le-mul_left, mul-add}
use opendab.Base.{
  ℕ, ◌+◌, ◌*◌, ◌%◌, ◌<◌, ◌≤◌, ◌≡◌, ◌≢◌, refl, sym, ap, ◌∙◌, arith, Buffer, store, store_self,
  store_ne, for_range, for_range_inv,
}
use opendab.Base.Fill.{filled_by}
use opendab.Audio.Superframe.{correct_column}

column_of : (s j i : ℕ) → i < s → (s * j + i) % s ≡ i
column_of s j i h = mul-add-mod_self_left s j i ∙ mod-eq_of_lt h

-- Two bytes have one place only if they are the same.
apart : (s j k i m : ℕ) → i < s → m < s → s * j + i ≡ s * k + m → (i ≡ m) × (s * j ≡ s * k)
apart s j k i m h q e =
    let same : i ≡ m = sym (column_of s j i h) ∙ ap (λ (t : ℕ). t % s) e ∙ column_of s k m q in
    (same, omega (arith, same, e))

-- Bytes of one column, an earlier and a later one.
earlier : (s j k : ℕ) → 0 < s → j < k → s * j ≢ s * k
earlier s j k h p e =
    omega (arith, h, e, mul-le-mul_left {m = j + 1} {n = k} s (omega (arith, p)), mul-add s j 1)

-- What writing a column leaves: its bytes, and the other columns as they were.
record IsColumn (s k m : ℕ) (c : Buffer) (b d : Buffer) : Type 0 where
  column : (j : ℕ) → j < m → d (s * j + k) ≡ c j
  rest : (i j : ℕ) → i < s → i ≢ k → d (s * j + i) ≡ b (s * j + i)

column_lem :
    (s k : ℕ) (c b : Buffer)
    → k < s
    → IsColumn s k 110 c b (for_range 110 0 (λ j b. store b (s * j + k) (c j)) b)
column_lem s k c b h =
    for_range_inv (λ m d. IsColumn s k m c b d) (λ j b. store b (s * j + k) (c j)) 110
      (λ m d q v. record {
        column = λ j r. elim (ℕ_discrete j m) [
          | yes e ↦ rw e (store_self d (s * m + k) (c m))
          | no ne ↦
              store_ne d (s * m + k) (c m) (s * j + k) (λ e.
                earlier s j m (omega (arith, h)) (omega (arith, r, ne)) (apart s j m k k h h e).1)
              ∙ v.column j (omega (arith, r, ne))
        ];
        rest = λ i j p ne.
            store_ne d (s * m + k) (c m) (s * j + i) (λ e. ne (apart s j m i k p h e).0)
            ∙ v.rest i j p ne;
      })
      110 0 b refl (record { column = λ j r. absurd (omega (arith, r)); rest = λ i j p ne. refl })

module _ (decode_rs : Buffer → Buffer) (stack : Buffer) (s : ℕ) (received sent : Buffer)
    (corrects : (i : ℕ) (cbuf : Buffer)
      → i < s
      → ((j : ℕ) → j < 120 → cbuf j ≡ received (s * j + i))
      → (j : ℕ) → j < 110
      → decode_rs cbuf j ≡ sent (s * j + i)) where
  -- The columns before `k` are as they were sent, and the others as they were received.
  record IsCorrected (k : ℕ) (b : Buffer) : Type 0 where
    ready : (i j : ℕ) → i < k → i < s → j < 110 → b (s * j + i) ≡ sent (s * j + i)
    other : (i j : ℕ) → k ≤ i → i < s → b (s * j + i) ≡ received (s * j + i)

  correct_column-IsCorrected :
      (k : ℕ) (b : Buffer)
      → k < s
      → IsCorrected k b
      → IsCorrected (k + 1) (correct_column decode_rs stack s k b)
  unfolding correct_column
  correct_column-IsCorrected k b h v = record {
    ready = λ i j p q r. elim (ℕ_discrete i k) [
      | yes e ↦ rw e (
          written.column j r
          ∙ corrects k cbuf h
              (λ j u. filled_by (λ j. b (s * j + k)) 120 j stack u ∙ v.other k j (omega arith) h) j
              r)
      | no ne ↦ written.rest i j q ne ∙ v.ready i j (omega (arith, p, ne)) q r
    ];
    other =
        λ i j p q. written.rest i j q (λ e. omega (arith, e, p)) ∙ v.other i j (omega (arith, p)) q;
  }
    where
      cbuf : Buffer
      cbuf = for_range 120 0 (λ j c. store c j (b (s * j + k))) stack

      written : IsColumn s k 110 (decode_rs cbuf) b (correct_column decode_rs stack s k b)
      written = column_lem s k (decode_rs cbuf) b h

  -- If the Reed-Solomon decoder gives back the first 110 bytes of each column that was sent, the loop over
  -- the columns leaves the bytes of the superframe that were sent.
  pub correct_columns_lem :
      (i j : ℕ)
      → i < s
      → j < 110
      → for_range s 0 (correct_column decode_rs stack s) received (s * j + i) ≡ sent (s * j + i)
  correct_columns_lem i j h p = end.ready i j h h p
    where
      end : IsCorrected s (for_range s 0 (correct_column decode_rs stack s) received)
      end =
          for_range_inv IsCorrected (correct_column decode_rs stack s) s correct_column-IsCorrected
            s 0 received (omega arith)
            (record { ready = λ i j p q r. absurd (omega (arith, p)); other = λ i j p q. refl })
