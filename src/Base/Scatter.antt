-- ===== src/Base/Scatter.antt =====
-- Loops whose round `i` stores at two places that no other round stores at.
use native.Mathlib.Decide.{ℕ_discrete}
use opendab.Base.Memory.{Buffer, store, store_self, store_ne, for_range, for_range_inv}
use Prim.Native.Nat.{ℕ, ◌+◌, ◌<◌}
use mathlib.Core.Path.{◌≡◌, refl, sym, ◌∙◌}
use mathlib.Core.Logic.{◌≢◌}
use native.Mathlib.Omega.{arith}

-- Where round `i` stores, and that the places of different rounds differ.
pub record IsScatter (n : ℕ) (f g : ℕ → ℕ) : Type 0 where
  pub first : (i j : ℕ) → i < n → j < n → f i ≡ f j → i ≡ j
  pub second : (i j : ℕ) → i < n → j < n → g i ≡ g j → i ≡ j
  pub apart : (i j : ℕ) → i < n → j < n → f i ≢ g j

module _ (n : ℕ) (f g v w : ℕ → ℕ) (places : IsScatter n f g) (b : Buffer) where
  open places use {first, second, apart}

  abbrev pub two_stores : ℕ → Buffer → Buffer
  two_stores i s = store (store s (f i) (v i)) (g i) (w i)

  record Stored (i : ℕ) (s : Buffer) : Type 0 where
    at_first : (m : ℕ) → m < i → s (f m) ≡ v m
    at_second : (m : ℕ) → m < i → s (g m) ≡ w m
    elsewhere : (x : ℕ) → ((m : ℕ) → m < n → (x ≢ f m) × (x ≢ g m)) → s x ≡ b x

  two_stores-Stored : (i : ℕ) (s : Buffer) → i < n → Stored i s → Stored (i + 1) (two_stores i s)
  two_stores-Stored i s hi inv = record {
    at_first = λ m p.
        store_ne (store s (f i) (v i)) (g i) (w i) (f m) (apart m i (omega arith) hi)
        ∙ elim (ℕ_discrete m i) [
          | yes e ↦ rw e (store_self s (f i) (v i))
          | no ne ↦
              store_ne s (f i) (v i) (f m) (λ e. ne (first m i (omega arith) hi e))
              ∙ inv.at_first m (omega arith)
        ];
    at_second = λ m p. elim (ℕ_discrete m i) [
      | yes e ↦ rw e (store_self (store s (f i) (v i)) (g i) (w i))
      | no ne ↦
          store_ne (store s (f i) (v i)) (g i) (w i) (g m) (λ e. ne (second m i (omega arith) hi e))
          ∙ store_ne s (f i) (v i) (g m) (λ e. apart i m hi (omega arith) (sym e))
          ∙ inv.at_second m (omega arith)
    ];
    elsewhere = λ x away.
        store_ne (store s (f i) (v i)) (g i) (w i) x (away i hi).1
        ∙ store_ne s (f i) (v i) x (away i hi).0
        ∙ inv.elsewhere x away;
  }

  -- What the loop leaves at its places, and elsewhere.
  pub scatter_lem :
      ((m : ℕ) → m < n → for_range n 0 two_stores b (f m) ≡ v m)
      × ((m : ℕ) → m < n → for_range n 0 two_stores b (g m) ≡ w m)
      × ((x : ℕ) → ((m : ℕ) → m < n → (x ≢ f m) × (x ≢ g m)) → for_range n 0 two_stores b x ≡ b x)
  scatter_lem = (stored.at_first, stored.at_second, stored.elsewhere)
    where
      stored : Stored n (for_range n 0 two_stores b)
      stored = for_range_inv Stored two_stores n two_stores-Stored n 0 b (omega arith) (record {
        at_first = λ m p. absurd (omega arith);
        at_second = λ m p. absurd (omega arith);
        elsewhere = λ x away. refl;
      })
