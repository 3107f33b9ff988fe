-- ===== src/Crc/Accept.antt =====
-- What the checks accept, and which errors they detect.
use opendab.Base.{
  ℕ, zero, suc, ◌+◌, ◌-◌, ◌*◌, ◌/◌, ◌%◌, ◌^◌, ◌<◌, ◌≤◌, ◌≡◌, ◌≢◌, ◌↔◌, refl, sym, ap, ap₂, ◌∙◌,
  arith, bit_xor, List, [], ◌∷◌, Buffer, window,
}
use opendab.Base.Bits.{bit_xor_twice, bit_xor_comm}
use opendab.Crc.{crc_step, crc_loop}
use opendab.Crc.Serial.{feed_bits}
use opendab.Crc.Table.{
  IsTable, crc_step-lt, crc_step-eq-feed_bits, crc_step_injective, crc_step-low_injective,
  crc_step_self,
}

-- The remainder of a message by bit-serial division, bytes first to last, each from its top bit.
unfoldable pub remainder : ℕ → ℕ → List ℕ → ℕ
remainder g c [] = c
remainder g c (b ∷ bs) = remainder g (feed_bits g 8 c b) bs

abbrev pub IsBytes : Buffer → Type 0
IsBytes buf = (i : ℕ) → buf i < 256

bit_xor_cancel : (a b c : ℕ) → bit_xor a c ≡ bit_xor b c → a ≡ b
bit_xor_cancel a b c e = sym (bit_xor_twice a c) ∙ ap (λ t. bit_xor t c) e ∙ bit_xor_twice b c

module _ (g : ℕ) (tab : List ℕ) (is_table : IsTable g tab) where
  pub crc_loop-lt :
      (len : ℕ) (buf : Buffer) (i c : ℕ)
      → IsBytes buf
      → c < 2 ^ 16
      → crc_loop tab len buf i c < 2 ^ 16
  unfolding crc_loop
  crc_loop-lt zero buf i c bytes hc = hc
  crc_loop-lt (suc len) buf i c bytes hc =
      crc_loop-lt len buf (i + 1) (crc_step tab c (buf i)) bytes
        (crc_step-lt g tab is_table c (buf i) hc (bytes i))

  -- The loop over a table divides by its generator.
  pub crc_loop-eq-remainder :
      (len : ℕ) (buf : Buffer) (i c : ℕ)
      → IsBytes buf
      → c < 2 ^ 16
      → crc_loop tab len buf i c ≡ remainder g c (window buf i len)
  unfolding crc_loop remainder
  crc_loop-eq-remainder zero buf i c bytes hc = refl
  crc_loop-eq-remainder (suc len) buf i c bytes hc =
      crc_loop-eq-remainder len buf (i + 1) (crc_step tab c (buf i)) bytes
        (crc_step-lt g tab is_table c (buf i) hc (bytes i))
      ∙ ap (λ t. remainder g t (window buf (i + 1) len))
          (crc_step-eq-feed_bits g tab is_table c (buf i) hc (bytes i))

  step_back :
      (c d x y : ℕ)
      → c < 2 ^ 16
      → d < 2 ^ 16
      → x < 256
      → y < 256
      → x ≡ y
      → crc_step tab c x ≡ crc_step tab d y
      → c ≡ d
  step_back c d x y hc hd hx hy here e = omega (
    arith,
    step.0,
    bit_xor_cancel (c / 256) (d / 256) x (step.1 ∙ ap (bit_xor (d / 256)) (sym here)),
  )
    where
      step : (c % 256 ≡ d % 256) × (bit_xor (c / 256) x ≡ bit_xor (d / 256) y)
      step = crc_step_injective g tab is_table c d x y hc hd hx hy e

  -- The loop does not forget a difference in the remainder.
  pub crc_loop_injective :
      (len : ℕ) (a b : Buffer) (i c d : ℕ)
      → IsBytes a
      → IsBytes b
      → c < 2 ^ 16
      → d < 2 ^ 16
      → ((j : ℕ) → i ≤ j → j < i + len → a j ≡ b j)
      → crc_loop tab len a i c ≡ crc_loop tab len b i d
      → c ≡ d
  unfolding crc_loop
  crc_loop_injective zero a b i c d ha hb hc hd same e = e
  crc_loop_injective (suc len) a b i c d ha hb hc hd same e =
      step_back c d (a i) (b i) hc hd (ha i) (hb i) (same i (omega arith) (omega arith)) (
        crc_loop_injective len a b (i + 1) (crc_step tab c (a i)) (crc_step tab d (b i)) ha hb
          (crc_step-lt g tab is_table c (a i) hc (ha i))
          (crc_step-lt g tab is_table d (b i) hd (hb i))
          (λ j p q. same j (omega arith) (omega arith)) e)

  loop_from :
      (k k' i i' : ℕ) (buf : Buffer) (c : ℕ)
      → k ≡ k'
      → i ≡ i'
      → crc_loop tab k buf i c ≡ crc_loop tab k' buf i' c
  loop_from k k' i i' buf c p q = ap₂ (λ m j. crc_loop tab m buf j c) p q

  -- The loop split at any point.
  pub crc_loop_split :
      (m n : ℕ) (buf : Buffer) (i c : ℕ)
      → crc_loop tab (m + n) buf i c ≡ crc_loop tab n buf (i + m) (crc_loop tab m buf i c)
  unfolding crc_loop
  crc_loop_split zero n buf i c =
      loop_from (zero + n) n i (i + zero) buf c (omega arith) (omega arith)
  crc_loop_split (suc m) n buf i c =
      loop_from (suc m + n) (suc (m + n)) i i buf c (omega arith) refl
      ∙ crc_loop_split m n buf (i + 1) (crc_step tab c (buf i))
      ∙ loop_from n n (i + 1 + m) (i + suc m) buf
          (crc_loop tab m buf (i + 1) (crc_step tab c (buf i))) refl (omega arith)

  -- Where the bytes agree, so do the remainders.
  pub crc_loop_ext :
      (len : ℕ) (a b : Buffer) (i c : ℕ)
      → ((j : ℕ) → i ≤ j → j < i + len → a j ≡ b j)
      → crc_loop tab len a i c ≡ crc_loop tab len b i c
  unfolding crc_loop
  crc_loop_ext zero a b i c same = refl
  crc_loop_ext (suc len) a b i c same =
      crc_loop_ext len a b (i + 1) (crc_step tab c (a i))
        (λ j p q. same j (omega arith) (omega arith))
      ∙ ap (λ t. crc_loop tab len b (i + 1) (crc_step tab c t)) (same i (omega arith) (omega arith))

  -- Two bytes in a row are told apart.
  pub two_steps_injective :
      (c x y x' y' : ℕ)
      → c < 2 ^ 16
      → x < 256
      → y < 256
      → x' < 256
      → y' < 256
      → crc_step tab (crc_step tab c x) y ≡ crc_step tab (crc_step tab c x') y'
      → (x ≡ x') × (y ≡ y')
  two_steps_injective c x y x' y' hc hx hy hx' hy' e = (first, second)
    where
      both :
          (crc_step tab c x % 256 ≡ crc_step tab c x' % 256)
          × (bit_xor (crc_step tab c x / 256) y ≡ bit_xor (crc_step tab c x' / 256) y')
      both =
          crc_step_injective g tab is_table (crc_step tab c x) (crc_step tab c x') y y'
            (crc_step-lt g tab is_table c x hc hx) (crc_step-lt g tab is_table c x' hc hx') hy hy' e

      first : x ≡ x'
      first = crc_step-low_injective g tab is_table c x x' hc hx hx' both.0

      second : y ≡ y'
      second = bit_xor_cancel y y' (crc_step tab c x / 256) (
          bit_xor_comm y _
          ∙ both.1
          ∙ bit_xor_comm _ y'
          ∙ ap (λ t. bit_xor y' (crc_step tab c t / 256)) (sym first))

  last_two :
      (len : ℕ) (buf : Buffer) (c : ℕ)
      → crc_loop tab (len + 2) buf 0 c
        ≡ crc_step tab (crc_step tab (crc_loop tab len buf 0 c) (buf len)) (buf (len + 1))
  unfolding crc_loop
  last_two len buf c =
      crc_loop_split len 2 buf 0 c
      ∙ loop_from 2 2 (0 + len) len buf (crc_loop tab len buf 0 c) refl (omega arith)

  own_bytes : (c : ℕ) → c < 2 ^ 16 → crc_step tab (crc_step tab c (c / 256)) (c % 256) ≡ 0
  own_bytes c hc =
      ap₂ (crc_step tab) (crc_step_self g tab is_table c hc) (omega arith)
      ∙ crc_step_self g tab is_table (c % 256 * 256) (omega arith)
      ∙ omega arith

  -- The remainder comes to 0 exactly when the last two bytes are the remainder of the others.
  pub last_two_iff :
      (len : ℕ) (buf : Buffer) (c : ℕ)
      → IsBytes buf
      → c < 2 ^ 16
      → (crc_loop tab (len + 2) buf 0 c ≡ 0)
        ↔ (buf len * 256 + buf (len + 1) ≡ crc_loop tab len buf 0 c)
  last_two_iff len buf c bytes hc = (only_if, if_so)
    where
      p : ℕ
      p = crc_loop tab len buf 0 c

      hp : p < 2 ^ 16
      hp = crc_loop-lt len buf 0 c bytes hc

      only_if : crc_loop tab (len + 2) buf 0 c ≡ 0 → buf len * 256 + buf (len + 1) ≡ p
      only_if e =
          let same : (buf len ≡ p / 256) × (buf (len + 1) ≡ p % 256) =
            two_steps_injective p (buf len) (buf (len + 1)) (p / 256) (p % 256) hp (bytes len)
              (bytes (len + 1)) (omega (arith, hp)) (omega arith)
              (sym (last_two len buf c) ∙ e ∙ sym (own_bytes p hp)) in
          omega (arith, same.0, same.1)

      if_so : buf len * 256 + buf (len + 1) ≡ p → crc_loop tab (len + 2) buf 0 c ≡ 0
      if_so e =
          last_two len buf c
          ∙ ap₂ (λ x y. crc_step tab (crc_step tab p x) y) (omega (arith, e, bytes (len + 1)))
              (omega (arith, e, bytes (len + 1)))
          ∙ own_bytes p hp

  -- Two messages of one length that differ in two adjacent bytes at most leave different remainders.
  pub burst_detected :
      (len k c : ℕ) (a b : Buffer)
      → IsBytes a
      → IsBytes b
      → c < 2 ^ 16
      → k + 2 ≤ len
      → ((j : ℕ) → j ≢ k → j ≢ k + 1 → a j ≡ b j)
      → crc_loop tab len a 0 c ≡ crc_loop tab len b 0 c
      → (a k ≡ b k) × (a (k + 1) ≡ b (k + 1))
  burst_detected len k c a b ha hb hc fits same e =
      two_steps_injective (crc_loop tab k a 0 c) (a k) (a (k + 1)) (b k) (b (k + 1))
        (crc_loop-lt k a 0 c ha hc) (ha k) (ha (k + 1)) (hb k) (hb (k + 1))
        (sym (last_two k a c)
          ∙ after
          ∙ last_two k b c
          ∙ ap (λ t. crc_step tab (crc_step tab t (b k)) (b (k + 1))) (sym before))
    where
      before : crc_loop tab k a 0 c ≡ crc_loop tab k b 0 c
      before = crc_loop_ext k a b 0 c (λ j p q. same j (omega arith) (omega arith))

      split :
          (x : Buffer)
          → crc_loop tab len x 0 c
            ≡ crc_loop tab (len - (k + 2)) x (0 + (k + 2)) (crc_loop tab (k + 2) x 0 c)
      split x =
          loop_from len (k + 2 + (len - (k + 2))) 0 0 x c (omega arith) refl
          ∙ crc_loop_split (k + 2) (len - (k + 2)) x 0 c

      after : crc_loop tab (k + 2) a 0 c ≡ crc_loop tab (k + 2) b 0 c
      after =
          crc_loop_injective (len - (k + 2)) a b (0 + (k + 2)) (crc_loop tab (k + 2) a 0 c)
            (crc_loop tab (k + 2) b 0 c) ha hb (crc_loop-lt (k + 2) a 0 c ha hc)
            (crc_loop-lt (k + 2) b 0 c hb hc) (λ j p q. same j (omega arith) (omega arith))
            (sym (split a) ∙ e ∙ split b)
