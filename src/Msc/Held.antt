-- ===== src/Msc/Held.antt =====
-- What the circular buffer holds in the middle of a frame.
use native.Mathlib.Decide.{dec_lt}
use opendab.Base.{
  ℕ, ◌+◌, ◌-◌, ◌*◌, ◌%◌, ◌<◌, ◌≡◌, ◌≢◌, refl, ap, ◌∙◌, arith, true, false, ◌==◌, ltb, leb, Buffer,
  lt→ltb, Bool-cases, inl, inr, store, store_self, memcpy,
}
use opendab.Figs.{bits_per_sym}
use opendab.Msc.{Ring, set_frame, advanced, inserted}

-- Symbol `k` of a frame.
abbrev pub symbol : Buffer → ℕ → Buffer
symbol frame k x = frame (k * bits_per_sym + x)

-- With `r` symbols of frame `q` written, in frames of `n` symbols: both indices are those of frame
-- `q`, each of the fifteen frames before it is in the buffer, and the symbols of frame `q`.
pub record IsHeld (n : ℕ) (f : ℕ → Buffer) (q r : ℕ) (c : Ring) : Type 0 where
  pub current : c.lframe ≡ q % 16
  pub led : c.head ≡ q % 16
  pub started : c.first ≡ false
  pub counted : c.syms (q % 16) ≡ r
  pub earlier : (p x : ℕ) → p < q → q < p + 16 → x < n * bits_per_sym → c.frames (p % 16) x ≡ f p x
  pub newest : (x : ℕ) → x < r * bits_per_sym → c.frames (q % 16) x ≡ f q x

memcpy-symbol :
    (b frame : Buffer) (r x : ℕ)
    → (x < r * bits_per_sym → b x ≡ frame x)
    → x < (r + 1) * bits_per_sym
    → memcpy b (r * bits_per_sym) (symbol frame r) bits_per_sym x ≡ frame x
unfolding memcpy
memcpy-symbol b frame r x h p = elim (Bool-cases (leb (r * bits_per_sym) x)) [
  | inl e ↦
      rw (e, within)
        (ap frame (let s : r * bits_per_sym + (x - r * bits_per_sym) ≡ x = ground (arith, e) in s))
  | inr e ↦ rw e (h (ground (arith, e)))
]
  where
    within : ltb x (r * bits_per_sym + bits_per_sym) ≡ true
    within = lt→ltb _ _ (omega (arith, p))

set_frame_self : (frames : ℕ → Buffer) (k : ℕ) (b : Buffer) → set_frame frames k b k ≡ b
unfolding set_frame
set_frame_self frames k b = rw (same k) refl
  where
    same : (k : ℕ) → k == k ≡ true
    same k = ground arith

set_frame_ne :
    (frames : ℕ → Buffer) (k : ℕ) (b : Buffer) (i : ℕ) → i ≢ k → set_frame frames k b i ≡ frames i
unfolding set_frame
set_frame_ne frames k b i h = rw (apart i k h) refl
  where
    apart : (i k : ℕ) → i ≢ k → i == k ≡ false
    apart i k h = ground arith

pub inserted-IsHeld :
    (n : ℕ) (f : ℕ → Buffer) (q r : ℕ) (c : Ring)
    → r < n
    → IsHeld n f q r c
    → IsHeld n f q (r + 1) (inserted (symbol (f q) r) bits_per_sym n c)
inserted-IsHeld n f q r c small v = rw written record {
  current = v.current;
  led = v.led;
  started = v.started;
  counted = store_self c.syms (q % 16) (r + 1);
  earlier = λ p x a b d.
      ap (λ (t : Buffer). t x) (set_frame_ne c.frames (q % 16) _ (p % 16) (omega (arith, a, b)))
      ∙ v.earlier p x a b d;
  newest = λ x d.
      ap (λ (t : Buffer). t x) (set_frame_self c.frames (q % 16) _)
      ∙ memcpy-symbol (c.frames (q % 16)) (f q) r x (v.newest x) d;
}
  where
    written : inserted (symbol (f q) r) bits_per_sym n c ≡ record c {
      frames =
          set_frame c.frames
            (q % 16)
            (memcpy (c.frames (q % 16)) (r * bits_per_sym) (symbol (f q) r) bits_per_sym);
      syms = store c.syms (q % 16) (r + 1);
    }
    written = unfold inserted in rw (v.current, v.counted, lt→ltb r n small) refl

pub advanced-IsHeld :
    (n : ℕ) (f : ℕ → Buffer) (q : ℕ) (c : Ring)
    → IsHeld n f q n c
    → IsHeld n f (q + 1) 0 (advanced n c)
advanced-IsHeld n f q c v = rw stepped record {
  current = refl;
  led = refl;
  started = v.started;
  counted = store_self c.syms ((q + 1) % 16) 0;
  earlier = λ p x a b d. before p x d a b (dec_lt p q);
  newest = λ x d. absurd (omega (arith, d));
}
  where
    before :
        (p x : ℕ)
        → x < n * bits_per_sym
        → p < q + 1
        → q + 1 < p + 16
        → Dec (p < q)
        → c.frames (p % 16) x ≡ f p x
    before p x d a b (yes lt) = v.earlier p x lt (omega (arith, b)) d
    before p x d a b (no ge) = let e : p ≡ q = omega (arith, ge, a) in rw e (v.newest x d)

    same : (k : ℕ) → k == k ≡ true
    same k = ground arith

    next : (q % 16 + 1) % 16 ≡ (q + 1) % 16
    next = omega arith

    stepped : advanced n c ≡ record c {
      head = (q + 1) % 16;
      lframe = (q + 1) % 16;
      syms = store c.syms ((q + 1) % 16) 0;
    }
    stepped = unfold advanced in rw (v.current, v.counted, same n, v.led, next) refl
