-- ===== src/Msc/Written.antt =====
-- The frames that the circular buffer holds after any number of symbols has been written to it.
use opendab.Base.{
  ℕ, ◌+◌, ◌%◌, ◌<◌, ◌≡◌, refl, ap, ◌∙◌, arith, Bool, true, false, ◌&&◌, ◌==◌, ltb, leb,
  if◌then◌else◌, Buffer, lt→ltb, store, for_range,
}
use opendab.Figs.{Symrange, bits_per_sym}
use opendab.Msc.{Ring, begun, advanced, inserted, wcbuf, reset_cbuf}
use opendab.Msc.Held.{symbol, IsHeld, inserted-IsHeld, advanced-IsHeld}

-- What a write leaves, and the flag it returns.
pub record IsWritten (n : ℕ) (f : ℕ → Buffer) (q r : ℕ) (t : Ring × Bool) : Type 0 where
  pub held : IsHeld n f q r t.0
  pub filled : t.0.full ≡ leb 15 q
  pub flagged : t.1 ≡ leb 15 q && (r == n)

wcbuf-IsWritten :
    (sr : Symrange) (f : ℕ → Buffer) (q r : ℕ) (c d : Ring)
    → r < sr.numsyms
    → advanced sr.numsyms (begun c) ≡ d
    → IsHeld sr.numsyms f q r d
    → (if q % 16 == 15 then true else d.full) ≡ leb 15 q
    → IsWritten sr.numsyms f q (r + 1) (wcbuf (symbol (f q) r) bits_per_sym sr c)
wcbuf-IsWritten sr f q r c d small e v last = rw written record {
  held = whole (inserted-IsHeld sr.numsyms f q r d small v);
  filled = full;
  flagged = rw (full, v.current, v.counted, lt→ltb r sr.numsyms small) refl;
}
  where
    n : ℕ
    n = sr.numsyms

    g : Ring
    g = inserted (symbol (f q) r) bits_per_sym n d

    full : (if g.lframe == 15 then true else g.full) ≡ leb 15 q
    full = rw (inserted-lframe, inserted-full, v.current) last
      where
        inserted-lframe : g.lframe ≡ d.lframe
        inserted-lframe = unfold inserted in ground arith

        inserted-full : g.full ≡ d.full
        inserted-full = unfold inserted in ground arith

    whole :
        IsHeld n f q (r + 1) g
        → IsHeld n f q (r + 1) (record g { full = if g.lframe == 15 then true else g.full })
    whole h = record {
      current = h.current;
      led = h.led;
      started = h.started;
      counted = h.counted;
      earlier = h.earlier;
      newest = h.newest;
    }

    written : wcbuf (symbol (f q) r) bits_per_sym sr c ≡ (
      record g { full = if g.lframe == 15 then true else g.full },
      (if g.lframe == 15 then true else g.full)
          && (ltb (d.syms d.lframe) n && (d.syms d.lframe + 1 == n)),
    )
    written = unfold wcbuf in rw e refl

-- The writes since the buffer was empty: of symbol `k` of each frame in turn.
pub data Recorded (sr : Symrange) (f : ℕ → Buffer) : ℕ → ℕ → Ring × Bool → Type 0 where
  at_first :
      (c : Ring)
      → c.first ≡ true
      → c.full ≡ false
      → Recorded sr f 0 1 (wcbuf (symbol (f 0) 0) bits_per_sym sr c)
  after_reset :
      (c : Ring)
      → c.first ≡ false
      → Recorded sr f 0 1 (wcbuf (symbol (f 0) 0) bits_per_sym sr (reset_cbuf c))
  next_symbol :
      (q r : ℕ) (t : Ring × Bool)
      → r < sr.numsyms
      → Recorded sr f q r t
      → Recorded sr f q (r + 1) (wcbuf (symbol (f q) r) bits_per_sym sr t.0)
  next_frame :
      (q : ℕ) (t : Ring × Bool)
      → Recorded sr f q sr.numsyms t
      → Recorded sr f (q + 1) 1 (wcbuf (symbol (f (q + 1)) 0) bits_per_sym sr t.0)

cleared : (b : Buffer) → for_range 16 0 (λ i b. store b i 0) b 0 ≡ 0
unfolding for_range store
cleared b = refl

empty-IsHeld :
    (n : ℕ) (f : ℕ → Buffer) (c : Ring)
    → c.lframe ≡ 0
    → c.head ≡ 0
    → c.first ≡ false
    → c.syms 0 ≡ 0
    → IsHeld n f 0 0 c
empty-IsHeld n f c e1 e2 e3 e4 = record {
  current = e1;
  led = e2;
  started = e3;
  counted = e4;
  earlier = λ p x a b d. absurd (omega (arith, a));
  newest = λ x d. absurd (omega (arith, d));
}

-- A frame that is not complete stays the current one.
not_advanced : (n : ℕ) (c : Ring) → c.syms c.lframe < n → advanced n c ≡ c
unfolding advanced
not_advanced n c h = rw (less (c.syms c.lframe) n h) refl
  where
    less : (a b : ℕ) → a < b → a == b ≡ false
    less a b h = ground arith

already_begun : (c : Ring) → c.first ≡ false → begun c ≡ c
unfolding begun
already_begun c e = rw e refl

first-IsWritten :
    (sr : Symrange) (f : ℕ → Buffer) (c : Ring)
    → 0 < sr.numsyms
    → c.first ≡ true
    → c.full ≡ false
    → IsWritten sr.numsyms f 0 1 (wcbuf (symbol (f 0) 0) bits_per_sym sr c)
unfolding begun
first-IsWritten sr f c pos e g =
    wcbuf-IsWritten sr f 0 0 c d pos
      (ap (advanced sr.numsyms) starts ∙ not_advanced sr.numsyms d (rw (cleared c.syms) pos))
      (empty-IsHeld sr.numsyms f d refl refl refl (cleared c.syms)) (rw g refl)
  where
    d : Ring
    d = record c {
      syms = for_range 16 0 (λ i b. store b i 0) c.syms;
      lframe = 0;
      first = false;
      head = 0;
    }

    starts : begun c ≡ d
    starts = rw e refl

reset-IsWritten :
    (sr : Symrange) (f : ℕ → Buffer) (c : Ring)
    → 0 < sr.numsyms
    → c.first ≡ false
    → IsWritten sr.numsyms f 0 1 (wcbuf (symbol (f 0) 0) bits_per_sym sr (reset_cbuf c))
unfolding reset_cbuf
reset-IsWritten sr f c pos e =
    wcbuf-IsWritten sr f 0 0 (reset_cbuf c) (reset_cbuf c) pos
      (ap (advanced sr.numsyms) (already_begun (reset_cbuf c) e)
        ∙ not_advanced sr.numsyms (reset_cbuf c) (rw (cleared c.syms) pos))
      (empty-IsHeld sr.numsyms f (reset_cbuf c) refl refl e (cleared c.syms)) refl

pub symbol-IsWritten :
    (sr : Symrange) (f : ℕ → Buffer) (q r : ℕ) (t : Ring × Bool)
    → r < sr.numsyms
    → IsWritten sr.numsyms f q r t
    → IsWritten sr.numsyms f q (r + 1) (wcbuf (symbol (f q) r) bits_per_sym sr t.0)
symbol-IsWritten sr f q r t h v =
    wcbuf-IsWritten sr f q r t.0 t.0 h
      (ap (advanced sr.numsyms) (already_begun t.0 v.held.started)
        ∙ not_advanced sr.numsyms t.0 (rw (v.held.current, v.held.counted) h))
      v.held (rw v.filled (same q))
  where
    same : (q : ℕ) → (if q % 16 == 15 then true else leb 15 q) ≡ leb 15 q
    same q = ground arith

pub frame-IsWritten :
    (sr : Symrange) (f : ℕ → Buffer) (q : ℕ) (t : Ring × Bool)
    → 0 < sr.numsyms
    → IsWritten sr.numsyms f q sr.numsyms t
    → IsWritten sr.numsyms f (q + 1) 1 (wcbuf (symbol (f (q + 1)) 0) bits_per_sym sr t.0)
frame-IsWritten sr f q t pos v =
    wcbuf-IsWritten sr f (q + 1) 0 t.0 (advanced sr.numsyms t.0) pos
      (ap (advanced sr.numsyms) (already_begun t.0 v.held.started))
      (advanced-IsHeld sr.numsyms f q t.0 v.held) (rw (advanced-full, v.filled) (later q))
  where
    advanced-full : (advanced sr.numsyms t.0).full ≡ t.0.full
    advanced-full = unfold advanced in ground arith

    later : (q : ℕ) → (if (q + 1) % 16 == 15 then true else leb 15 q) ≡ leb 15 (q + 1)
    later q = ground arith

-- After each write the buffer holds the symbols of the current frame so far and the fifteen frames
-- before it, and `wcbuf` reports a full buffer exactly at the last symbol of each frame from the
-- sixteenth on.
pub Recorded-IsWritten :
    (sr : Symrange) (f : ℕ → Buffer) (q r : ℕ) (t : Ring × Bool)
    → 0 < sr.numsyms
    → Recorded sr f q r t
    → IsWritten sr.numsyms f q r t
Recorded-IsWritten sr f _ _ _ pos (at_first c e g) = first-IsWritten sr f c pos e g
Recorded-IsWritten sr f _ _ _ pos (after_reset c e) = reset-IsWritten sr f c pos e
Recorded-IsWritten sr f _ _ _ pos (next_symbol q r t h w) =
    symbol-IsWritten sr f q r t h (Recorded-IsWritten sr f q r t pos w)
Recorded-IsWritten sr f _ _ _ pos (next_frame q t w) =
    frame-IsWritten sr f q t pos (Recorded-IsWritten sr f q sr.numsyms t pos w)
