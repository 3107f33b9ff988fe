-- ===== src/Audio/Superframe/Units.antt =====
-- The units of a superframe, each with its check and its header.
use opendab.Base.{
  ℕ, ◌+◌, ◌-◌, ◌≤◌, ◌≡◌, refl, sym, ap, ap₂, ◌∙◌, arith, Bool, true, false, ◌&&◌, ◌||◌, ◌==◌, ltb,
  if◌then◌else◌, List, [], ◌∷◌, ◌++◌, append_assoc, append-nil, Buffer, store, store_ne, shift,
  window, Bool-cases, inl, inr,
}
use opendab.Base.Window.{window_ext}
use opendab.Crc.{crccheck}
use opendab.Audio.Adts.{StreamParms, wfadts}
use opendab.Audio.Superframe.{Player, played, end_of, invert, play_units}

-- Each unit has at least the two bytes of its check, and the next one starts behind it.
abbrev pub IsCut : List ℕ → ℕ → Type 0
IsCut [] last = Unit
IsCut (start ∷ starts) last = (start + 2 ≤ end_of starts last) × IsCut starts last

-- A unit with the two bytes of its check inverted.
unfoldable pub sealed : Buffer → ℕ → Buffer
sealed c size = invert (invert c (size - 2)) (size - 1)

-- What is written of a unit.
unfoldable pub unit : StreamParms → Buffer → ℕ → List ℕ
unit sp c size =
    if crccheck (sealed c size) size then wfadts (size - 2) sp ++ window c 0 (size - 2) else []

unfoldable pub units : StreamParms → List ℕ → ℕ → Buffer → List ℕ
units sp [] last b = []
units sp (start ∷ starts) last b =
    unit sp (shift b start) (end_of starts last - start) ++ units sp starts last b

-- The memory with the checks inverted.
unfoldable pub inverted : List ℕ → ℕ → Buffer → Buffer
inverted [] last b = b
inverted (start ∷ starts) last b =
    inverted starts last (invert (invert b (end_of starts last - 2)) (end_of starts last - 1))

funext : (a b : Buffer) → ((x : ℕ) → a x ≡ b x) → a ≡ b
funext a b h = λ i x. h x i

shift-invert :
    (b : Buffer) (start k : ℕ)
    → start ≤ k
    → shift (invert b k) start ≡ invert (shift b start) (k - start)
unfolding store
shift-invert b start k h =
    funext (shift (invert b k) start) (invert (shift b start) (k - start)) same
  where
    back : start + (k - start) ≡ k
    back = omega (arith, h)

    test : (x : ℕ) → (start + x == k) ≡ (x == k - start)
    test x = ground (arith, h)

    same : (x : ℕ) → shift (invert b k) start x ≡ invert (shift b start) (k - start) x
    same x = rw (test x, back) refl

sealed-shift :
    (b : Buffer) (start end : ℕ)
    → start + 2 ≤ end
    → shift (invert (invert b (end - 2)) (end - 1)) start ≡ sealed (shift b start) (end - start)
unfolding sealed
sealed-shift b start end h =
    shift-invert (invert b (end - 2)) start (end - 1) (omega (arith, h))
    ∙ ap (λ c. invert c (end - 1 - start)) (shift-invert b start (end - 2) (omega (arith, h)))
    ∙ ap₂ (λ k l. invert (invert (shift b start) k) l)
        (let e : end - 2 - start ≡ end - start - 2 = omega arith in e)
        (let e : end - 1 - start ≡ end - start - 1 = omega arith in e)

before_check :
    (b : Buffer) (start end : ℕ)
    → start + 2 ≤ end
    → window (invert (invert b (end - 2)) (end - 1)) start (end - start - 2)
      ≡ window (shift b start) 0 (end - start - 2)
before_check b start end h =
    window_ext (invert (invert b (end - 2)) (end - 1)) (shift b start) start 0 (end - start - 2)
      (λ x p.
        store_ne (invert b (end - 2)) (end - 1) _ (start + x) (λ e. omega (arith, p, e))
        ∙ store_ne b (end - 2) _ (start + x) (λ e. omega (arith, p, e))
        ∙ ap b (let e : start + x ≡ start + (0 + x) = omega arith in e))

units-Agree :
    (sp : StreamParms) (starts : List ℕ) (last m : ℕ) (a b : Buffer)
    → IsCut starts last
    → m ≤ end_of starts last
    → ((x : ℕ) → m ≤ x → a x ≡ b x)
    → units sp starts last a ≡ units sp starts last b
unfolding units
units-Agree sp [] last m a b cut le h = refl
units-Agree sp (start ∷ starts) last m a b cut le h =
    ap₂ (λ c r. unit sp c (end_of starts last - start) ++ r)
      (funext (shift a start) (shift b start) (λ x. h (start + x) (omega (arith, le))))
      (units-Agree sp starts last m a b cut.1 (omega (arith, le, cut.0)) h)

after_unit :
    (b : Buffer) (end x : ℕ) → 2 ≤ end → end ≤ x → invert (invert b (end - 2)) (end - 1) x ≡ b x
after_unit b end x h p =
    store_ne (invert b (end - 2)) (end - 1) _ x (λ e. omega (arith, p, e, h))
    ∙ store_ne b (end - 2) _ x (λ e. omega (arith, p, e, h))

-- What a round does to the player, if it has a result.
abbrev unit_step : StreamParms → ℕ → ℕ → Player → Player
unit_step sp start end p =
    let sfbuf = invert (invert p.sfbuf (end - 2)) (end - 1) in
    if crccheck (shift sfbuf start) (end - start)
    then record p {
      sfbuf = sfbuf;
      out = p.out ++ (wfadts (end - start - 2) sp ++ window sfbuf start (end - start - 2));
    }
    else record p { sfbuf = sfbuf }

unit_step_lem :
    (sp : StreamParms) (start end : ℕ) (p : Player)
    → start + 2 ≤ end
    → unit_step sp start end p ≡ record {
      frame = p.frame;
      sfbuf = invert (invert p.sfbuf (end - 2)) (end - 1);
      out = p.out ++ unit sp (shift p.sfbuf start) (end - start);
    }
unfolding unit
unit_step_lem sp start end p h =
    rw (sealed-shift p.sfbuf start end h, before_check p.sfbuf start end h)
      (elim (Bool-cases (crccheck (sealed (shift p.sfbuf start) (end - start)) (end - start))) [
        | inl e ↦ rw e refl
        | inr e ↦ rw (e, append-nil p.out) refl
      ])

inside :
    (good : Bool) (start end : ℕ)
    → start + 2 ≤ end
    → (ltb end 2 || ltb end start || (good && ltb end (start + 2))) ≡ false
inside true start end h = ground arith
inside false start end h = ground arith

-- If each unit of a superframe has room for its check and none overlaps the next, then those with a good
-- check, inverted as it is sent, are written in their order, each without its check and behind its
-- header, and no others; and nothing outside the superframe is read or written.
pub play_units_lem :
    (sp : StreamParms) (starts : List ℕ) (last : ℕ) (p : Player)
    → IsCut starts last
    → play_units sp starts last p
      ≡ played (record {
        frame = p.frame;
        sfbuf = inverted starts last p.sfbuf;
        out = p.out ++ units sp starts last p.sfbuf;
      })
unfolding play_units units inverted
play_units_lem sp [] last p cut = ap (λ l. played (record p { out = l })) (sym (append-nil p.out))
play_units_lem sp (start ∷ starts) last p cut =
    let end = end_of starts last in
    let sfbuf = invert (invert p.sfbuf (end - 2)) (end - 1) in
    rw (inside (crccheck (shift sfbuf start) (end - start)) start end cut.0) (
      play_units_lem sp starts last (unit_step sp start end p) cut.1
      ∙ rw (unit_step_lem sp start end p cut.0) (
          ap (λ l. played (record { frame = p.frame; sfbuf = inverted starts last sfbuf; out = l }))
            (append_assoc p.out (unit sp (shift p.sfbuf start) (end - start))
                (units sp starts last sfbuf)
              ∙ ap (λ l. p.out ++ (unit sp (shift p.sfbuf start) (end - start) ++ l))
                  (units-Agree sp starts last end sfbuf p.sfbuf cut.1 (omega arith)
                    (λ x q. after_unit p.sfbuf end x (omega (arith, cut.0)) q)))))
