-- ===== src/Assembly/Turns.antt =====
-- The three symbols of a frame one after the other.
use opendab.Base.{ℕ, ◌≡◌, refl, sym, ap, ◌∙◌, arith, true, false, ◌==◌, bit_or, Buffer}
use opendab.Assembly.{Assembly, begin_frame, join_frame, fic_assemble}

same_number : (k : ℕ) → k == k ≡ true
same_number k = ground arith

begins : (p : Buffer) (a : Assembly) → p 2 ≡ 2 → (fic_assemble p a).0 ≡ begin_frame p a
unfolding fic_assemble
begins p a e = rw e refl

joins :
    (p : Buffer) (a : Assembly)
    → p 3 ≡ a.cur_frame
    → ((join_frame p a).sym_flags ≡ bit_or a.sym_flags (p 2))
      × ((join_frame p a).cur_frame ≡ a.cur_frame)
unfolding join_frame
joins p a e = rw (e, same_number a.cur_frame) (refl, refl)

-- A symbol after which one of the three is missing.
waits :
    (p : Buffer) (a : Assembly)
    → p 2 == 2 ≡ false
    → p 3 ≡ a.cur_frame
    → bit_or a.sym_flags (p 2) == 15 ≡ false
    → (fic_assemble p a).0 ≡ join_frame p a
unfolding fic_assemble
waits p a e f g = rw (e, (joins p a f).0, g) refl

ends :
    (p : Buffer) (a : Assembly)
    → p 2 == 2 ≡ false
    → p 3 ≡ a.cur_frame
    → bit_or a.sym_flags (p 2) == 15 ≡ true
    → (fic_assemble p a).1 ≡ true
unfolding fic_assemble
ends p a e f g = rw (e, (joins p a f).0, g) refl

in_turn :
    (p q r : Buffer) (a : Assembly)
    → p 2 ≡ 2
    → q 2 == 2 ≡ false
    → r 2 == 2 ≡ false
    → bit_or 8 (q 2) == 15 ≡ false
    → bit_or (bit_or 8 (q 2)) (r 2) == 15 ≡ true
    → q 3 ≡ p 3
    → r 3 ≡ p 3
    → (fic_assemble r (fic_assemble q (fic_assemble p a).0).0).1 ≡ true
unfolding begin_frame
in_turn p q r a e2 eq er two three fq fr =
    rw (begins p a e2, waits q (begin_frame p a) eq fq two)
      (ends r (join_frame q (begin_frame p a)) er (fr ∙ sym (joins q (begin_frame p a) fq).1)
        (ap (λ t. bit_or t (r 2) == 15) (joins q (begin_frame p a) fq).0 ∙ three))

-- Symbol 2 of a frame and then its symbols 3 and 4, in one order or the other, are processed at the
-- last of the three, whatever came before.
pub three_symbols :
    (p2 p3 p4 : Buffer) (a : Assembly)
    → p2 2 ≡ 2
    → p3 2 ≡ 3
    → p4 2 ≡ 4
    → p3 3 ≡ p2 3
    → p4 3 ≡ p2 3
    → ((fic_assemble p4 (fic_assemble p3 (fic_assemble p2 a).0).0).1 ≡ true)
      × ((fic_assemble p3 (fic_assemble p4 (fic_assemble p2 a).0).0).1 ≡ true)
three_symbols p2 p3 p4 a e2 e3 e4 f3 f4 = (
  in_turn p2 p3 p4 a e2 (rw e3 refl) (rw e4 refl) (rw e3 refl) (rw (e3, e4) refl) f3 f4,
  in_turn p2 p4 p3 a e2 (rw e4 refl) (rw e3 refl) (rw e4 refl) (rw (e3, e4) refl) f4 f3,
)
