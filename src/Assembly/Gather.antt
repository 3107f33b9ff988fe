-- ===== src/Assembly/Gather.antt =====
-- What is in the buffer of `fic_assemble` when it is processed.
use native.Mathlib.Decide.{ℕ_discrete}
use opendab.Base.{
  ℕ, ◌+◌, ◌-◌, ◌*◌, ◌<◌, ◌≤◌, ◌≡◌, ◌≢◌, refl, sym, ap, ◌∙◌, arith, true, false, ◌==◌, bit_or,
  Buffer, memcpy, shift, Bool-cases, inl, inr, ==_iff,
}
use opendab.Base.Copy.{memcpy_in, memcpy_out}
use opendab.Assembly.{Assembly, begin_frame, join_frame, fic_assemble}
use opendab.Assembly.Flags.{seen, flags_lem}

-- A packet with symbol 2, 3 or 4, whose bytes are those of its symbol in its frame.
pub record IsPacket (data_of : ℕ → ℕ → Buffer) (rdbuf : Buffer) : Type 0 where
  pub low : 2 ≤ rdbuf 2
  pub high : rdbuf 2 ≤ 4
  pub bytes : (x : ℕ) → x < 384 → rdbuf (12 + x) ≡ data_of (rdbuf 3) (rdbuf 2) x

abbrev pub Holds : (ℕ → ℕ → Buffer) → ℕ → Buffer → ℕ → Type 0
Holds data_of frame ficsyms s = (x : ℕ) → x < 384 → ficsyms (384 * (s - 2) + x) ≡ data_of frame s x

-- Each symbol that the flags tell of is in the buffer, and is one of the current frame.
pub record IsGathered (data_of : ℕ → ℕ → Buffer) (a : Assembly) : Type 0 where
  pub bounded : a.sym_flags < 16
  pub known :
      (s : ℕ) → 2 ≤ s → s ≤ 4 → seen a.sym_flags s ≡ true → Holds data_of a.cur_frame a.ficsyms s

begin-IsGathered :
    (data_of : ℕ → ℕ → Buffer) (rdbuf : Buffer) (a : Assembly)
    → IsPacket data_of rdbuf
    → rdbuf 2 ≡ 2
    → IsGathered data_of (begin_frame rdbuf a)
unfolding begin_frame
begin-IsGathered data_of rdbuf a p two = record {
  bounded = omega arith;
  known = λ s lo hi e x h.
      let first : s ≡ 2 = only s lo hi e in
      rw first (
        memcpy_in a.ficsyms (shift rdbuf 12) 0 384 x h
        ∙ p.bytes x h
        ∙ ap (λ k. data_of (rdbuf 3) k x) two);
}
  where
    only : (s : ℕ) → 2 ≤ s → s ≤ 4 → seen 8 s ≡ true → s ≡ 2
    only s lo hi e = ground arith

place :
    (s k x : ℕ)
    → 2 ≤ s
    → 2 ≤ k
    → s ≢ k
    → x < 384
    → 384 * (k - 2) ≤ 384 * (s - 2) + x
    → 384 * (k - 2) + 384 ≤ 384 * (s - 2) + x
place s k x lo lo' ne h p = omega (arith, ne)

added-IsGathered :
    (data_of : ℕ → ℕ → Buffer) (rdbuf : Buffer) (a : Assembly)
    → IsPacket data_of rdbuf
    → rdbuf 2 ≢ 2
    → rdbuf 3 ≡ a.cur_frame
    → IsGathered data_of a
    → IsGathered data_of (record a {
      sym_flags = bit_or a.sym_flags (rdbuf 2);
      ficsyms = memcpy a.ficsyms (384 * (rdbuf 2 - 2)) (shift rdbuf 12) 384;
    })
added-IsGathered data_of rdbuf a p other same v = record {
  bounded =
      (flags_lem a.sym_flags k 2 v.bounded (omega (arith, other)) p.high (omega arith) (omega arith)
        (λ e. other (sym e))).0;
  known = λ s lo hi e x h. elim (ℕ_discrete s k) [
    | yes here ↦ rw here (
        memcpy_in a.ficsyms (shift rdbuf 12) (384 * (k - 2)) 384 x h
        ∙ p.bytes x h
        ∙ ap (λ t. data_of t k x) same)
    | no ne ↦
        memcpy_out a.ficsyms (shift rdbuf 12) (384 * (k - 2)) 384 (384 * (s - 2) + x)
          (place s k x lo p.low ne h)
        ∙ v.known s lo hi
            (sym (flags_lem a.sym_flags k s v.bounded (omega (arith, other)) p.high lo hi ne).1 ∙ e)
            x h
  ];
}
  where
    k : ℕ
    k = rdbuf 2

pub cleared-IsGathered :
    (data_of : ℕ → ℕ → Buffer) (a : Assembly) → IsGathered data_of (record a { sym_flags = 0 })
cleared-IsGathered data_of a = record {
  bounded = omega arith;
  known = λ s lo hi e x h. absurd (unseen s lo hi e);
}
  where
    unseen : (s : ℕ) → 2 ≤ s → s ≤ 4 → ¬ (seen 0 s ≡ true)
    unseen s lo hi e = ground (arith, e)

join_frame-IsGathered :
    (data_of : ℕ → ℕ → Buffer) (rdbuf : Buffer) (a : Assembly)
    → IsPacket data_of rdbuf
    → rdbuf 2 ≢ 2
    → IsGathered data_of a
    → IsGathered data_of (join_frame rdbuf a)
unfolding join_frame
join_frame-IsGathered data_of rdbuf a p other v = elim (Bool-cases (rdbuf 3 == a.cur_frame)) [
  | inl e ↦ rw e (added-IsGathered data_of rdbuf a p other ((==_iff _ _).0 e) v)
  | inr e ↦ rw e (cleared-IsGathered data_of a)
]

-- `fic_assemble` keeps to it that the buffer holds each symbol of the current frame that its flags
-- tell of, for packets of the symbols 2 to 4.
pub fic_assemble-IsGathered :
    (data_of : ℕ → ℕ → Buffer) (rdbuf : Buffer) (a : Assembly)
    → IsPacket data_of rdbuf
    → IsGathered data_of a
    → IsGathered data_of (fic_assemble rdbuf a).0
unfolding fic_assemble
fic_assemble-IsGathered data_of rdbuf a p v = elim (Bool-cases (rdbuf 2 == 2)) [
  | inl e ↦ rw e (begin-IsGathered data_of rdbuf a p ((==_iff _ _).0 e))
  | inr e ↦ rw e (elim (Bool-cases ((join_frame rdbuf a).sym_flags == 15)) [
    | inl g ↦ rw g (cleared-IsGathered data_of (join_frame rdbuf a))
    | inr g ↦ rw g (join_frame-IsGathered data_of rdbuf a p (ground (arith, e)) v)
  ])
]

-- When `fic_assemble` calls `process_fic`, the buffer holds the symbols 2, 3 and 4 of the current
-- frame, which is that of the last packet.
pub fic_assemble_lem :
    (data_of : ℕ → ℕ → Buffer) (rdbuf : Buffer) (a : Assembly)
    → IsPacket data_of rdbuf
    → IsGathered data_of a
    → (fic_assemble rdbuf a).1 ≡ true
    → let b = (fic_assemble rdbuf a).0 in
      (rdbuf 3 ≡ b.cur_frame)
      × Holds data_of b.cur_frame b.ficsyms 2
      × Holds data_of b.cur_frame b.ficsyms 3
      × Holds data_of b.cur_frame b.ficsyms 4
fic_assemble_lem data_of rdbuf a p v called = elim (Bool-cases (rdbuf 2 == 2)) [
  | inl e ↦ absurd (not_first e)
  | inr e ↦ elim (Bool-cases ((join_frame rdbuf a).sym_flags == 15)) [
    | inl g ↦ rw (complete e g) (
      same_frame ((==_iff _ _).0 g),
      whole e g 2 (omega arith) (omega arith) refl,
      whole e g 3 (omega arith) (omega arith) refl,
      whole e g 4 (omega arith) (omega arith) refl,
    )
    | inr g ↦ absurd (not_complete e g)
  ]
]
  where
    b : Assembly
    b = join_frame rdbuf a

    not_first : ¬ (rdbuf 2 == 2 ≡ true)
    not_first e =
        let h : (fic_assemble rdbuf a).1 ≡ false = unfold fic_assemble in rw e refl in
        ground (arith, called, h)

    not_complete : rdbuf 2 == 2 ≡ false → ¬ (b.sym_flags == 15 ≡ false)
    not_complete e g =
        let h : (fic_assemble rdbuf a).1 ≡ false = unfold fic_assemble in rw (e, g) refl in
        ground (arith, called, h)

    complete :
        rdbuf 2 == 2 ≡ false
        → b.sym_flags == 15 ≡ true
        → (fic_assemble rdbuf a).0 ≡ record b { sym_flags = 0 }
    complete e g = unfold fic_assemble in rw (e, g) refl

    none_left : rdbuf 3 == a.cur_frame ≡ false → ¬ (b.sym_flags ≡ 15)
    none_left h g = let z : b.sym_flags ≡ 0 = unfold join_frame in rw h refl in omega (arith, g, z)

    same_frame : b.sym_flags ≡ 15 → rdbuf 3 ≡ b.cur_frame
    same_frame =
        unfold join_frame in
        λ g. elim (Bool-cases (rdbuf 3 == a.cur_frame)) [
          | inl h ↦ rw h ((==_iff _ _).0 h)
          | inr h ↦ absurd (none_left h g)
        ]

    whole :
        rdbuf 2 == 2 ≡ false
        → b.sym_flags == 15 ≡ true
        → (s : ℕ) → 2 ≤ s
        → s ≤ 4
        → seen 15 s ≡ true
        → Holds data_of b.cur_frame b.ficsyms s
    whole e g s lo hi k =
        (join_frame-IsGathered data_of rdbuf a p (ground (arith, e)) v).known s lo hi
          (ap (λ t. seen t s) ((==_iff _ _).0 g) ∙ k)
