-- ===== src/Prot.antt =====
-- The protection profiles of src/prot.h and src/wftables.c: unequal and equal error protection, and
-- the puncturing vectors.
use opendab.Base.{ℕ, List, [], ◌∷◌}
use opendab.Base.Int.{ℤ, pos, negsuc}

-- `struct uepprof`; the arrays of four as lists.
pub record UepProf : Type 0 where
  pub bitrate : ℕ
  pub subchsz : ℕ
  pub protlvl : ℕ
  pub l : List ℕ
  pub pi : List ℤ
  pub padbits : ℕ

-- One entry of `l` in `struct eepprof`.
pub record Blocks : Type 0 where
  pub mul : ℕ
  pub offset : ℤ

-- `struct eepprof`; the arrays of two as lists.
pub record EepProf : Type 0 where
  pub sizemul : ℕ
  pub ratemul : ℕ
  pub l : List Blocks
  pub pi : List ℤ

abbrev uep : ℕ → ℕ → ℕ → List ℕ → List ℤ → ℕ → UepProf
uep bitrate subchsz protlvl l pi padbits = record {
  bitrate = bitrate;
  subchsz = subchsz;
  protlvl = protlvl;
  l = l;
  pi = pi;
  padbits = padbits;
}

abbrev eep : ℕ → ℕ → ℕ → ℤ → ℕ → ℤ → ℤ → ℤ → EepProf
eep sizemul ratemul mul offset mul' offset' p q = record {
  sizemul = sizemul;
  ratemul = ratemul;
  l = record { mul = mul; offset = offset } ∷ record { mul = mul'; offset = offset' } ∷ [];
  pi = p ∷ q ∷ [];
}

abbrev pub ueptable : List UepProf
ueptable =
    uep 32 16 5 (3 ∷ 4 ∷ 17 ∷ 0 ∷ []) (pos 4 ∷ pos 2 ∷ pos 1 ∷ negsuc 0 ∷ []) 0
    ∷ uep 32 21 4 (3 ∷ 3 ∷ 18 ∷ 0 ∷ []) (pos 10 ∷ pos 5 ∷ pos 4 ∷ negsuc 0 ∷ []) 0
    ∷ uep 32 24 3 (3 ∷ 4 ∷ 14 ∷ 3 ∷ []) (pos 14 ∷ pos 8 ∷ pos 5 ∷ pos 7 ∷ []) 0
    ∷ uep 32 29 2 (3 ∷ 4 ∷ 14 ∷ 3 ∷ []) (pos 21 ∷ pos 12 ∷ pos 7 ∷ pos 12 ∷ []) 0
    ∷ uep 32 35 1 (3 ∷ 5 ∷ 13 ∷ 3 ∷ []) (pos 23 ∷ pos 16 ∷ pos 11 ∷ pos 16 ∷ []) 4
    ∷ uep 48 24 5 (4 ∷ 3 ∷ 26 ∷ 3 ∷ []) (pos 4 ∷ pos 3 ∷ pos 1 ∷ pos 2 ∷ []) 0
    ∷ uep 48 29 4 (3 ∷ 4 ∷ 26 ∷ 3 ∷ []) (pos 8 ∷ pos 5 ∷ pos 3 ∷ pos 5 ∷ []) 0
    ∷ uep 48 35 3 (3 ∷ 4 ∷ 26 ∷ 3 ∷ []) (pos 14 ∷ pos 9 ∷ pos 5 ∷ pos 8 ∷ []) 4
    ∷ uep 48 42 2 (3 ∷ 4 ∷ 26 ∷ 3 ∷ []) (pos 23 ∷ pos 13 ∷ pos 7 ∷ pos 14 ∷ []) 0
    ∷ uep 48 52 1 (3 ∷ 5 ∷ 25 ∷ 3 ∷ []) (pos 23 ∷ pos 17 ∷ pos 12 ∷ pos 17 ∷ []) 0
    ∷ uep 56 29 5 (6 ∷ 10 ∷ 23 ∷ 3 ∷ []) (pos 4 ∷ pos 3 ∷ pos 1 ∷ pos 2 ∷ []) 0
    ∷ uep 56 35 4 (6 ∷ 10 ∷ 23 ∷ 3 ∷ []) (pos 8 ∷ pos 5 ∷ pos 3 ∷ pos 4 ∷ []) 0
    ∷ uep 56 42 3 (6 ∷ 12 ∷ 21 ∷ 3 ∷ []) (pos 15 ∷ pos 6 ∷ pos 5 ∷ pos 8 ∷ []) 0
    ∷ uep 56 52 2 (6 ∷ 10 ∷ 23 ∷ 3 ∷ []) (pos 22 ∷ pos 12 ∷ pos 7 ∷ pos 12 ∷ []) 8
    ∷ uep 64 32 5 (6 ∷ 9 ∷ 31 ∷ 2 ∷ []) (pos 4 ∷ pos 2 ∷ pos 1 ∷ pos 2 ∷ []) 0
    ∷ uep 64 42 4 (6 ∷ 9 ∷ 33 ∷ 0 ∷ []) (pos 10 ∷ pos 5 ∷ pos 4 ∷ negsuc 0 ∷ []) 0
    ∷ uep 64 48 3 (6 ∷ 12 ∷ 27 ∷ 3 ∷ []) (pos 15 ∷ pos 7 ∷ pos 5 ∷ pos 8 ∷ []) 0
    ∷ uep 64 58 2 (6 ∷ 10 ∷ 29 ∷ 3 ∷ []) (pos 22 ∷ pos 12 ∷ pos 7 ∷ pos 12 ∷ []) 8
    ∷ uep 64 70 1 (6 ∷ 11 ∷ 28 ∷ 3 ∷ []) (pos 23 ∷ pos 17 ∷ pos 11 ∷ pos 17 ∷ []) 4
    ∷ uep 80 40 5 (6 ∷ 10 ∷ 41 ∷ 3 ∷ []) (pos 5 ∷ pos 2 ∷ pos 1 ∷ pos 2 ∷ []) 0
    ∷ uep 80 52 4 (6 ∷ 10 ∷ 41 ∷ 3 ∷ []) (pos 10 ∷ pos 5 ∷ pos 4 ∷ pos 5 ∷ []) 0
    ∷ uep 80 58 3 (6 ∷ 11 ∷ 40 ∷ 3 ∷ []) (pos 15 ∷ pos 7 ∷ pos 5 ∷ pos 6 ∷ []) 0
    ∷ uep 80 70 2 (6 ∷ 10 ∷ 41 ∷ 3 ∷ []) (pos 22 ∷ pos 12 ∷ pos 7 ∷ pos 12 ∷ []) 8
    ∷ uep 80 84 1 (6 ∷ 10 ∷ 41 ∷ 3 ∷ []) (pos 23 ∷ pos 16 ∷ pos 11 ∷ pos 17 ∷ []) 4
    ∷ uep 96 48 5 (7 ∷ 9 ∷ 53 ∷ 3 ∷ []) (pos 4 ∷ pos 3 ∷ pos 1 ∷ pos 3 ∷ []) 0
    ∷ uep 96 58 4 (7 ∷ 10 ∷ 52 ∷ 3 ∷ []) (pos 8 ∷ pos 5 ∷ pos 3 ∷ pos 5 ∷ []) 0
    ∷ uep 96 70 3 (6 ∷ 12 ∷ 51 ∷ 3 ∷ []) (pos 15 ∷ pos 8 ∷ pos 5 ∷ pos 9 ∷ []) 4
    ∷ uep 96 84 2 (6 ∷ 10 ∷ 53 ∷ 3 ∷ []) (pos 21 ∷ pos 11 ∷ pos 8 ∷ pos 11 ∷ []) 0
    ∷ uep 96 104 1 (6 ∷ 13 ∷ 50 ∷ 3 ∷ []) (pos 23 ∷ pos 17 ∷ pos 12 ∷ pos 18 ∷ []) 0
    ∷ uep 112 58 5 (14 ∷ 17 ∷ 50 ∷ 3 ∷ []) (pos 4 ∷ pos 3 ∷ pos 1 ∷ pos 4 ∷ []) 0
    ∷ uep 112 70 4 (11 ∷ 21 ∷ 49 ∷ 3 ∷ []) (pos 8 ∷ pos 5 ∷ pos 3 ∷ pos 7 ∷ []) 0
    ∷ uep 112 84 3 (11 ∷ 23 ∷ 47 ∷ 3 ∷ []) (pos 15 ∷ pos 7 ∷ pos 5 ∷ pos 8 ∷ []) 0
    ∷ uep 112 104 2 (11 ∷ 21 ∷ 49 ∷ 3 ∷ []) (pos 22 ∷ pos 11 ∷ pos 8 ∷ pos 13 ∷ []) 4
    ∷ uep 128 64 5 (12 ∷ 19 ∷ 62 ∷ 3 ∷ []) (pos 4 ∷ pos 2 ∷ pos 1 ∷ pos 3 ∷ []) 0
    ∷ uep 128 84 4 (11 ∷ 21 ∷ 61 ∷ 3 ∷ []) (pos 10 ∷ pos 5 ∷ pos 4 ∷ pos 6 ∷ []) 0
    ∷ uep 128 96 3 (11 ∷ 22 ∷ 60 ∷ 3 ∷ []) (pos 15 ∷ pos 8 ∷ pos 5 ∷ pos 9 ∷ []) 4
    ∷ uep 128 116 2 (11 ∷ 21 ∷ 61 ∷ 3 ∷ []) (pos 21 ∷ pos 11 ∷ pos 8 ∷ pos 13 ∷ []) 0
    ∷ uep 128 140 1 (11 ∷ 20 ∷ 62 ∷ 3 ∷ []) (pos 23 ∷ pos 16 ∷ pos 12 ∷ pos 18 ∷ []) 8
    ∷ uep 160 80 5 (11 ∷ 19 ∷ 87 ∷ 3 ∷ []) (pos 4 ∷ pos 3 ∷ pos 1 ∷ pos 3 ∷ []) 0
    ∷ uep 160 104 4 (11 ∷ 23 ∷ 83 ∷ 3 ∷ []) (pos 10 ∷ pos 5 ∷ pos 4 ∷ pos 8 ∷ []) 0
    ∷ uep 160 116 3 (11 ∷ 24 ∷ 82 ∷ 3 ∷ []) (pos 15 ∷ pos 7 ∷ pos 5 ∷ pos 10 ∷ []) 0
    ∷ uep 160 140 2 (11 ∷ 21 ∷ 85 ∷ 3 ∷ []) (pos 21 ∷ pos 10 ∷ pos 8 ∷ pos 12 ∷ []) 0
    ∷ uep 160 168 1 (11 ∷ 22 ∷ 84 ∷ 3 ∷ []) (pos 23 ∷ pos 17 ∷ pos 11 ∷ pos 18 ∷ []) 0
    ∷ uep 192 96 5 (11 ∷ 20 ∷ 110 ∷ 3 ∷ []) (pos 5 ∷ pos 3 ∷ pos 1 ∷ pos 4 ∷ []) 0
    ∷ uep 192 116 4 (11 ∷ 22 ∷ 108 ∷ 3 ∷ []) (pos 9 ∷ pos 5 ∷ pos 3 ∷ pos 8 ∷ []) 0
    ∷ uep 192 140 3 (11 ∷ 24 ∷ 106 ∷ 3 ∷ []) (pos 15 ∷ pos 9 ∷ pos 5 ∷ pos 10 ∷ []) 0
    ∷ uep 192 168 2 (11 ∷ 20 ∷ 110 ∷ 3 ∷ []) (pos 21 ∷ pos 12 ∷ pos 8 ∷ pos 12 ∷ []) 8
    ∷ uep 192 208 1 (11 ∷ 21 ∷ 109 ∷ 3 ∷ []) (pos 23 ∷ pos 19 ∷ pos 12 ∷ pos 23 ∷ []) 0
    ∷ uep 224 116 5 (12 ∷ 22 ∷ 131 ∷ 3 ∷ []) (pos 7 ∷ pos 5 ∷ pos 1 ∷ pos 5 ∷ []) 4
    ∷ uep 224 140 4 (12 ∷ 26 ∷ 127 ∷ 3 ∷ []) (pos 11 ∷ pos 7 ∷ pos 3 ∷ pos 10 ∷ []) 0
    ∷ uep 224 168 3 (11 ∷ 20 ∷ 134 ∷ 3 ∷ []) (pos 15 ∷ pos 9 ∷ pos 6 ∷ pos 8 ∷ []) 0
    ∷ uep 224 208 2 (11 ∷ 22 ∷ 132 ∷ 3 ∷ []) (pos 23 ∷ pos 15 ∷ pos 9 ∷ pos 14 ∷ []) 0
    ∷ uep 224 232 1 (11 ∷ 24 ∷ 130 ∷ 3 ∷ []) (pos 23 ∷ pos 19 ∷ pos 11 ∷ pos 19 ∷ []) 4
    ∷ uep 256 128 5 (11 ∷ 24 ∷ 154 ∷ 3 ∷ []) (pos 5 ∷ pos 4 ∷ pos 1 ∷ pos 4 ∷ []) 0
    ∷ uep 256 168 4 (11 ∷ 24 ∷ 154 ∷ 3 ∷ []) (pos 11 ∷ pos 8 ∷ pos 4 ∷ pos 9 ∷ []) 4
    ∷ uep 256 192 3 (11 ∷ 27 ∷ 151 ∷ 3 ∷ []) (pos 15 ∷ pos 9 ∷ pos 6 ∷ pos 9 ∷ []) 0
    ∷ uep 256 232 2 (11 ∷ 22 ∷ 156 ∷ 3 ∷ []) (pos 23 ∷ pos 13 ∷ pos 9 ∷ pos 12 ∷ []) 8
    ∷ uep 256 280 1 (11 ∷ 26 ∷ 152 ∷ 3 ∷ []) (pos 23 ∷ pos 18 ∷ pos 13 ∷ pos 17 ∷ []) 4
    ∷ uep 320 160 5 (11 ∷ 26 ∷ 200 ∷ 3 ∷ []) (pos 7 ∷ pos 4 ∷ pos 1 ∷ pos 5 ∷ []) 4
    ∷ uep 320 208 4 (11 ∷ 25 ∷ 201 ∷ 3 ∷ []) (pos 12 ∷ pos 8 ∷ pos 4 ∷ pos 9 ∷ []) 8
    ∷ uep 320 280 2 (11 ∷ 26 ∷ 200 ∷ 3 ∷ []) (pos 23 ∷ pos 16 ∷ pos 8 ∷ pos 16 ∷ []) 0
    ∷ uep 384 192 5 (11 ∷ 27 ∷ 247 ∷ 3 ∷ []) (pos 7 ∷ pos 5 ∷ pos 1 ∷ pos 6 ∷ []) 0
    ∷ uep 384 280 3 (11 ∷ 24 ∷ 250 ∷ 3 ∷ []) (pos 15 ∷ pos 8 ∷ pos 6 ∷ pos 9 ∷ []) 4
    ∷ uep 384 416 1 (12 ∷ 28 ∷ 245 ∷ 3 ∷ []) (pos 23 ∷ pos 19 ∷ pos 13 ∷ pos 22 ∷ []) 8
    ∷ []

abbrev pub eeptable : List EepProf
eeptable =
    eep 12 8 6 (negsuc 2) 0 (pos 3) (pos 23) (pos 22)
    ∷ eep 8 8 2 (negsuc 2) 4 (pos 3) (pos 13) (pos 12)
    ∷ eep 6 8 6 (negsuc 2) 0 (pos 3) (pos 7) (pos 6)
    ∷ eep 4 8 4 (negsuc 2) 2 (pos 3) (pos 2) (pos 1)
    ∷ eep 27 32 24 (negsuc 2) 0 (pos 3) (pos 9) (pos 8)
    ∷ eep 21 32 24 (negsuc 2) 0 (pos 3) (pos 5) (pos 4)
    ∷ eep 18 32 24 (negsuc 2) 0 (pos 3) (pos 3) (pos 2)
    ∷ eep 15 32 24 (negsuc 2) 0 (pos 3) (pos 1) (pos 0)
    ∷ []

-- The special case for EEP 2-A at 8 kbit/s.
abbrev pub eep2a8kbps : EepProf
eep2a8kbps = eep 8 8 0 (pos 5) 0 (pos 1) (pos 3) (pos 12)

abbrev pub pvec : List (List ℕ)
pvec =
    (1 ∷ 1 ∷ 0 ∷ 0 ∷ 1 ∷ 0 ∷ 0 ∷ 0 ∷ 1 ∷ 0 ∷ 0 ∷ 0 ∷ 1 ∷ 0 ∷ 0 ∷ 0 ∷ 1 ∷ 0 ∷ 0 ∷ 0 ∷ 1 ∷ 0 ∷ 0 ∷ 0
      ∷ 1 ∷ 0 ∷ 0 ∷ 0 ∷ 1 ∷ 0 ∷ 0 ∷ 0 ∷ [])
    ∷ (1 ∷ 1 ∷ 0 ∷ 0 ∷ 1 ∷ 0 ∷ 0 ∷ 0 ∷ 1 ∷ 0 ∷ 0 ∷ 0 ∷ 1 ∷ 0 ∷ 0 ∷ 0 ∷ 1 ∷ 1 ∷ 0 ∷ 0 ∷ 1 ∷ 0 ∷ 0 ∷ 0
        ∷ 1 ∷ 0 ∷ 0 ∷ 0 ∷ 1 ∷ 0 ∷ 0 ∷ 0 ∷ [])
    ∷ (1 ∷ 1 ∷ 0 ∷ 0 ∷ 1 ∷ 0 ∷ 0 ∷ 0 ∷ 1 ∷ 1 ∷ 0 ∷ 0 ∷ 1 ∷ 0 ∷ 0 ∷ 0 ∷ 1 ∷ 1 ∷ 0 ∷ 0 ∷ 1 ∷ 0 ∷ 0 ∷ 0
        ∷ 1 ∷ 0 ∷ 0 ∷ 0 ∷ 1 ∷ 0 ∷ 0 ∷ 0 ∷ [])
    ∷ (1 ∷ 1 ∷ 0 ∷ 0 ∷ 1 ∷ 0 ∷ 0 ∷ 0 ∷ 1 ∷ 1 ∷ 0 ∷ 0 ∷ 1 ∷ 0 ∷ 0 ∷ 0 ∷ 1 ∷ 1 ∷ 0 ∷ 0 ∷ 1 ∷ 0 ∷ 0 ∷ 0
        ∷ 1 ∷ 1 ∷ 0 ∷ 0 ∷ 1 ∷ 0 ∷ 0 ∷ 0 ∷ [])
    ∷ (1 ∷ 1 ∷ 0 ∷ 0 ∷ 1 ∷ 1 ∷ 0 ∷ 0 ∷ 1 ∷ 1 ∷ 0 ∷ 0 ∷ 1 ∷ 0 ∷ 0 ∷ 0 ∷ 1 ∷ 1 ∷ 0 ∷ 0 ∷ 1 ∷ 0 ∷ 0 ∷ 0
        ∷ 1 ∷ 1 ∷ 0 ∷ 0 ∷ 1 ∷ 0 ∷ 0 ∷ 0 ∷ [])
    ∷ (1 ∷ 1 ∷ 0 ∷ 0 ∷ 1 ∷ 1 ∷ 0 ∷ 0 ∷ 1 ∷ 1 ∷ 0 ∷ 0 ∷ 1 ∷ 0 ∷ 0 ∷ 0 ∷ 1 ∷ 1 ∷ 0 ∷ 0 ∷ 1 ∷ 1 ∷ 0 ∷ 0
        ∷ 1 ∷ 1 ∷ 0 ∷ 0 ∷ 1 ∷ 0 ∷ 0 ∷ 0 ∷ [])
    ∷ (1 ∷ 1 ∷ 0 ∷ 0 ∷ 1 ∷ 1 ∷ 0 ∷ 0 ∷ 1 ∷ 1 ∷ 0 ∷ 0 ∷ 1 ∷ 1 ∷ 0 ∷ 0 ∷ 1 ∷ 1 ∷ 0 ∷ 0 ∷ 1 ∷ 1 ∷ 0 ∷ 0
        ∷ 1 ∷ 1 ∷ 0 ∷ 0 ∷ 1 ∷ 0 ∷ 0 ∷ 0 ∷ [])
    ∷ (1 ∷ 1 ∷ 0 ∷ 0 ∷ 1 ∷ 1 ∷ 0 ∷ 0 ∷ 1 ∷ 1 ∷ 0 ∷ 0 ∷ 1 ∷ 1 ∷ 0 ∷ 0 ∷ 1 ∷ 1 ∷ 0 ∷ 0 ∷ 1 ∷ 1 ∷ 0 ∷ 0
        ∷ 1 ∷ 1 ∷ 0 ∷ 0 ∷ 1 ∷ 1 ∷ 0 ∷ 0 ∷ [])
    ∷ (1 ∷ 1 ∷ 1 ∷ 0 ∷ 1 ∷ 1 ∷ 0 ∷ 0 ∷ 1 ∷ 1 ∷ 0 ∷ 0 ∷ 1 ∷ 1 ∷ 0 ∷ 0 ∷ 1 ∷ 1 ∷ 0 ∷ 0 ∷ 1 ∷ 1 ∷ 0 ∷ 0
        ∷ 1 ∷ 1 ∷ 0 ∷ 0 ∷ 1 ∷ 1 ∷ 0 ∷ 0 ∷ [])
    ∷ (1 ∷ 1 ∷ 1 ∷ 0 ∷ 1 ∷ 1 ∷ 0 ∷ 0 ∷ 1 ∷ 1 ∷ 0 ∷ 0 ∷ 1 ∷ 1 ∷ 0 ∷ 0 ∷ 1 ∷ 1 ∷ 1 ∷ 0 ∷ 1 ∷ 1 ∷ 0 ∷ 0
        ∷ 1 ∷ 1 ∷ 0 ∷ 0 ∷ 1 ∷ 1 ∷ 0 ∷ 0 ∷ [])
    ∷ (1 ∷ 1 ∷ 1 ∷ 0 ∷ 1 ∷ 1 ∷ 0 ∷ 0 ∷ 1 ∷ 1 ∷ 1 ∷ 0 ∷ 1 ∷ 1 ∷ 0 ∷ 0 ∷ 1 ∷ 1 ∷ 1 ∷ 0 ∷ 1 ∷ 1 ∷ 0 ∷ 0
        ∷ 1 ∷ 1 ∷ 0 ∷ 0 ∷ 1 ∷ 1 ∷ 0 ∷ 0 ∷ [])
    ∷ (1 ∷ 1 ∷ 1 ∷ 0 ∷ 1 ∷ 1 ∷ 0 ∷ 0 ∷ 1 ∷ 1 ∷ 1 ∷ 0 ∷ 1 ∷ 1 ∷ 0 ∷ 0 ∷ 1 ∷ 1 ∷ 1 ∷ 0 ∷ 1 ∷ 1 ∷ 0 ∷ 0
        ∷ 1 ∷ 1 ∷ 1 ∷ 0 ∷ 1 ∷ 1 ∷ 0 ∷ 0 ∷ [])
    ∷ (1 ∷ 1 ∷ 1 ∷ 0 ∷ 1 ∷ 1 ∷ 1 ∷ 0 ∷ 1 ∷ 1 ∷ 1 ∷ 0 ∷ 1 ∷ 1 ∷ 0 ∷ 0 ∷ 1 ∷ 1 ∷ 1 ∷ 0 ∷ 1 ∷ 1 ∷ 0 ∷ 0
        ∷ 1 ∷ 1 ∷ 1 ∷ 0 ∷ 1 ∷ 1 ∷ 0 ∷ 0 ∷ [])
    ∷ (1 ∷ 1 ∷ 1 ∷ 0 ∷ 1 ∷ 1 ∷ 1 ∷ 0 ∷ 1 ∷ 1 ∷ 1 ∷ 0 ∷ 1 ∷ 1 ∷ 0 ∷ 0 ∷ 1 ∷ 1 ∷ 1 ∷ 0 ∷ 1 ∷ 1 ∷ 1 ∷ 0
        ∷ 1 ∷ 1 ∷ 1 ∷ 0 ∷ 1 ∷ 1 ∷ 0 ∷ 0 ∷ [])
    ∷ (1 ∷ 1 ∷ 1 ∷ 0 ∷ 1 ∷ 1 ∷ 1 ∷ 0 ∷ 1 ∷ 1 ∷ 1 ∷ 0 ∷ 1 ∷ 1 ∷ 1 ∷ 0 ∷ 1 ∷ 1 ∷ 1 ∷ 0 ∷ 1 ∷ 1 ∷ 1 ∷ 0
        ∷ 1 ∷ 1 ∷ 1 ∷ 0 ∷ 1 ∷ 1 ∷ 0 ∷ 0 ∷ [])
    ∷ (1 ∷ 1 ∷ 1 ∷ 0 ∷ 1 ∷ 1 ∷ 1 ∷ 0 ∷ 1 ∷ 1 ∷ 1 ∷ 0 ∷ 1 ∷ 1 ∷ 1 ∷ 0 ∷ 1 ∷ 1 ∷ 1 ∷ 0 ∷ 1 ∷ 1 ∷ 1 ∷ 0
        ∷ 1 ∷ 1 ∷ 1 ∷ 0 ∷ 1 ∷ 1 ∷ 1 ∷ 0 ∷ [])
    ∷ (1 ∷ 1 ∷ 1 ∷ 1 ∷ 1 ∷ 1 ∷ 1 ∷ 0 ∷ 1 ∷ 1 ∷ 1 ∷ 0 ∷ 1 ∷ 1 ∷ 1 ∷ 0 ∷ 1 ∷ 1 ∷ 1 ∷ 0 ∷ 1 ∷ 1 ∷ 1 ∷ 0
        ∷ 1 ∷ 1 ∷ 1 ∷ 0 ∷ 1 ∷ 1 ∷ 1 ∷ 0 ∷ [])
    ∷ (1 ∷ 1 ∷ 1 ∷ 1 ∷ 1 ∷ 1 ∷ 1 ∷ 0 ∷ 1 ∷ 1 ∷ 1 ∷ 0 ∷ 1 ∷ 1 ∷ 1 ∷ 0 ∷ 1 ∷ 1 ∷ 1 ∷ 1 ∷ 1 ∷ 1 ∷ 1 ∷ 0
        ∷ 1 ∷ 1 ∷ 1 ∷ 0 ∷ 1 ∷ 1 ∷ 1 ∷ 0 ∷ [])
    ∷ (1 ∷ 1 ∷ 1 ∷ 1 ∷ 1 ∷ 1 ∷ 1 ∷ 0 ∷ 1 ∷ 1 ∷ 1 ∷ 1 ∷ 1 ∷ 1 ∷ 1 ∷ 0 ∷ 1 ∷ 1 ∷ 1 ∷ 1 ∷ 1 ∷ 1 ∷ 1 ∷ 0
        ∷ 1 ∷ 1 ∷ 1 ∷ 0 ∷ 1 ∷ 1 ∷ 1 ∷ 0 ∷ [])
    ∷ (1 ∷ 1 ∷ 1 ∷ 1 ∷ 1 ∷ 1 ∷ 1 ∷ 0 ∷ 1 ∷ 1 ∷ 1 ∷ 1 ∷ 1 ∷ 1 ∷ 1 ∷ 0 ∷ 1 ∷ 1 ∷ 1 ∷ 1 ∷ 1 ∷ 1 ∷ 1 ∷ 0
        ∷ 1 ∷ 1 ∷ 1 ∷ 1 ∷ 1 ∷ 1 ∷ 1 ∷ 0 ∷ [])
    ∷ (1 ∷ 1 ∷ 1 ∷ 1 ∷ 1 ∷ 1 ∷ 1 ∷ 1 ∷ 1 ∷ 1 ∷ 1 ∷ 1 ∷ 1 ∷ 1 ∷ 1 ∷ 0 ∷ 1 ∷ 1 ∷ 1 ∷ 1 ∷ 1 ∷ 1 ∷ 1 ∷ 0
        ∷ 1 ∷ 1 ∷ 1 ∷ 1 ∷ 1 ∷ 1 ∷ 1 ∷ 0 ∷ [])
    ∷ (1 ∷ 1 ∷ 1 ∷ 1 ∷ 1 ∷ 1 ∷ 1 ∷ 1 ∷ 1 ∷ 1 ∷ 1 ∷ 1 ∷ 1 ∷ 1 ∷ 1 ∷ 0 ∷ 1 ∷ 1 ∷ 1 ∷ 1 ∷ 1 ∷ 1 ∷ 1 ∷ 1
        ∷ 1 ∷ 1 ∷ 1 ∷ 1 ∷ 1 ∷ 1 ∷ 1 ∷ 0 ∷ [])
    ∷ (1 ∷ 1 ∷ 1 ∷ 1 ∷ 1 ∷ 1 ∷ 1 ∷ 1 ∷ 1 ∷ 1 ∷ 1 ∷ 1 ∷ 1 ∷ 1 ∷ 1 ∷ 1 ∷ 1 ∷ 1 ∷ 1 ∷ 1 ∷ 1 ∷ 1 ∷ 1 ∷ 1
        ∷ 1 ∷ 1 ∷ 1 ∷ 1 ∷ 1 ∷ 1 ∷ 1 ∷ 0 ∷ [])
    ∷ (1 ∷ 1 ∷ 1 ∷ 1 ∷ 1 ∷ 1 ∷ 1 ∷ 1 ∷ 1 ∷ 1 ∷ 1 ∷ 1 ∷ 1 ∷ 1 ∷ 1 ∷ 1 ∷ 1 ∷ 1 ∷ 1 ∷ 1 ∷ 1 ∷ 1 ∷ 1 ∷ 1
        ∷ 1 ∷ 1 ∷ 1 ∷ 1 ∷ 1 ∷ 1 ∷ 1 ∷ 1 ∷ [])
    ∷ []
