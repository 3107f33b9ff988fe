-- ===== src/Prsgen/Phases.antt =====
-- The phases that the loop of src/prsgen.c gives, block by block of 32 carriers.
use opendab.Base.{
  ℕ, ◌+◌, ◌-◌, ◌*◌, ◌/◌, ◌%◌, ◌<◌, ◌≡◌, ◌≢◌, refl, ap, ap₂, ◌∙◌, arith, Bool, true, not, ◌&&◌, ◌==◌,
  ==_iff, ltb, leb, if◌then◌else◌, Bool-cases, inl, inr, Buffer, store_self, store_ne,
  for_range_inv, get_or,
}
use opendab.Base.Check.{all_below, all_below_sound}
use opendab.Base.Int.{ℤ, pos, negsuc, sub_ℕ, pos_part, neg_part, ◌-ℤ◌, eq_of_parts}
use opendab.Prsgen.{Prs, eq_ℤ, prs_round, prs_phases, carrier_block, h_table, i_table, n_table}

-- Before the round for `m`: the block whose entries are used, and where it starts.
block_at : ℕ → ℕ
block_at m = if leb m 768 then (m - 1) / 32 else (m - 2) / 32

start_of : ℕ → ℤ
start_of j = if ltb j 24 then negsuc (767 - 32 * j) else pos (32 * (j - 24) + 1)

offset_at : ℕ → ℕ
offset_at m = if ltb m 768 then m % 32 else if m == 768 then 31 else (m - 769) % 32

phase_at : ℕ → ℕ
phase_at m =
    (get_or (h_table (get_or i_table (block_at m) 0)) (offset_at m) 0
      + get_or n_table (block_at m) 0)
    % 4

-- What the round for `m` compares.
kp_of : ℕ → ℤ
kp_of m = carrier_block (sub_ℕ m 768)

is_next : ℕ → Bool
is_next m = not (eq_ℤ (kp_of m) (start_of (block_at m))) && not (m == 768)

-- Whether the round for `m` finds its offset and its next block so.
is_offset : ℕ → Bool
is_offset m = pos_part (sub_ℕ m 768 -ℤ kp_of m) == offset_at m

is_block : ℕ → Bool
is_block m = (if is_next m then block_at m + 1 else block_at m) == block_at (m + 1)

is_start : ℕ → Bool
is_start m =
    eq_ℤ (if is_next m then kp_of m else start_of (block_at m)) (start_of (block_at (m + 1)))

offsets : all_below 1537 is_offset ≡ true
unfolding all_below is_offset kp_of carrier_block offset_at ◌-ℤ◌
offsets = refl

blocks : all_below 1537 is_block ≡ true
unfolding all_below is_block is_next kp_of carrier_block block_at start_of ◌-ℤ◌
blocks = refl

starts : all_below 1537 is_start ≡ true
unfolding all_below is_start is_next kp_of carrier_block block_at start_of ◌-ℤ◌
starts = refl

eq_ℤ→eq : (a b : ℤ) → eq_ℤ a b ≡ true → a ≡ b
eq_ℤ→eq a b h = eq_of_parts a b ((==_iff (pos_part a + neg_part b) (pos_part b + neg_part a)).0 h)

record IsBefore (m : ℕ) (s : Prs) : Type 0 where
  start : s.kpl ≡ start_of (block_at m)
  block : s.j ≡ block_at m
  made : (x : ℕ) → x < m → s.phases x ≡ phase_at x

phase_lem :
    (m : ℕ) (s : Prs)
    → m < 1537
    → IsBefore m s
    → (get_or (h_table (get_or i_table s.j 0)) (pos_part (sub_ℕ m 768 -ℤ kp_of m)) 0
          + get_or n_table s.j 0)
        % 4
      ≡ phase_at m
unfolding phase_at is_offset
phase_lem m s p v =
    let off : pos_part (sub_ℕ m 768 -ℤ kp_of m) ≡ offset_at m =
      (==_iff (pos_part (sub_ℕ m 768 -ℤ kp_of m)) (offset_at m)).0
        (all_below_sound 1537 is_offset m offsets p) in
    ap₂ (λ j o. (get_or (h_table (get_or i_table j 0)) o 0 + get_or n_table j 0) % 4) v.block off

next_block :
    (m : ℕ) → m < 1537 → (if is_next m then block_at m + 1 else block_at m) ≡ block_at (m + 1)
unfolding is_block
next_block m p =
    (==_iff (if is_next m then block_at m + 1 else block_at m) (block_at (m + 1))).0
      (all_below_sound 1537 is_block m blocks p)

next_start :
    (m : ℕ)
    → m < 1537
    → (if is_next m then kp_of m else start_of (block_at m)) ≡ start_of (block_at (m + 1))
unfolding is_start
next_start m p =
    eq_ℤ→eq (if is_next m then kp_of m else start_of (block_at m)) (start_of (block_at (m + 1)))
      (all_below_sound 1537 is_start m starts p)

round-IsBefore : (m : ℕ) (s : Prs) → m < 1537 → IsBefore m s → IsBefore (m + 1) (prs_round m s)
unfolding prs_round kp_of is_next
round-IsBefore m s p v = record {
  start =
      ap (λ (l : ℤ). if not (eq_ℤ (kp_of m) l) && not (m == 768) then kp_of m else l) v.start
      ∙ next_start m p;
  block =
      ap₂ (λ (l : ℤ) (j : ℕ). if not (eq_ℤ (kp_of m) l) && not (m == 768) then j + 1 else j) v.start
        v.block
      ∙ next_block m p;
  made = λ x q. elim (Bool-cases (x == m)) [
    | inl e ↦
        let at : x ≡ m = (==_iff x m).0 e in rw at (store_self s.phases m _ ∙ phase_lem m s p v)
    | inr e ↦
        let other : x ≢ m = λ at. cc (e, (==_iff x m).1 at) in
        store_ne s.phases m _ x other ∙ v.made x (omega (arith, q, other))
  ];
}

-- The place of carrier `r` of block `b` in the loop: carrier 0 of the signal is left out.
abbrev pub carrier_of : ℕ → ℕ → ℕ
carrier_of b r = if ltb b 24 then 32 * b + r else 32 * b + r + 1

-- The block whose entries the loop uses there.
abbrev pub used_block : ℕ → ℕ → ℕ
used_block b r = if r == 0 then b - 1 else b

-- The loop gives each carrier of the 48 blocks the phase that the entries of the block say, but the first
-- carrier of a block, other than the first block, that of the entries of the block before.
pub prs_phases_lem :
    (phases : Buffer) (b r : ℕ)
    → b < 48
    → r < 32
    → (prs_phases phases).phases (carrier_of b r)
      ≡ (get_or (h_table (get_or i_table (used_block b r) 0)) r 0
          + get_or n_table (used_block b r) 0)
        % 4
unfolding prs_phases phase_at block_at start_of offset_at
prs_phases_lem phases b r p q =
    let v =
      for_range_inv IsBefore prs_round 1537 round-IsBefore 1537 0
        (record { kpl = negsuc 767; j = 0; phases = phases }) (omega arith)
        (record { start = refl; block = refl; made = λ x q. absurd (omega (arith, q)) }) in
    let block : block_at (carrier_of b r) ≡ used_block b r = ground (arith, p, q) in
    let off : offset_at (carrier_of b r) ≡ r = ground (arith, p, q) in
    v.made (carrier_of b r) (ground (arith, p, q))
    ∙ ap₂ (λ j o. (get_or (h_table (get_or i_table j 0)) o 0 + get_or n_table j 0) % 4) block off
