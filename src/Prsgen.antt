-- ===== src/Prsgen.antt =====
-- src/prsgen.c: the phases of the phase reference symbol, in quarters of a turn. The transforms and the
-- files that the program writes are left out.
pub mod Phases
mod Examples
use opendab.Base.{
  ℕ, zero, suc, ◌+◌, ◌-◌, ◌*◌, ◌%◌, ltb, leb, Bool, true, false, not, ◌&&◌, ◌==◌, if◌then◌else◌,
  List, [], ◌∷◌, ◌++◌, get_or, replicate, Buffer, store, for_range,
}
use opendab.Base.Int.{ℤ, pos, negsuc, sub_ℕ, pos_part, neg_part, ◌-ℤ◌, ◌+ℤ◌}

-- The sixteen entries of a row of the table, which are there twice.
abbrev pub h_row : ℕ → List ℕ
h_row i =
    if i == 0
    then 0 ∷ 2 ∷ 0 ∷ 0 ∷ 0 ∷ 0 ∷ 1 ∷ 1 ∷ 2 ∷ 0 ∷ 0 ∷ 0 ∷ 2 ∷ 2 ∷ 1 ∷ 1 ∷ []
    else if i == 1
    then 0 ∷ 3 ∷ 2 ∷ 3 ∷ 0 ∷ 1 ∷ 3 ∷ 0 ∷ 2 ∷ 1 ∷ 2 ∷ 3 ∷ 2 ∷ 3 ∷ 3 ∷ 0 ∷ []
    else if i == 2
    then 0 ∷ 0 ∷ 0 ∷ 2 ∷ 0 ∷ 2 ∷ 1 ∷ 3 ∷ 2 ∷ 2 ∷ 0 ∷ 2 ∷ 2 ∷ 0 ∷ 1 ∷ 3 ∷ []
    else 0 ∷ 1 ∷ 2 ∷ 1 ∷ 0 ∷ 3 ∷ 3 ∷ 2 ∷ 2 ∷ 3 ∷ 2 ∷ 1 ∷ 2 ∷ 1 ∷ 3 ∷ 2 ∷ []

-- The table, in row 1 of which `3.2` stands for `3,2`: the int 3, and one entry less.
abbrev pub h_table : ℕ → List ℕ
h_table i =
    if i == 1
    then (0 ∷ 3 ∷ 3 ∷ 0 ∷ 1 ∷ 3 ∷ 0 ∷ 2 ∷ 1 ∷ 2 ∷ 3 ∷ 2 ∷ 3 ∷ 3 ∷ 0 ∷ []) ++ h_row 1 ++ (0 ∷ [])
    else h_row i ++ h_row i

abbrev pub i_table : List ℕ
i_table =
    0 ∷ 1 ∷ 2 ∷ 3 ∷ 0 ∷ 1 ∷ 2 ∷ 3 ∷ 0 ∷ 1 ∷ 2 ∷ 3 ∷ 0 ∷ 1 ∷ 2 ∷ 3 ∷ 0 ∷ 1 ∷ 2 ∷ 3 ∷ 0 ∷ 1 ∷ 2 ∷ 3
    ∷ 0 ∷ 3 ∷ 2 ∷ 1 ∷ 0 ∷ 3 ∷ 2 ∷ 1 ∷ 0 ∷ 3 ∷ 2 ∷ 1 ∷ 0 ∷ 3 ∷ 2 ∷ 1 ∷ 0 ∷ 3 ∷ 2 ∷ 1 ∷ 0 ∷ 3 ∷ 2 ∷ 1
    ∷ []

abbrev pub n_table : List ℕ
n_table =
    1 ∷ 2 ∷ 0 ∷ 1 ∷ 3 ∷ 2 ∷ 2 ∷ 3 ∷ 2 ∷ 1 ∷ 2 ∷ 3 ∷ 1 ∷ 2 ∷ 3 ∷ 3 ∷ 2 ∷ 2 ∷ 2 ∷ 1 ∷ 1 ∷ 3 ∷ 1 ∷ 2
    ∷ 3 ∷ 1 ∷ 1 ∷ 1 ∷ 2 ∷ 2 ∷ 1 ∷ 0 ∷ 2 ∷ 2 ∷ 3 ∷ 3 ∷ 0 ∷ 2 ∷ 1 ∷ 3 ∷ 3 ∷ 3 ∷ 3 ∷ 0 ∷ 3 ∷ 0 ∷ 1 ∷ 1
    ∷ []

-- `kp` for the carrier `k`, where `%` has the sign of `k`.
pub carrier_block : ℤ → ℤ
carrier_block (negsuc n) =
    let k = suc n in if k % 32 == 0 then negsuc n else negsuc n -ℤ pos (32 - k % 32)
carrier_block (pos k) = if k % 32 == 0 then pos k -ℤ pos 31 else pos (k - k % 32 + 1)

abbrev pub eq_ℤ : ℤ → ℤ → Bool
eq_ℤ a b = pos_part a + neg_part b == pos_part b + neg_part a

-- `kpl`, `j`, and the phases so far, by `k + 768`.
pub record Prs : Type 0 where
  pub kpl : ℤ
  pub j : ℕ
  pub phases : Buffer

-- A round of the loop of `main`: `m` is `k + 768`.
pub prs_round : ℕ → Prs → Prs
prs_round m s =
    let k = sub_ℕ m 768 in
    let kp = carrier_block k in
    let phase =
      (get_or (h_table (get_or i_table s.j 0)) (pos_part (k -ℤ kp)) 0 + get_or n_table s.j 0) % 4 in
    let next = not (eq_ℤ kp s.kpl) && not (m == 768) in
    record {
      kpl = if next then kp else s.kpl;
      j = if next then s.j + 1 else s.j;
      phases = store s.phases m phase;
    }

pub prs_phases : Buffer → Prs
prs_phases phases = for_range 1537 0 prs_round (record { kpl = negsuc 767; j = 0; phases = phases })
