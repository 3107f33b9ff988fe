-- ===== src/Prsgen/Examples.antt =====
-- The first carrier of block 1, and a row of the table.
use opendab.Base.{◌≡◌, ◌≢◌, arith, get_or, Buffer}
use opendab.Prsgen.{h_table, h_row, prs_phases}
use opendab.Prsgen.Phases.{prs_phases_lem}

abbrev zeros : Buffer
zeros i = 0

-- Its own entries say 2 quarters.
prs_phases_lem_example : (prs_phases zeros).phases 32 ≡ 1
prs_phases_lem_example = prs_phases_lem zeros 1 0 (omega arith) (omega arith)

row_with_less : get_or (h_table 1) 2 0 ≢ get_or (h_row 1) 2 0
row_with_less e = omega (arith, e)
