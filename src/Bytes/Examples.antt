-- ===== src/Bytes/Examples.antt =====
-- Four bytes in both orders.
use opendab.Base.{◌≡◌, arith, [], ◌∷◌, Buffer, holding}
use opendab.Bytes.{ipack, spack, iswab, sswab, bigend, load_short, load_int, pack_lem}

abbrev four : Buffer
four = holding (1 ∷ 2 ∷ 3 ∷ 4 ∷ [])

pack_lem_example :
    (spack four ≡ 0x102)
    × (sswab (load_short four) ≡ spack four)
    × (ipack four ≡ 0x1020304)
    × (bigend (load_int four) ≡ ipack four)
    × (iswab (load_int four) ≡ 0x3040102)
pack_lem_example = pack_lem four (omega arith) (omega arith) (omega arith) (omega arith)
