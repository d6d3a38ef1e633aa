-- ===== src/Crc/Tests.antt =====
-- The theorems of crc.c at concrete values.
use motorola_external_greybu.Prelude.{ℕ, ◌/◌, ◌%◌, ◌<◌, ◌≡◌, List, [], ◌∷◌, ◌++◌, get_or, arith}
use motorola_external_greybu.Crc.{crc16_lookup_tbl, crc16_calc}
use motorola_external_greybu.Crc.Table.{remainder, crc16_lookup_tbl_lem}
use motorola_external_greybu.Crc.Check.{crc16_calc-check}

crc16_lookup_tbl_lem_example :
    (get_or crc16_lookup_tbl 3 0 ≡ remainder 3) × (get_or crc16_lookup_tbl 3 0 < 65536)
crc16_lookup_tbl_lem_example = crc16_lookup_tbl_lem 3 (omega arith)

abbrev digits : List ℕ
digits = 49 ∷ 50 ∷ 51 ∷ []

crc16_calc-check_example :
    let sum = crc16_calc 0 digits in
    (sum < 65536) × (crc16_calc 0 (digits ++ (sum % 256 ∷ sum / 256 ∷ [])) ≡ 0)
crc16_calc-check_example = crc16_calc-check 0 digits (omega arith)
