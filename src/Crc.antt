-- ===== src/Crc.antt =====
-- The table-driven checks of src/wfcrc.c (crccheck, crc16check) and src/wffirecrc.c
-- (firecrccheck). The bytes that a check reads are given as memory behind its pointer.
mod Tables
pub mod Serial
pub mod Table
pub mod Accept
pub mod Checks
mod Examples
use opendab.Base.{
  ℕ, zero, suc, ◌+◌, ◌*◌, ◌/◌, ◌%◌, ◌^◌, bit_and, bit_xor, Bool, ◌&&◌, ◌==◌, List, Buffer, get_or,
}
unfoldable pub use Tables.{crctab, crc16tab, ftab}

-- The loop's body: `crc = (crc << 8) ^ tab[((crc >> 8) ^ *ptr++) & 0xff]`, in an unsigned short.
pub crc_step : List ℕ → ℕ → ℕ → ℕ
crc_step tab crc byte =
    bit_xor (crc * 2 ^ 8) (get_or tab (bit_and (bit_xor (crc / 2 ^ 8) byte) 0xff) 0) % 2 ^ 16

-- `while (len--)`, from offset `i` on.
pub crc_loop : List ℕ → ℕ → Buffer → ℕ → ℕ → ℕ
crc_loop tab zero buf i crc = crc
crc_loop tab (suc len) buf i crc = crc_loop tab len buf (i + 1) (crc_step tab crc (buf i))

pub crccheck : Buffer → ℕ → Bool
crccheck buf len = crc_loop crctab len buf 0 0xffff == 0

pub crc16check : Buffer → ℕ → Bool
crc16check buf len = crc_loop crc16tab len buf 0 0xffff == 0

pub firecrccheck : Buffer → Bool
firecrccheck buf =
    let crc = crc_loop ftab 9 buf 2 0 in
    (bit_and (crc / 2 ^ 8) 0xff == buf 0) && (bit_and crc 0xff == buf 1)
