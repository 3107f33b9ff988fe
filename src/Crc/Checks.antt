-- ===== src/Crc/Checks.antt =====
-- The three checks of the source, against the bit-serial division.
use opendab.Base.{
  ℕ, ◌+◌, ◌*◌, ◌/◌, ◌%◌, ◌^◌, ◌<◌, ◌≤◌, ◌≡◌, ◌≢◌, ◌↔◌, ◌==◌, ap, sym, ◌∙◌, arith, true, ==_iff,
  Buffer, window, bit_and,
}
use opendab.Base.Bits.{bit_and-byte}
use opendab.Crc.{crctab, crc16tab, ftab, crc_loop, crccheck, crc16check, firecrccheck}
use opendab.Crc.Table.{crctab-IsTable, crc16tab-IsTable, ftab-IsTable}
use opendab.Crc.Accept.{
  IsBytes, remainder, crc_loop-eq-remainder, crc_loop-lt, last_two_iff, burst_detected,
  crc_loop_ext,
}

-- A message of `len + 2` bytes passes `crccheck` exactly when its last two bytes, high byte first,
-- are the remainder of the first `len` by x^16 + x^12 + x^5 + 1, started from 0xffff; likewise
-- `crc16check` with x^16 + x^15 + x^2 + 1. The remainder is that of the bit-serial division.
pub crccheck_iff :
    (buf : Buffer) (len : ℕ)
    → IsBytes buf
    → ((crccheck buf (len + 2) ≡ true)
        ↔ (buf len * 256 + buf (len + 1) ≡ remainder 0x1021 0xffff (window buf 0 len)))
      × ((crc16check buf (len + 2) ≡ true)
          ↔ (buf len * 256 + buf (len + 1) ≡ remainder 0x8005 0xffff (window buf 0 len)))
unfolding crccheck crc16check
crccheck_iff buf len bytes = (
  (λ h. ccitt.0 ((==_iff _ 0).0 h) ∙ first, λ e. (==_iff _ 0).1 (ccitt.1 (e ∙ sym first))),
  (λ h. ansi.0 ((==_iff _ 0).0 h) ∙ second, λ e. (==_iff _ 0).1 (ansi.1 (e ∙ sym second))),
)
  where
    ccitt :
        (crc_loop crctab (len + 2) buf 0 0xffff ≡ 0)
        ↔ (buf len * 256 + buf (len + 1) ≡ crc_loop crctab len buf 0 0xffff)
    ccitt = last_two_iff 0x1021 crctab crctab-IsTable len buf 0xffff bytes (omega arith)

    ansi :
        (crc_loop crc16tab (len + 2) buf 0 0xffff ≡ 0)
        ↔ (buf len * 256 + buf (len + 1) ≡ crc_loop crc16tab len buf 0 0xffff)
    ansi = last_two_iff 0x8005 crc16tab crc16tab-IsTable len buf 0xffff bytes (omega arith)

    first : crc_loop crctab len buf 0 0xffff ≡ remainder 0x1021 0xffff (window buf 0 len)
    first = crc_loop-eq-remainder 0x1021 crctab crctab-IsTable len buf 0 0xffff bytes (omega arith)

    second : crc_loop crc16tab len buf 0 0xffff ≡ remainder 0x8005 0xffff (window buf 0 len)
    second =
        crc_loop-eq-remainder 0x8005 crc16tab crc16tab-IsTable len buf 0 0xffff bytes (omega arith)

-- Two messages of one length that both pass `crccheck`, and that agree outside two adjacent bytes,
-- agree in these bytes too: a burst of errors within two adjacent bytes is always detected.
crccheck_burst :
    (len k : ℕ) (a b : Buffer)
    → IsBytes a
    → IsBytes b
    → k + 2 ≤ len
    → ((j : ℕ) → j ≢ k → j ≢ k + 1 → a j ≡ b j)
    → crccheck a len ≡ true
    → crccheck b len ≡ true
    → (a k ≡ b k) × (a (k + 1) ≡ b (k + 1))
unfolding crccheck
crccheck_burst len k a b ha hb fits same pa pb =
    burst_detected 0x1021 crctab crctab-IsTable len k 0xffff a b ha hb (omega arith) fits same
      ((==_iff _ 0).0 pa ∙ sym ((==_iff _ 0).0 pb))

-- `crccheck` reads the bytes of the message only.
pub crccheck_ext :
    (len : ℕ) (a b : Buffer) → ((j : ℕ) → j < len → a j ≡ b j) → crccheck a len ≡ crccheck b len
unfolding crccheck
crccheck_ext len a b same =
    ap (λ (crc : ℕ). crc == 0)
      (crc_loop_ext 0x1021 crctab crctab-IsTable len a b 0 0xffff
        (λ j p q. same j (omega (arith, q))))

-- `firecrccheck` accepts exactly when bytes 0 and 1 are the remainder of bytes 2 to 10 by the Fire
-- code's generator, started from 0.
pub firecrccheck_iff :
    (buf : Buffer)
    → IsBytes buf
    → (firecrccheck buf ≡ true) ↔ (buf 0 * 256 + buf 1 ≡ remainder 0x782f 0 (window buf 2 9))
unfolding firecrccheck
firecrccheck_iff buf bytes = (
  λ h. ground (arith, bytes 0, bytes 1, high, low, small) ∙ serial,
  λ e. ground (arith, bytes 0, bytes 1, high, low, small, e ∙ sym serial),
)
  where
    crc : ℕ
    crc = crc_loop ftab 9 buf 2 0

    serial : crc ≡ remainder 0x782f 0 (window buf 2 9)
    serial = crc_loop-eq-remainder 0x782f ftab ftab-IsTable 9 buf 2 0 bytes (omega arith)

    small : crc < 2 ^ 16
    small = crc_loop-lt 0x782f ftab ftab-IsTable 9 buf 2 0 bytes (omega arith)

    high : bit_and (crc / 2 ^ 8) 0xff ≡ crc / 2 ^ 8 % 256
    high = bit_and-byte (crc / 2 ^ 8)

    low : bit_and crc 0xff ≡ crc % 256
    low = bit_and-byte crc
