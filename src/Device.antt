-- ===== src/Device.antt =====
-- The messages to the device: src/wfusb.c, src/wfleds.c, src/wftiming.c, src/wftune.c and src/wfinit.c.
-- A routine is the list of what it sends and of its pauses in microseconds; the call of the kernel that
-- sends a message is left out.
pub mod Boot
pub mod Init
pub mod Tuning
mod Examples
use opendab.Base.{
  ℕ, ◌+◌, ◌-◌, ◌*◌, ◌/◌, ◌%◌, ◌^◌, bit_and, bit_or, Bool, true, false, not, ◌==◌, if◌then◌else◌,
  List, [], ◌∷◌, ◌++◌, Buffer, for_range, window, replicate,
}
use opendab.Base.Int.{ℤ, pos, negsuc}

-- The setup packet and the data.
pub record Message : Type 0 where
  pub request_type : ℕ
  pub request : ℕ
  pub value : ℕ
  pub index : ℕ
  pub bytes : List ℕ

pub data Event : Type 0 where
  sent : Message → Event
  pause : ℕ → Event

unfoldable pub wf_usb_ctrl_msg : ℕ → ℕ → ℕ → ℕ → List ℕ → List Event
wf_usb_ctrl_msg requesttype request value index bytes =
    sent (record {
      request_type = requesttype % 2 ^ 8;
      request = request % 2 ^ 8;
      value = value % 2 ^ 16;
      index = index % 2 ^ 16;
      bytes = bytes;
    })
    ∷ []

-- `USB_TYPE_VENDOR`, and the requests.
abbrev vendor : ℕ
vendor = 2 * 2 ^ 5

abbrev slmem : ℕ
slmem = 3

abbrev wftune : ℕ
wftune = 4

abbrev wftiming : ℕ
wftiming = 5

unfoldable pub wf_sendmem : ℕ → ℕ → List ℕ → List Event
wf_sendmem value index bytes = wf_usb_ctrl_msg vendor slmem value index bytes

-- The byte of a value at a place.
abbrev pub byte : ℕ → ℕ → ℕ
byte x place = bit_and (x / 2 ^ place) 0xff

pub wf_mem_write : ℕ → ℕ → List Event
wf_mem_write addr val =
    wf_usb_ctrl_msg vendor slmem addr val (byte addr 0 ∷ byte addr 8 ∷ byte val 0 ∷ byte val 8 ∷ [])

pub wf_tune_msg : ℕ → ℕ → ℕ → Bool → List Event
wf_tune_msg reg bits pll lband = wf_usb_ctrl_msg vendor wftune 0 0 (
    byte reg 0
    ∷ byte reg 8
    ∷ byte reg 16
    ∷ byte reg 24
    ∷ bits
    ∷ 0
    ∷ pll
    ∷ 0
    ∷ (if lband then 1 else 0)
    ∷ 0
    ∷ 0
    ∷ 0x10
    ∷ [])

pub wf_timing_msg : List ℕ → List Event
wf_timing_msg bytes = wf_usb_ctrl_msg vendor wftiming 0 0 bytes

pub wf_r2_msg : List ℕ → List Event
wf_r2_msg bytes = wf_usb_ctrl_msg vendor 2 0 0x80 bytes

pub wf_r1_msg : List ℕ → List Event
wf_r1_msg bytes = wf_usb_ctrl_msg vendor 1 0 0x80 bytes

-- A component that is negative is not sent. The registers are `PWMCH2STOP`, `PWMCH1STOP` and
-- `PWMCH3STOP`.
abbrev led : ℕ → ℤ → List Event
led register (pos n) = wf_mem_write register (n % 2 ^ 16)
led register (negsuc n) = []

pub wf_leds : ℤ → ℤ → ℤ → List Event
wf_leds red blue green = led 0xc0f4 red ++ led 0xc0f0 green ++ led 0xc0f8 blue

pub wf_leds_off : List Event
unfolding wf_leds wf_mem_write wf_usb_ctrl_msg
wf_leds_off = wf_leds (pos 0x3ff) (pos 0x3ff) (pos 0x3ff)

-- The end of each message: `n` bytes of zeros, a byte, and the last eight.
abbrev timing_tail : ℕ → ℕ → List ℕ
timing_tail n byte23 = replicate n 0 ++ (byte23 ∷ 0 ∷ 0 ∷ 0 ∷ 0 ∷ 0 ∷ 0 ∷ 0x0f ∷ 0 ∷ [])

abbrev m0 : List ℕ
m0 = 0x7f ∷ 0x00 ∷ timing_tail 21 0xff

abbrev m1 : List ℕ
m1 = 0x7f ∷ 0x00 ∷ 0x00 ∷ 0xfe ∷ 0x80 ∷ 0x07 ∷ 0xe0 ∷ 0x01 ∷ 0x78 ∷ timing_tail 14 0xff

abbrev m2 : List ℕ
m2 = 0x7f ∷ 0x00 ∷ 0x00 ∷ 0xfe ∷ 0x80 ∷ 0x07 ∷ 0xe0 ∷ 0x01 ∷ 0x78 ∷ timing_tail 14 0x00

abbrev m3 : List ℕ
m3 = 0x7f ∷ 0x00 ∷ 0xff ∷ 0x7f ∷ 0xff ∷ 0xff ∷ 0xff ∷ 0xff ∷ 0xf8 ∷ 0xff ∷ timing_tail 13 0xff

abbrev m4 : List ℕ
m4 = 0x7f ∷ 0x00 ∷ 0xff ∷ 0x7f ∷ 0xff ∷ 0xff ∷ 0xff ∷ 0xff ∷ 0xf8 ∷ 0xff ∷ timing_tail 13 0x00

pub wf_timing : ℕ → List Event
wf_timing msgnum = wf_timing_msg (
    if msgnum == 0
    then m0
    else if msgnum == 1
    then m1
    else if msgnum == 2
    then m2
    else if msgnum == 3
    then m3
    else if msgnum == 4
    then m4
    else m0)

-- The lowest `len` bits of an unsigned int in the other order.
pub reverse_bits : ℕ → ℕ → ℕ
reverse_bits op len =
    for_range len 0
      (λ i j. if bit_and op (2 ^ (len - i - 1)) == 0 then j else bit_or j (2 ^ i % 2 ^ 32)) 0

-- The six messages. `f_vco` is computed in floating point from the frequency, and so is the band.
pub wf_tune : Bool → ℕ → List Event
wf_tune lband f_vco =
    wf_tune_msg (bit_or (bit_or 0x100000 (reverse_bits 256 15 * 2 ^ 5)) 0x10) 22 0 lband
    ++ wf_tune_msg
        (bit_or
          (bit_or (bit_or 0x300000 (reverse_bits 98 7 * 2 ^ 13)) (reverse_bits 152 11 * 2 ^ 2)) 2)
        22 0 lband
    ++ wf_tune_msg (bit_or (reverse_bits 256 15 * 2 ^ 5) 0x10) 22 0 lband
    ++ wf_tune_msg
        (bit_or (bit_or (bit_or 0x200000 (reverse_bits 0 7 * 2 ^ 13)) (reverse_bits 40 11 * 2 ^ 2))
          2)
        22 0 lband
    ++ wf_tune_msg (bit_or (bit_or 0x8000 (reverse_bits 1024 14 * 2)) 1) 16 1 lband
    ++ wf_tune_msg (bit_or (reverse_bits (f_vco % 64) 7 * 2 ^ 11) (reverse_bits (f_vco / 64) 11)) 19
        1 lband
