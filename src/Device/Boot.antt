-- ===== src/Device/Boot.antt =====
-- src/wfinit.c, wf_boot_dsps: the code of the two signal processors is sent in frames. The files are
-- memory that is given; errors in reading them end the program and are left out.
pub mod Upload
use opendab.Base.{
  ℕ, zero, suc, ◌+◌, ◌-◌, ◌*◌, ◌/◌, ◌%◌, ◌^◌, bit_and, bit_or, ltb, if◌then◌else◌, List, [], ◌∷◌,
  ◌++◌, Buffer, store, for_range, window,
}
use opendab.Device.{Event, wf_sendmem}

-- The registers of src/wfsl11r.h.
abbrev pub hpic_a : ℕ
hpic_a = 0x8000

abbrev pub hpid_a : ℕ
hpid_a = 0x8002

abbrev pub hpia_a : ℕ
hpia_a = 0x8004

abbrev pub hpic_b : ℕ
hpic_b = 0xc110

abbrev pub hpid_b : ℕ
hpid_b = 0xc112

abbrev pub hpia_b : ℕ
hpia_b = 0xc114

-- The six bytes of `rbuf`: three words, each with the low byte first.
abbrev word_bytes : ℕ → List ℕ
word_bytes w = w % 2 ^ 8 ∷ w / 2 ^ 8 % 2 ^ 8 ∷ []

pub send_words : ℕ → ℕ → ℕ → List Event
send_words a b c = wf_sendmem 0 0 (word_bytes a ++ word_bytes b ++ word_bytes c)

-- A full frame: thirty bytes of code, each in front of a byte that stays as it is.
pub fill_frame : Buffer → ℕ → Buffer → Buffer
fill_frame cbuf remain ubuf =
    for_range 30 0 (λ k b. store b (2 * k + 2) (cbuf (0x2001 - (remain - k)))) ubuf

-- The last frame, of `remain` bytes.
pub fill_last : Buffer → ℕ → Buffer → Buffer
fill_last cbuf remain ubuf =
    for_range remain 0 (λ k b. store b (2 * k + 2) (cbuf (0x2000 - (remain - k)))) ubuf

-- `while (remain > 0)`, on fuel: each round sends at least one byte.
unfoldable pub frames_loop : ℕ → Buffer → ℕ → ℕ → Buffer → List Event
frames_loop zero cbuf datareg remain ubuf = []
frames_loop (suc fuel) cbuf datareg remain ubuf =
    let full = fill_frame cbuf remain ubuf in
    let rest = frames_loop fuel cbuf datareg (remain - 30) full in
    if ltb 30 remain
    then wf_sendmem datareg 0 (window full 0 62) ++ rest
    else if ltb 0 remain
    then wf_sendmem datareg 0 (window (fill_last cbuf remain ubuf) 0 (remain * 2))
    else []

-- The first two bytes are those of the register, the others 0 at first.
abbrev pub empty_frame : ℕ → Buffer
empty_frame datareg k =
    if ltb k 1 then datareg % 2 ^ 8 else if ltb k 2 then datareg / 2 ^ 8 % 2 ^ 8 else 0

-- The round of the loop over the files.
pub boot_dsp : ℕ → ℕ → Buffer → List Event
boot_dsp addrreg datareg cbuf =
    send_words addrreg 0x007f 0x0000
    ++ frames_loop 270 cbuf datareg (0x2000 - 0x80 + 1) (empty_frame datareg)

-- `*cbuf | (*(cbuf + 1) << 8)`
abbrev entry_pt : Buffer → ℕ
entry_pt cbuf = bit_or (cbuf 0) (cbuf 1 * 2 ^ 8)

-- The files rsDSPb.bin and rsDSPa.bin, in the order in which they are read.
pub wf_boot_dsps : Buffer → Buffer → List Event
wf_boot_dsps code_b code_a =
    send_words hpia_b 0x00e0 0x0000
    ++ send_words hpid_b 0x0000 0x0000
    ++ send_words hpic_b 0x0001 0x0001
    ++ send_words hpic_a 0x0001 0x0001
    ++ boot_dsp hpia_b hpid_b code_b
    ++ boot_dsp hpia_a hpid_a code_a
    ++ send_words hpia_a 0x007e 0x0000
    ++ send_words hpia_b 0x007e 0x0000
    ++ send_words hpid_a (bit_and (entry_pt code_a) 0xff) (bit_and (entry_pt code_a) 0xff00 / 2 ^ 8)
    ++ send_words hpid_b (bit_and (entry_pt code_b) 0xff) (bit_and (entry_pt code_b) 0xff00 / 2 ^ 8)
    ++ send_words hpia_b 0x00ff 0x003e
    ++ send_words hpid_b 0x00 0x00
    ++ send_words hpid_b 0x00 0x00
    ++ send_words hpia_a 0x00ff 0x001f
    ++ send_words hpia_b 0xff 0x1f
