-- ===== src/Device/Init.antt =====
-- src/wfinit.c, wf_init: what the device is sent before the loop over its packets.
use opendab.Base.{ℕ, Bool, ◌==◌, if◌then◌else◌, [], ◌∷◌, ◌++◌, List, Buffer, replicate}
use opendab.Base.Int.{pos}
use opendab.Device.{Event, pause, wf_mem_write, wf_r1_msg, wf_r2_msg, wf_leds, wf_timing, wf_tune}
use opendab.Device.Boot.{wf_boot_dsps}

-- The registers of src/wfsl11r.h that are written.
abbrev pwmctrlreg : ℕ
pwmctrlreg = 0xc0e6

abbrev pwmmaxcnt : ℕ
pwmmaxcnt = 0xc0e8

abbrev pwmch0strt : ℕ
pwmch0strt = 0xc0ea

abbrev pwmch0stop : ℕ
pwmch0stop = 0xc0ec

abbrev pwmch1strt : ℕ
pwmch1strt = 0xc0ee

abbrev pwmch1stop : ℕ
pwmch1stop = 0xc0f0

abbrev pwmcyccnt : ℕ
pwmcyccnt = 0xc0fa

abbrev pwmch2strt : ℕ
pwmch2strt = 0xc0f2

abbrev pwmch2stop : ℕ
pwmch2stop = 0xc0f4

abbrev pwmch3strt : ℕ
pwmch3strt = 0xc0f6

abbrev pwmch3stop : ℕ
pwmch3stop = 0xc0f8

abbrev ioctrlreg1 : ℕ
ioctrlreg1 = 0xc028

abbrev unk0xc120 : ℕ
unk0xc120 = 0xc120

abbrev pub outreg1 : ℕ
outreg1 = 0xc024

abbrev pub outreg0 : ℕ
outreg0 = 0xc01e

abbrev pub dacvalue : ℕ
dacvalue = 0x0366

-- Both message numbers select the same 64 zeros.
pub wf_req1req2 : ℕ → ℕ → List Event
wf_req1req2 reqnum msgnum =
    let p = if msgnum == 0 then replicate 64 0 else replicate 64 0 in
    if reqnum == 1 then wf_r1_msg p else wf_r2_msg p

-- In the order of the calls; the frequency is given as the band and the counter that `wf_tune`
-- computes from it.
pub wf_init : Buffer → Buffer → Bool → ℕ → List Event
wf_init code_b code_a lband f_vco =
    wf_req1req2 2 0
    ++ wf_mem_write pwmctrlreg 0
    ++ wf_mem_write pwmmaxcnt 0x03ff
    ++ wf_mem_write pwmch0strt 0
    ++ wf_mem_write pwmch0stop 0
    ++ wf_mem_write pwmch1strt 0
    ++ wf_mem_write pwmch1stop 0
    ++ wf_mem_write pwmcyccnt 0x03ff
    ++ wf_mem_write pwmch2strt 0
    ++ wf_mem_write pwmch2stop 0
    ++ wf_mem_write pwmch3strt 0
    ++ wf_mem_write pwmch3stop 0
    ++ wf_mem_write pwmch0strt 0
    ++ wf_mem_write pwmch0stop 0x02ff
    ++ wf_mem_write pwmch1stop 0x02ff
    ++ wf_mem_write pwmctrlreg 0x800f
    ++ wf_mem_write ioctrlreg1 0x3de0
    ++ wf_mem_write unk0xc120 0
    ++ (pause 100000 ∷ [])
    ++ wf_mem_write unk0xc120 0xffff
    ++ wf_mem_write outreg1 0x3800
    ++ wf_mem_write outreg0 0x0000
    ++ wf_mem_write outreg1 0x3000
    ++ wf_mem_write outreg1 0x3800
    ++ wf_boot_dsps code_b code_a
    ++ wf_mem_write outreg0 0x1000
    ++ wf_leds (pos 0x3ff) (pos 0x180) (pos 0x3ff)
    ++ wf_tune lband f_vco
    ++ (pause 400000 ∷ [])
    ++ wf_timing 0
    ++ (pause 4000 ∷ [])
    ++ wf_timing 1
    ++ (pause 4000 ∷ [])
    ++ wf_timing 1
    ++ (pause 4000 ∷ [])
    ++ wf_timing 2
    ++ (pause 50000 ∷ [])
    ++ wf_mem_write dacvalue 0x5330
    ++ wf_mem_write dacvalue 0x5330
    ++ (pause 77000 ∷ [])
    ++ wf_req1req2 1 1
    ++ wf_mem_write pwmctrlreg 0x800f
    ++ wf_timing 1
    ++ wf_timing 2
    ++ wf_timing 1
    ++ wf_timing 3
    ++ wf_tune lband f_vco
    ++ (pause 200000 ∷ [])
    ++ wf_timing 4
    ++ wf_tune lband f_vco
    ++ (pause 200000 ∷ [])
    ++ wf_tune lband f_vco
    ++ (pause 200000 ∷ [])
    ++ wf_mem_write dacvalue 0x5330
