-- ===== src/Device/Examples.antt =====
-- A message to the tuner, and the upload of a file that counts its bytes.
use opendab.Base.{◌+◌, ◌-◌, ◌%◌, ◌≡◌, arith, false, ◌++◌, Buffer, window}
use opendab.Device.{wf_tune}
use opendab.Device.Tuning.{divider, register, last_data, wf_tune-divider}
use opendab.Device.Boot.{frames_loop, empty_frame, hpid_b}
use opendab.Device.Boot.Upload.{uploaded, boot_upload}

abbrev counting : Buffer
counting i = i % 256

-- 225.648 MHz and the intermediate frequency, in units of 16 kHz.
wf_tune-divider_example : divider (register (last_data (wf_tune false 16535))) ≡ 16535
wf_tune-divider_example = wf_tune-divider false 16535 (omega arith)

boot_upload_example :
    uploaded (frames_loop 270 counting hpid_b (0x2000 - 0x80 + 1) (empty_frame hpid_b))
    ≡ window counting 0x80 8040 ++ window counting 0x1fe7 24
boot_upload_example = boot_upload counting (empty_frame hpid_b) hpid_b
