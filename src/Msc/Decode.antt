-- ===== src/Msc/Decode.antt =====
-- `msc_decode` of src/wfmsc.c: a logical frame of a sub-channel, from the circular buffer to the audio
-- output. The Viterbi decoder and the Reed-Solomon decoder are parameters, as they are of the stages.
-- What `malloc` returns is any memory; the size of what is allocated is left out.
use opendab.Base.{ℕ, ◌+◌, ◌-◌, ◌/◌, not, ◌==◌, ltb, if◌then◌else◌, List, Buffer, get_or, length}
use opendab.Figs.{Subch, Symrange}
use opendab.Depuncture.{uep_depuncture, eep_depuncture}
use opendab.Wfic.Scrambler.{scramble}
use opendab.Wfic.Order.{bit_to_byte}
use opendab.Audio.Mp2.{Mp2, wfmp2}
use opendab.Audio.Superframe.{Player, Played, played, outside, wfdabplusdec}
use opendab.Msc.{Ring, time_disinterleave}

-- The static buffers, and the state of both kinds of output. They share one standard output, of which
-- each holds what it wrote.
pub record Decoder : Type 0 where
  pub lf : Buffer
  pub dpbuf : Buffer
  pub obuf : Buffer
  pub mp2 : Mp2
  pub player : Player

pub data Decoded : Type 0 where
  decoded : Decoder → Decoded
  no_result : Decoded

-- The depuncturers write their output from the start of a buffer.
abbrev pub written : List ℕ → Buffer → Buffer
written xs b i = if ltb i (length xs) then get_or xs i 0 else b i

abbrev with_player : Decoder → Played → Decoded
with_player d (played p) = decoded (record d { player = p })
with_player d outside = no_result

-- `stack` is what the local arrays of the callees held.
unfoldable pub msc_decode :
    (Buffer → ℕ → Buffer → Buffer)
    → (Buffer → Buffer)
    → Buffer
    → Subch
    → Symrange
    → Ring
    → Decoder
    → Decoded
msc_decode k_viterbi decode_rs stack s sr c d =
    let lf = time_disinterleave d.lf s.subchsz sr c in
    let symbols = (if not (s.eepprot == 0) then eep_depuncture lf s else uep_depuncture lf s).out in
    let dpbuf = written symbols d.dpbuf in
    let bits = length symbols / 4 - (7 - 1) in
    let obuf = k_viterbi dpbuf bits d.obuf in
    let dpbuf = scramble obuf dpbuf bits in
    let obuf = bit_to_byte 1 dpbuf bits obuf in
    let obytes = (bits + 7) / 8 in
    let d = record d { lf = lf; dpbuf = dpbuf; obuf = obuf } in
    if not (s.dabplus == 0)
    then with_player d (wfdabplusdec decode_rs stack obuf obytes s.bitrate d.player)
    else decoded (record d { mp2 = wfmp2 obuf obytes s.bitrate d.mp2 })
