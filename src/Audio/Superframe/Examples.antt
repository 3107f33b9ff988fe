-- ===== src/Audio/Superframe/Examples.antt =====
-- A superframe of 110 bytes for 8 kbit/s with two units, which begin at 5 and 60.
use opendab.Base.{ℕ, ◌+◌, ◌≡◌, ◌%◌, refl, arith, true, ◌==◌, if◌then◌else◌, [], ◌∷◌, ◌++◌, Buffer}
use opendab.Crc.{firecrccheck}
use opendab.Crc.Accept.{IsBytes, remainder}
use opendab.Crc.Serial.{take_off, shift_out, feed_bit, feed_bits}
use opendab.Crc.Checks.{firecrccheck_iff}
use opendab.Audio.Adts.{rates}
use opendab.Audio.Superframe.{Player, played, stream_parms, au_start}
use opendab.Audio.Superframe.Agree.{starts_of}
use opendab.Audio.Superframe.Sealed.{IsSealed, every}
use opendab.Audio.Superframe.Frames.{play_frames}
use opendab.Audio.Superframe.Delivery.{play_frames-delivers}

abbrev header : ℕ → ℕ
header i =
    if i == 0
    then 0x89
    else if i == 1
    then 0xef
    else if i == 2
    then 0x20
    else if i == 3
    then 0x03
    else if i == 4
    then 0xc0
    else 0

-- The first byte of each unit, and the checks of both.
abbrev units_at : ℕ → ℕ
units_at i =
    if i == 5
    then 7
    else if i == 58
    then 0xcd
    else if i == 59
    then 0x6a
    else if i == 60
    then 9
    else if i == 108
    then 0xed
    else if i == 109
    then 0x6c
    else 0

abbrev two_units : Buffer
two_units i = (header i + units_at i) % 256

two_units-IsBytes : IsBytes two_units
two_units-IsBytes i = omega arith

two_units_fire : firecrccheck two_units ≡ true
unfolding remainder feed_bits feed_bit shift_out take_off
two_units_fire = (firecrccheck_iff two_units two_units-IsBytes).1 refl

two_units_starts : starts_of two_units ≡ 5 ∷ 60 ∷ []
unfolding au_start stream_parms rates
two_units_starts = refl

two_units-IsSealed : IsSealed (5 ∷ 60 ∷ []) 110 two_units
unfolding remainder feed_bits feed_bit shift_out take_off
two_units-IsSealed = (refl, (refl, tt))

abbrev silent : Player
silent = record { frame = 0; sfbuf = two_units; out = [] }

-- A decoder that has nothing to correct.
play_frames-delivers_example :
    (b : Buffer) × (play_frames (λ b. b) two_units two_units 24 8 5 0 silent
      ≡ played (record {
        frame = 0;
        sfbuf = b;
        out = [] ++ every (stream_parms two_units) (starts_of two_units) 110 two_units;
      }))
unfolding au_start stream_parms rates
play_frames-delivers_example =
    play_frames-delivers (λ b. b) two_units two_units two_units 1 silent refl (omega arith)
      two_units_fire (λ i cbuf p h j q. h j (omega (arith, q))) two_units-IsBytes
      (omega arith, (omega arith, tt)) two_units-IsSealed
