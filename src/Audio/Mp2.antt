-- ===== src/Audio/Mp2.antt =====
-- src/wfmp2.c: frames of MPEG layer II are passed on if their header is valid. With half the sampling
-- frequency a frame takes two calls, and only the first has a header.
pub mod Header
pub mod Stream
use opendab.Base.{
  ℕ, ◌+◌, ◌/◌, ◌%◌, ◌^◌, bit_and, bit_xor, Bool, true, false, not, ◌==◌, if◌then◌else◌, List, [],
  ◌∷◌, ◌++◌, Buffer, get_or, window,
}
use opendab.Base.Int.{ℤ, pos, negsuc}
use opendab.Bytes.{ipack}

abbrev pub brtab : List ℤ
brtab =
    negsuc 0
    ∷ pos 32
    ∷ pos 48
    ∷ pos 56
    ∷ pos 64
    ∷ pos 80
    ∷ pos 96
    ∷ pos 112
    ∷ pos 128
    ∷ pos 160
    ∷ pos 192
    ∷ pos 224
    ∷ pos 256
    ∷ pos 320
    ∷ pos 384
    ∷ negsuc 0
    ∷ []

abbrev pub lbrtab : List ℤ
lbrtab =
    negsuc 0
    ∷ pos 8
    ∷ pos 16
    ∷ pos 24
    ∷ pos 32
    ∷ pos 40
    ∷ pos 48
    ∷ pos 56
    ∷ pos 64
    ∷ pos 80
    ∷ pos 96
    ∷ pos 112
    ∷ pos 128
    ∷ pos 144
    ∷ pos 160
    ∷ negsuc 0
    ∷ []

-- The static variables, and what was written.
pub record Mp2 : Type 0 where
  pub header_valid : Bool
  pub header_expected : Bool
  pub out : List ℕ

-- An entry of a table is the rate.
abbrev pub is_rate : ℤ → ℕ → Bool
is_rate (pos n) bitrate = n == bitrate
is_rate (negsuc n) bitrate = false

-- `(i & HMASK) ^ HXOR`
unfoldable pub header_error : ℕ → ℕ
header_error i = bit_xor (bit_and i 0xfff70e03) 0xfff40400

-- The fields of `mp2header`.
abbrev pub id : ℕ → ℕ
id i = i / 2 ^ 19 % 2

abbrev pub bit_rate_index : ℕ → ℕ
bit_rate_index i = i / 2 ^ 12 % 2 ^ 4

-- With a header expected: what the static variables become.
pub read_header : ℕ → ℕ → Mp2 → Mp2
read_header i bitrate m =
    if not (header_error i == 0)
    then record m { header_valid = false }
    else if id i == 0
    then record m {
      header_expected = false;
      header_valid = is_rate (get_or lbrtab (bit_rate_index i) (pos 0)) bitrate;
    }
    else record m { header_valid = is_rate (get_or brtab (bit_rate_index i) (pos 0)) bitrate }

pub wfmp2 : Buffer → ℕ → ℕ → Mp2 → Mp2
wfmp2 buf len bitrate m =
    let m =
      if m.header_expected
      then read_header (ipack buf) bitrate m
      else record m { header_expected = true } in
    if m.header_valid then record m { out = m.out ++ window buf 0 len } else m
