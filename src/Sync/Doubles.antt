-- ===== src/Sync/Doubles.antt =====
-- What src/wfravg.c, src/wfafc.c and src/wfsync.c compute with doubles: their type and operations are a
-- parameter.
use opendab.Base.{ℕ, ◌+◌, ◌-◌, ◌*◌, ◌/◌, ◌%◌, ◌^◌, Bool}
use opendab.Base.Int.{ℤ, pos, negsuc}

pub record Doubles : Type 1 where
  pub Double : Type 0
  pub zero_d : Double
  pub plus : Double → Double → Double
  -- the quotient by an int
  pub over : Double → ℕ → Double
  -- `x > b || x < -b`
  pub beyond : ℕ → Double → Bool
  -- the first value of `offset` in `wf_afc`, and its next ones: `afcv * -2.2e-5 + offset`, and `offset`
  -- with 1/4096 taken off or put on
  pub first_offset : Double
  pub coarse : Double → Double → Double
  pub fine : Double → Double → Double
  -- `(int)(a * 65535)`
  pub dac : Double → ℤ
  -- the int of `ir * 81.66400146484375`, and of `ir * 1.024`
  pub to_w1 : Double → ℤ
  pub to_w2 : Double → ℤ

-- The low 16 bits of an int.
abbrev pub word : ℤ → ℕ
word (pos n) = n % 2 ^ 16
word (negsuc n) = 2 ^ 16 - 1 - n % 2 ^ 16

-- A `struct timespec`, and the milliseconds that are made of it.
pub record Timespec : Type 0 where
  pub tv_sec : ℕ
  pub tv_nsec : ℕ

unfoldable pub milliseconds : Timespec → ℕ
milliseconds tp = tp.tv_sec % 1000000 * 1000 + tp.tv_nsec / 1000000
