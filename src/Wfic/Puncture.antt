-- ===== src/Wfic/Puncture.antt =====
-- src/wfic/puncture.c: puncturing and depuncturing of the Fast Information Channel in mode I. Log
-- files are left out; the length written is the last place, 2304 and 3096.
pub mod Places
pub mod Stores
pub mod RoundTrip
pub mod Digits
use opendab.Base.{ℕ, ◌+◌, ◌*◌, Buffer, store, for_range}

-- The place in the punctured bits, and the output.
pub record Punctured : Type 0 where
  pub k : ℕ
  pub obuf : Buffer

-- Of the four bits at `at`, the first three and the first two.
pub keep3 : Buffer → ℕ → Punctured → Punctured
keep3 ibuf at s = record {
  k = s.k + 3;
  obuf =
      store (store (store s.obuf (s.k + 0) (ibuf (at + 0))) (s.k + 1) (ibuf (at + 1))) (s.k + 2)
        (ibuf (at + 2));
}

pub keep2 : Buffer → ℕ → Punctured → Punctured
keep2 ibuf at s = record {
  k = s.k + 2;
  obuf = store (store s.obuf (s.k + 0) (ibuf (at + 0))) (s.k + 1) (ibuf (at + 1));
}

-- The three loops; `i` of the source is `32 * b`, and 24 * 128 behind the second loop.
abbrev pub rounds :
    (ℕ → Punctured → Punctured) → (ℕ → Punctured → Punctured) → Punctured → Punctured
rounds three two s =
    let s = for_range 84 0 (λ b s. for_range 8 0 (λ j s. three (32 * b + j * 4) s) s) s in
    let s =
      for_range 12 84
        (λ b s. two (32 * b + 7 * 4) (for_range 7 0 (λ j s. three (32 * b + j * 4) s) s)) s in
    for_range 6 0 (λ j s. two (24 * 128 + j * 4) s) s

pub puncture : Buffer → Buffer → Buffer
puncture ibuf obuf = (rounds (keep3 ibuf) (keep2 ibuf) (record { k = 0; obuf = obuf })).obuf

-- The four bits at `at` out of three and out of two; 8 marks a bit that was punctured.
pub restore3 : Buffer → ℕ → Punctured → Punctured
restore3 ibuf at s = record {
  k = s.k + 3;
  obuf =
      store
        (store (store (store s.obuf (at + 0) (ibuf (s.k + 0))) (at + 1) (ibuf (s.k + 1))) (at + 2)
          (ibuf (s.k + 2)))
        (at + 3) 8;
}

pub restore2 : Buffer → ℕ → Punctured → Punctured
restore2 ibuf at s = record {
  k = s.k + 2;
  obuf =
      store
        (store (store (store s.obuf (at + 0) (ibuf (s.k + 0))) (at + 1) (ibuf (s.k + 1))) (at + 2)
          8)
        (at + 3) 8;
}

pub depuncture : Buffer → Buffer → Buffer
depuncture ibuf obuf = (rounds (restore3 ibuf) (restore2 ibuf) (record { k = 0; obuf = obuf })).obuf
