-- ===== src/Wfic/Interleaver.antt =====
-- src/wfic/interleaver.c: QPSK symbol mapping and frequency interleaving for transmission mode I.
mod Inverse
pub mod RoundTrip
pub use Inverse.{inverse_rows}
use opendab.Base.{
  ℕ, zero, suc, ◌+◌, ◌-◌, ◌*◌, ◌%◌, Bool, not, ◌&&◌, ◌==◌, leb, if◌then◌else◌, List, [], ◌∷◌,
  Buffer, store, for_range, get_or,
}
use opendab.Base.Int.{ℤ, pos, sub_ℕ, ltb_ℤ, ◌+ℤ◌, ◌-ℤ◌, pos_part}

-- `#define K 1536`, the number of carriers.
abbrev pub carriers : ℕ
carriers = 1536

unfoldable pub qpsk_symbol_mapper : Buffer → Buffer → Buffer
qpsk_symbol_mapper p q =
    for_range carriers 0 (λ n q. store (store q (2 * n + 0) (p n)) (2 * n + 1) (p (n + carriers))) q

pub qpsk_symbol_demapper : Buffer → Buffer → Buffer
qpsk_symbol_demapper q p =
    for_range carriers 0 (λ n p. store (store p n (q (2 * n + 0))) (n + carriers) (q (2 * n + 1))) p

-- The array KI of `init_table49`: `n` entries from the current one on.
pub ki_entries : ℕ → ℕ → List ℕ
ki_entries zero k = []
ki_entries (suc n) k = k ∷ ki_entries n ((13 * k + 511) % 2048)

-- The second loop: `table49[n] = KI[i] - 1024` for the entries in range.
pub select : List ℕ → List ℤ
select [] = []
select (k ∷ ks) =
    let rest = select ks in
    if leb 256 k && leb k 1792 && not (k == 1024) then sub_ℕ k 1024 ∷ rest else rest

pub init_table49 : List ℤ
unfolding ki_entries select
init_table49 = select (ki_entries 2048 0)

-- The number of a carrier, from its offset to the centre, which itself is not used.
pub carrier_number : ℤ → ℕ
unfolding ◌+ℤ◌ ◌-ℤ◌
carrier_number k =
    if ltb_ℤ k (pos 0)
    then pos_part (pos 768 +ℤ k)
    else if ltb_ℤ (pos 0) k
    then pos_part (pos 768 +ℤ k -ℤ pos 1)
    else pos_part k

-- `k` of both loops; `table49` is the global array, of which entries not set are 0.
pub carrier : ℕ → ℕ
carrier n = carrier_number (get_or init_table49 n (pos 0))

unfoldable pub frequency_interleaver : Buffer → Buffer → Buffer
frequency_interleaver q y =
    for_range carriers 0
      (λ n y.
        let k = carrier n in
        store (store y (2 * k + 0) (q (2 * n + 0))) (2 * k + 1) (q (2 * n + 1)))
      y

pub frequency_deinterleaver : Buffer → Buffer → Buffer
frequency_deinterleaver y q =
    for_range carriers 0
      (λ n q.
        let k = carrier n in
        store (store q (2 * n + 0) (y (2 * k + 0))) (2 * n + 1) (y (2 * k + 1)))
      q
