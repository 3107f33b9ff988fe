-- ===== src/Depuncture/Counts.antt =====
-- How many bits a block takes in and puts out.
use opendab.Base.{
  ℕ, zero, suc, ◌+◌, ◌-◌, ◌*◌, ◌%◌, ◌^◌, ◌≡◌, refl, sym, ap, ap₂, ◌∙◌, arith, Bool, not, ◌==◌,
  if◌then◌else◌, List, [], ◌∷◌, ◌++◌, append_assoc, append-nil, Buffer, for_range, get_or, length,
  length-append, Bool-cases, inl, inr,
}
use opendab.Depuncture.{Stream, kept, emit, block}

-- The bits kept among `n` from position `i` on.
unfoldable pub ones : List ℕ → ℕ → ℕ → ℕ
ones v zero i = 0
ones v (suc n) i = (if kept v i then 1 else 0) + ones v n (i + 1)

-- What a block puts out, from the input at `j` on.
unfoldable pub spread : List ℕ → Buffer → ℕ → ℕ → ℕ → List ℕ
spread v inbuf zero i j = []
spread v inbuf (suc n) i j =
    (if kept v i then (128 - 1 + inbuf j * 2) % 2 ^ 8 else 128)
    ∷ spread v inbuf n (i + 1) (if kept v i then j + 1 else j)

abbrev stream : ℕ → List ℕ → Stream
stream j out = record { j = j; out = out }

run_block :
    (v : List ℕ) (inbuf : Buffer) (n i j : ℕ) (out : List ℕ)
    → for_range n i (emit v inbuf) (stream j out)
      ≡ stream (j + ones v n i) (out ++ spread v inbuf n i j)
unfolding for_range emit ones spread
run_block v inbuf zero i j out = ap₂ stream (omega arith) (sym (append-nil out))
run_block v inbuf (suc n) i j out = elim (Bool-cases (kept v i)) [
  | inl e ↦ rw e (
      run_block v inbuf n (i + 1) (j + 1) (out ++ ((128 - 1 + inbuf j * 2) % 2 ^ 8 ∷ []))
      ∙ ap₂ stream (omega arith) (append_assoc out _ _))
  | inr e ↦ rw e (
      run_block v inbuf n (i + 1) j (out ++ (128 ∷ []))
      ∙ ap₂ stream (omega arith) (append_assoc out _ _))
]

-- A block takes in as many bits as its vector keeps, and appends one value for each position.
pub block_lem :
    (v : List ℕ) (inbuf : Buffer) (n : ℕ) (s : Stream)
    → block v inbuf n s ≡ record { j = s.j + ones v n 0; out = s.out ++ spread v inbuf n 0 s.j }
unfolding block
block_lem v inbuf n s = run_block v inbuf n 0 s.j s.out

pub length-spread : (v : List ℕ) (inbuf : Buffer) (n i j : ℕ) → length (spread v inbuf n i j) ≡ n
unfolding spread
length-spread v inbuf zero i j = refl
length-spread v inbuf (suc n) i j =
    ap suc (length-spread v inbuf n (i + 1) (if kept v i then j + 1 else j))

ones_at : (v : List ℕ) (n n' i i' : ℕ) → n ≡ n' → i ≡ i' → ones v n i ≡ ones v n' i'
ones_at v n n' i i' p q = ap₂ (ones v) p q

ones_split : (v : List ℕ) (m n i : ℕ) → ones v (m + n) i ≡ ones v m i + ones v n (i + m)
unfolding ones
ones_split v zero n i =
    ones_at v (zero + n) n i (i + zero) (omega arith) (omega arith) ∙ omega arith
ones_split v (suc m) n i = omega (
  arith,
  ones_at v (suc m + n) (suc (m + n)) i i (omega arith) refl,
  ones_split v m n (i + 1),
  ones_at v n n (i + 1 + m) (i + suc m) refl (omega arith),
)

ones_period : (v : List ℕ) (n i : ℕ) → ones v n (i + 32) ≡ ones v n i
unfolding ones
ones_period v zero i = refl
ones_period v (suc n) i =
    ap₂ (λ (b : Bool) (t : ℕ). (if b then 1 else 0) + t) same
      (ones_at v n n (i + 32 + 1) (i + 1 + 32) refl (omega arith) ∙ ones_period v n (i + 1))
  where
    place : (i + 32) % 32 ≡ i % 32
    place = omega arith

    same : kept v (i + 32) ≡ kept v i
    same = ap (λ t. not (get_or v t 0 == 0)) place

ones_from : (v : List ℕ) (n m : ℕ) → ones v n (m * 32) ≡ ones v n 0
ones_from v n zero = refl
ones_from v n (suc m) =
    ones_at v n n (suc m * 32) (m * 32 + 32) refl (omega arith)
    ∙ ones_period v n (m * 32)
    ∙ ones_from v n m

-- Vectors repeat every 32 positions.
pub ones_times : (v : List ℕ) (m : ℕ) → ones v (m * 32) 0 ≡ m * ones v 32 0
ones_times v zero = unfold ones in omega arith
ones_times v (suc m) = omega (
  arith,
  ones_at v (suc m * 32) (m * 32 + 32) 0 0 (omega arith) refl,
  ones_split v (m * 32) 32 0,
  ones_at v 32 32 (0 + m * 32) (m * 32) refl (omega arith),
  ones_from v 32 m,
  ones_times v m,
)

-- A block of `128 * m` positions.
pub block_counts :
    (v : List ℕ) (inbuf : Buffer) (m : ℕ) (s : Stream)
    → ((block v inbuf (128 * m) s).j ≡ s.j + 4 * m * ones v 32 0)
      × (length (block v inbuf (128 * m) s).out ≡ length s.out + 128 * m)
block_counts v inbuf m s = (
  ap (λ (t : Stream). t.j) (block_lem v inbuf (128 * m) s)
      ∙ omega
          (arith, ones_at v (128 * m) (4 * m * 32) 0 0 (omega arith) refl, ones_times v (4 * m)),
  ap (λ (t : Stream). length t.out) (block_lem v inbuf (128 * m) s)
      ∙ length-append s.out _
      ∙ omega (arith, length-spread v inbuf (128 * m) 0 s.j),
)

pub last_counts :
    (v : List ℕ) (inbuf : Buffer) (s : Stream)
    → ((block v inbuf 24 s).j ≡ s.j + ones v 24 0)
      × (length (block v inbuf 24 s).out ≡ length s.out + 24)
last_counts v inbuf s = (
  ap (λ (t : Stream). t.j) (block_lem v inbuf 24 s),
  ap (λ (t : Stream). length t.out) (block_lem v inbuf 24 s)
      ∙ length-append s.out _
      ∙ omega (arith, length-spread v inbuf 24 0 s.j),
)
