-- ===== src/Sync/Blocks.antt =====
-- What the buffer of `prs_assemble` holds.
use native.Mathlib.Decide.{ℕ_discrete}
use opendab.Base.{
  ℕ, zero, suc, ◌+◌, ◌*◌, ◌/◌, ◌%◌, ◌^◌, ◌<◌, ◌≡◌, ◌≢◌, refl, sym, ap, ◌∙◌, arith, bit_or, Bool,
  true, false, ◌==◌, ltb, ltb→lt, if◌then◌else◌, Buffer, shift, memcpy, ==_iff, Bool-cases, inl,
  inr,
}
use opendab.Base.Copy.{memcpy_in, memcpy_out}
use opendab.Base.Check.{all_below, all_below_sound}
use opendab.Sync.{PrsAssembly, prs_assemble}

-- Block `k` was seen.
abbrev pub seen : ℕ → ℕ → Bool
seen flags k = flags / 2 ^ k % 2 == 1

-- With the last block seen of each number as `latest`: the blocks that the flags tell of are in the
-- buffer.
pub record IsAssembled (latest : ℕ → Buffer) (a : PrsAssembly) : Type 0 where
  pub bounded : a.seen_flags < 16
  pub known :
      (k x : ℕ) → k < 4 → x < 512 → seen a.seen_flags k ≡ true → a.prsbuf (512 * k + x) ≡ latest k x

-- The same with the block of a packet in its place.
abbrev pub with_block : (ℕ → Buffer) → Buffer → ℕ → Buffer
with_block latest rdbuf k = if k == rdbuf 7 then shift rdbuf 12 else latest k

-- What a block's flag does to the others.
flags_after : ℕ → ℕ → ℕ
flags_after f b = bit_or f (2 ^ b) % 2 ^ 8

same : Bool → Bool → Bool
same true b = b
same false true = false
same false false = true

same_sound : (a b : Bool) → same a b ≡ true → a ≡ b
unfolding same
same_sound true true h = refl
same_sound true false h = sym h
same_sound false true h = h
same_sound false false h = refl

flags_test : ℕ → ℕ → ℕ → Bool
flags_test f b k = same (seen (flags_after f b) k) (if k == b then true else seen f k)

flags_table : all_below 256 (λ n. flags_test (n / 16) (n / 4 % 4) (n % 4)) ≡ true
unfolding all_below flags_test flags_after same
flags_table = refl

bounded_table : all_below 64 (λ n. ltb (flags_after (n / 4) (n % 4)) 16) ≡ true
unfolding all_below flags_after
bounded_table = refl

flags_lem :
    (f b k : ℕ)
    → f < 16
    → b < 4
    → k < 4
    → (flags_after f b < 16) × (seen (flags_after f b) k ≡ (if k == b then true else seen f k))
unfolding flags_test
flags_lem f b k hf hb hk =
    let f4 : (f * 4 + b) / 4 ≡ f = omega (arith, hb) in
    let b4 : (f * 4 + b) % 4 ≡ b = omega (arith, hb) in
    let f16 : (f * 16 + b * 4 + k) / 16 ≡ f = omega (arith, hb, hk) in
    let b16 : (f * 16 + b * 4 + k) / 4 % 4 ≡ b = omega (arith, hb, hk) in
    let k16 : (f * 16 + b * 4 + k) % 4 ≡ k = omega (arith, hk) in
    (
      ltb→lt _ _ (
          rw (f4, b4) at
            (all_below_sound 64 (λ n. ltb (flags_after (n / 4) (n % 4)) 16) (f * 4 + b)
              bounded_table (omega (arith, hf, hb)))),
      same_sound (seen (flags_after f b) k) (if k == b then true else seen f k) (
          rw (f16, b16, k16) at
            (all_below_sound 256 (λ n. flags_test (n / 16) (n / 4 % 4) (n % 4)) (f * 16 + b * 4 + k)
              flags_table (omega (arith, hf, hb, hk)))),
    )

-- The buffer after a packet, and the flags before they are cleared.
joined-IsAssembled :
    (latest : ℕ → Buffer) (rdbuf : Buffer) (a : PrsAssembly)
    → rdbuf 7 < 4
    → IsAssembled latest a
    → IsAssembled (with_block latest rdbuf) (record {
      seen_flags = flags_after a.seen_flags (rdbuf 7);
      prsbuf = memcpy a.prsbuf (rdbuf 7 * 512) (shift rdbuf 12) 512;
    })
joined-IsAssembled latest rdbuf a h v = record {
  bounded = (flags_lem a.seen_flags (rdbuf 7) 0 v.bounded h (omega arith)).0;
  known = λ k x p q s. elim (ℕ_discrete k (rdbuf 7)) [
    | yes e ↦
        ap (memcpy a.prsbuf (rdbuf 7 * 512) (shift rdbuf 12) 512)
          (let m : 512 * k + x ≡ rdbuf 7 * 512 + x = omega (arith, e) in m)
        ∙ memcpy_in a.prsbuf (shift rdbuf 12) (rdbuf 7 * 512) 512 x q
        ∙ rw ((==_iff k (rdbuf 7)).1 e) refl
    | no ne ↦
        let other : (k == rdbuf 7) ≡ false = differs k (rdbuf 7) ne in
        memcpy_out a.prsbuf (shift rdbuf 12) (rdbuf 7 * 512) 512 (512 * k + x)
          (λ e. omega (arith, e, ne, q))
        ∙ v.known k x p q
            (sym ((flags_lem a.seen_flags (rdbuf 7) k v.bounded h p).1 ∙ rw other refl) ∙ s)
        ∙ rw other refl
  ];
}
  where
    differs : (k b : ℕ) → k ≢ b → (k == b) ≡ false
    differs k b ne = ground (arith, ne)

-- Cleared flags tell of nothing, and block 0 alone is what the flags 1 tell of.
first-IsAssembled :
    (latest : ℕ → Buffer) (rdbuf : Buffer) (a : PrsAssembly)
    → rdbuf 7 ≡ 0
    → IsAssembled
        (with_block latest rdbuf)
        (record { seen_flags = 1; prsbuf = memcpy a.prsbuf 0 (shift rdbuf 12) 512 })
first-IsAssembled latest rdbuf a e = record {
  bounded = omega arith;
  known = λ k x p q s.
      let zeroth : k ≡ 0 = only k p s in
      rw (zeroth, e) (memcpy_in a.prsbuf (shift rdbuf 12) 0 512 x q);
}
  where
    only : (k : ℕ) → k < 4 → seen 1 k ≡ true → k ≡ 0
    only zero p s = refl
    only (suc zero) p s = ground (arith, s)
    only (suc (suc zero)) p s = ground (arith, s)
    only (suc (suc (suc zero))) p s = ground (arith, s)
    only (suc (suc (suc (suc k)))) p s = absurd (omega (arith, p))

-- A packet with block 0 to 3 keeps it that the buffer holds each block that the flags tell of, as the
-- last packet with its number brought it.
pub prs_assemble-IsAssembled :
    (latest : ℕ → Buffer) (rdbuf : Buffer) (a : PrsAssembly)
    → rdbuf 7 < 4
    → IsAssembled latest a
    → IsAssembled (with_block latest rdbuf) (prs_assemble rdbuf a).0
unfolding prs_assemble flags_after
prs_assemble-IsAssembled latest rdbuf a h v = elim (Bool-cases (rdbuf 7 == 0)) [
  | inl e ↦ rw e (first-IsAssembled latest rdbuf a ((==_iff (rdbuf 7) 0).0 e))
  | inr e ↦ elim (Bool-cases (flags_after a.seen_flags (rdbuf 7) == 15)) [
    | inl f ↦ rw (e, f) (record { bounded = omega arith; known = λ k x p q s. absurd (none k p s) })
    | inr f ↦ rw (e, f) (joined-IsAssembled latest rdbuf a h v)
  ]
]
  where
    none : (k : ℕ) → k < 4 → ¬ (seen 0 k ≡ true)
    none zero p s = ground (arith, s)
    none (suc zero) p s = ground (arith, s)
    none (suc (suc zero)) p s = ground (arith, s)
    none (suc (suc (suc zero))) p s = ground (arith, s)
    none (suc (suc (suc (suc k)))) p s = omega (arith, p)

all_seen : (k : ℕ) → k < 4 → seen 15 k ≡ true
all_seen zero p = refl
all_seen (suc zero) p = refl
all_seen (suc (suc zero)) p = refl
all_seen (suc (suc (suc zero))) p = refl
all_seen (suc (suc (suc (suc k)))) p = absurd (omega (arith, p))

-- When the phase reference symbol is processed, its buffer holds all four blocks, each as the last
-- packet with its number brought it.
pub prs_assemble_lem :
    (latest : ℕ → Buffer) (rdbuf : Buffer) (a : PrsAssembly) (k x : ℕ)
    → rdbuf 7 < 4
    → IsAssembled latest a
    → (prs_assemble rdbuf a).1 ≡ true
    → k < 4
    → x < 512
    → (prs_assemble rdbuf a).0.prsbuf (512 * k + x) ≡ with_block latest rdbuf k x
unfolding prs_assemble flags_after
prs_assemble_lem latest rdbuf a k x h v called p q = elim (Bool-cases (rdbuf 7 == 0)) [
  | inl e ↦ absurd (never (rw e at called))
  | inr e ↦ elim (Bool-cases (flags_after a.seen_flags (rdbuf 7) == 15)) [
    | inl f ↦
        rw (e, f)
          ((joined-IsAssembled latest rdbuf a h v).known k x p q (
            ap (λ n. seen n k) ((==_iff (flags_after a.seen_flags (rdbuf 7)) 15).0 f)
            ∙ all_seen k p))
    | inr f ↦ absurd (never (rw (e, f) at called))
  ]
]
  where
    never : ¬ (false ≡ true)
    never e = ground (arith, e)
