-- ===== src/Sync/Average.antt =====
-- src/wfravg.c, raverage: the mean of the last offsets.
use opendab.Base.{
  ℕ, suc, ◌+◌, ◌-◌, ◌%◌, ◌<◌, ◌≡◌, ◌≢◌, refl, sym, ap, ◌∙◌, arith, min, leb, ◌==◌, ==_iff,
  if◌then◌else◌, for_range, for_range_ext, List, [], ◌∷◌, length, get_or, Bool-cases, inl, inr,
}
use opendab.Sync.Doubles.{Doubles}

next_k : (n k : ℕ) → k ≡ n % 8 → (if k + 1 == 8 then 0 else k + 1) ≡ suc n % 8
next_k n k e = ground arith

next_j :
    (n j k : ℕ)
    → k ≡ n % 8
    → j ≡ (if leb 8 n then 1 else 0)
    → (if k + 1 == 8 then 1 else j) ≡ (if leb 8 (suc n) then 1 else 0)
next_j n j k e f = ground arith

next_count :
    (n j k : ℕ)
    → k ≡ suc n % 8
    → j ≡ (if leb 8 (suc n) then 1 else 0)
    → (if j == 0 then k else 8) ≡ min (suc n) 8
next_count n j k e f = ground arith

module _ (doubles : Doubles) where
  open doubles use {Double, zero_d, plus, over, beyond}

  -- The static variables.
  pub record Average : Type 0 where
    pub prev_ir : Double
    pub sa : ℕ → Double
    pub j : ℕ
    pub k : ℕ

  put : (ℕ → Double) → ℕ → Double → ℕ → Double
  put b i v x = if x == i then v else b x

  -- From `sa[k++] = ir` on.
  advance : Double → (ℕ → Double) → ℕ → ℕ → Average
  advance ir sa j k =
      let sa = put sa k ir in
      let full = k + 1 == 8 in
      let j = if full then 1 else j in
      let k = if full then 0 else k + 1 in
      let d = if j == 0 then k else 8 in
      let t = for_range d 0 (λ i t. plus t (sa i)) zero_d in
      record { prev_ir = over t d; sa = sa; j = j; k = k }

  pub raverage : Double → Average → Average
  raverage ir s =
      let far = beyond 350 s.prev_ir in
      advance ir s.sa (if far then 0 else s.j) (if far then 0 else s.k)

  pub initial : Average
  initial = record { prev_ir = zero_d; sa = λ i. zero_d; j = 0; k = 0 }

  -- The offsets so far, the newest first.
  unfoldable pub averaged : List Double → Average
  averaged [] = initial
  averaged (ir ∷ before) = raverage ir (averaged before)

  -- Those since the last mean that was too large.
  pub since : List Double → List Double
  since [] = []
  since (ir ∷ before) = ir ∷ (if beyond 350 (averaged before).prev_ir then [] else since before)

  -- The value in slot `i` after `n` of them.
  slot : List Double → ℕ → Double
  slot irs i = get_or irs ((length irs - 1 - i) % 8) zero_d

  -- The mean of at most eight, added up in the order of the slots.
  pub mean_of_last : List Double → Double
  mean_of_last irs =
      let d = min (length irs) 8 in over (for_range d 0 (λ i t. plus t (slot irs i)) zero_d) d

  -- The slots hold the last eight, the oldest of which is overwritten next.
  record IsRing (irs : List Double) (sa : ℕ → Double) (j k : ℕ) : Type 0 where
    next : k ≡ length irs % 8
    full : j ≡ (if leb 8 (length irs) then 1 else 0)
    slots : (i : ℕ) → i < min (length irs) 8 → sa i ≡ slot irs i

  put-slot :
      (ir : Double) (irs : List Double) (sa : ℕ → Double)
      → ((i : ℕ) → i < min (length irs) 8 → sa i ≡ slot irs i)
      → (i : ℕ) → i < min (suc (length irs)) 8
      → put sa (length irs % 8) ir i ≡ slot (ir ∷ irs) i
  unfolding put slot
  put-slot ir irs sa slots i p = elim (Bool-cases (i == length irs % 8)) [
    | inl e ↦
        let at : i ≡ length irs % 8 = (==_iff i (length irs % 8)).0 e in
        let newest : (suc (length irs) - 1 - i) % 8 ≡ 0 = omega (arith, at) in
        rw e (ap (λ a. get_or (ir ∷ irs) a zero_d) (sym newest))
    | inr e ↦
        let other : i ≢ length irs % 8 = λ h. cc (e, (==_iff i (length irs % 8)).1 h) in
        let older : (suc (length irs) - 1 - i) % 8 ≡ suc ((length irs - 1 - i) % 8) =
          omega (arith, other, p) in
        rw e (slots i (omega (arith, other, p)) ∙ ap (λ a. get_or (ir ∷ irs) a zero_d) (sym older))
  ]

  advance-IsRing :
      (ir : Double) (irs : List Double) (sa : ℕ → Double) (j k : ℕ)
      → IsRing irs sa j k
      → let s = advance ir sa j k in
        IsRing (ir ∷ irs) s.sa s.j s.k × (s.prev_ir ≡ mean_of_last (ir ∷ irs))
  unfolding advance mean_of_last
  advance-IsRing ir irs sa j k v =
      let n = length irs in
      let slots : (i : ℕ) → i < min (suc n) 8 → put sa k ir i ≡ slot (ir ∷ irs) i =
        λ i p. ap (λ k. put sa k ir i) v.next ∙ put-slot ir irs sa v.slots i p in
      let j' = if k + 1 == 8 then 1 else j in
      let k' = if k + 1 == 8 then 0 else k + 1 in
      let next : k' ≡ suc n % 8 = next_k n k v.next in
      let full : j' ≡ (if leb 8 (suc n) then 1 else 0) = next_j n j k v.next v.full in
      let count : (if j' == 0 then k' else 8) ≡ min (suc n) 8 = next_count n j' k' next full in
      (
        record { next = next; full = full; slots = slots },
        ap (λ d. over (for_range d 0 (λ i t. plus t (put sa k ir i)) zero_d) d) count
            ∙ ap (λ t. over t (min (suc n) 8))
                (for_range_ext (λ i t. plus t (put sa k ir i)) (λ i t. plus t (slot (ir ∷ irs) i))
                  (min (suc n) 8) (λ i t p. ap (plus t) (slots i p)) (min (suc n) 8) 0 zero_d
                  (omega arith)),
      )

  abbrev IsCurrent : List Double → Type 0
  IsCurrent irs = let s = averaged irs in IsRing (since irs) s.sa s.j s.k

  -- One offset more, with a reset or without.
  raverage-IsRing :
      (ir : Double) (before : List Double)
      → IsCurrent before
      → IsCurrent (ir ∷ before)
        × ((averaged (ir ∷ before)).prev_ir ≡ mean_of_last (since (ir ∷ before)))
  unfolding averaged since raverage
  raverage-IsRing ir before v =
      let s = averaged before in
      elim (Bool-cases (beyond 350 s.prev_ir)) [
        | inl far ↦ rw far (
            advance-IsRing ir [] s.sa 0 0
              (record { next = refl; full = refl; slots = λ i p. absurd (omega (arith, p)) }))
        | inr near ↦ rw near (advance-IsRing ir (since before) s.sa s.j s.k v)
      ]

  averaged-IsCurrent : (irs : List Double) → IsCurrent irs
  unfolding averaged since initial
  averaged-IsCurrent [] = record {
    next = refl;
    full = refl;
    slots = λ i p. absurd (omega (arith, p));
  }
  averaged-IsCurrent (ir ∷ before) = (raverage-IsRing ir before (averaged-IsCurrent before)).0

  -- `raverage` returns the mean of the last eight offsets, or of as many as there were since the last
  -- mean beyond 350.
  pub raverage_lem :
      (ir : Double) (before : List Double)
      → (averaged (ir ∷ before)).prev_ir ≡ mean_of_last (since (ir ∷ before))
  raverage_lem ir before = (raverage-IsRing ir before (averaged-IsCurrent before)).1
