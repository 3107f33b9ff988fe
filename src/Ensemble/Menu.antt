-- ===== src/Ensemble/Menu.antt =====
-- The numbers on the screen and those that the user's choice goes by.
use opendab.Base.{
  ℕ, ◌+◌, ◌<◌, ◌≤◌, ◌≡◌, refl, ap, ◌∙◌, arith, Bool, true, false, ◌==◌, if◌then◌else◌, List, [],
  ◌∷◌, All, All-map, lt→ltb, Bool-cases, inl, inr,
}
use opendab.Base.Int.{pos}
use opendab.Figs.{Service, EnsInfo, Selsrv}
use opendab.Ensemble.{Line, is_null, disp_services, disp_ensemble, choose, user_select_service}
use opendab.Ensemble.Invariant.{components, IsConsistent}

abbrev pub HasPrimary : Service → Type 0
HasPrimary s = is_null s.pa ≡ false

abbrev shown : Line → Selsrv
shown line = record { sch = line.sch; sid = line.sid }

missed : (j i : ℕ) → i < j → j == i ≡ false
missed j i h = ground arith

missed_below : (j i : ℕ) → j < i → j == i ≡ false
missed_below j i h = ground arith

hit : (j : ℕ) → j == j ≡ true
hit j = ground arith

abbrev primary : Service → Selsrv
primary p = record { sch = p.pa; sid = p.sid }

abbrev secondary : Service → Selsrv
secondary p = record { sch = p.sa; sid = p.sid }

choose_single :
    (i j : ℕ) (p : Service) (srvs : List Service) (sel : Selsrv)
    → is_null p.sa ≡ true
    → choose i j (p ∷ srvs) sel ≡ choose i (j + 1) srvs (if j == i then primary p else sel)
unfolding choose
choose_single i j p srvs sel e = rw e (ap (choose i (j + 1) srvs) (ground arith))

choose_double :
    (i j : ℕ) (p : Service) (srvs : List Service) (sel : Selsrv)
    → is_null p.sa ≡ false
    → choose i j (p ∷ srvs) sel
      ≡ choose i
          (j + 2)
          srvs
          (if j == i then primary p else if j + 1 == i then secondary p else sel)
unfolding choose
choose_double i j p srvs sel e = rw e (ap (choose i (j + 2) srvs) (ground arith))

-- Behind the number chosen, nothing changes any more.
choose_past : (i j : ℕ) (srvs : List Service) (sel : Selsrv) → i < j → choose i j srvs sel ≡ sel
choose_past i j [] sel h = unfold choose in refl
choose_past i j (p ∷ srvs) sel h = elim (Bool-cases (is_null p.sa)) [
  | inl e ↦
      rw (choose_single i j p srvs sel e, missed j i h)
        (choose_past i (j + 1) srvs sel (omega arith))
  | inr e ↦
      rw (choose_double i j p srvs sel e, missed j i h, missed (j + 1) i (omega arith))
        (choose_past i (j + 2) srvs sel (omega arith))
]

-- The number is one of the components', and choosing it gives what the line shows.
abbrev pub Chosen : ℕ → List Service → Line → Type 0
Chosen j srvs line =
    (j ≤ line.number)
    × (line.number < j + components srvs)
    × ((sel : Selsrv) → choose line.number j srvs sel ≡ shown line)

later_single :
    (j : ℕ) (p : Service) (srvs : List Service) (line : Line)
    → is_null p.pa ≡ false
    → is_null p.sa ≡ true
    → Chosen (j + 1) srvs line
    → Chosen j (p ∷ srvs) line
later_single j p srvs line a e (lo, hi, c) = (
  omega arith,
  unfold components in rw (a, e) (omega arith),
  λ sel. choose_single line.number j p srvs sel e ∙ c _,
)

later_double :
    (j : ℕ) (p : Service) (srvs : List Service) (line : Line)
    → is_null p.pa ≡ false
    → is_null p.sa ≡ false
    → Chosen (j + 2) srvs line
    → Chosen j (p ∷ srvs) line
later_double j p srvs line a e (lo, hi, c) = (
  omega arith,
  unfold components in rw (a, e) (omega arith),
  λ sel. choose_double line.number j p srvs sel e ∙ c _,
)

disp_services-Chosen :
    (j : ℕ) (srvs : List Service) → All HasPrimary srvs → All (Chosen j srvs) (disp_services j srvs)
disp_services-Chosen j [] h = unfold disp_services in tt
disp_services-Chosen j (p ∷ srvs) h = elim (Bool-cases (is_null p.sa)) [
  | inl e ↦ rw (single e) (
    (
      omega arith,
      unfold components in rw (h.0, e) (omega arith),
      λ sel.
          choose_single j j p srvs sel e ∙ rw (hit j) (choose_past j (j + 1) srvs _ (omega arith)),
    ),
    All-map _ _ (λ l c. later_single j p srvs l h.0 e c) _ (disp_services-Chosen (j + 1) srvs h.1),
  )
  | inr e ↦ rw (double e) (
    (
      omega arith,
      unfold components in rw (h.0, e) (omega arith),
      λ sel.
          choose_double j j p srvs sel e ∙ rw (hit j) (choose_past j (j + 2) srvs _ (omega arith)),
    ),
    (
      (
        omega arith,
        unfold components in rw (h.0, e) (omega arith),
        λ sel.
            choose_double (j + 1) j p srvs sel e
            ∙ rw (missed_below j (j + 1) (omega arith), hit (j + 1))
                (choose_past (j + 1) (j + 2) srvs _ (omega arith)),
      ),
      All-map _ _ (λ l c. later_double j p srvs l h.0 e c) _
          (disp_services-Chosen (j + 2) srvs h.1),
    ),
  )
]
  where
    single :
        is_null p.sa ≡ true
        → disp_services j (p ∷ srvs)
          ≡ record { number = j; sid = p.sid; sch = p.pa } ∷ disp_services (j + 1) srvs
    single e = unfold disp_services in rw (h.0, e) refl

    double :
        is_null p.sa ≡ false
        → disp_services j (p ∷ srvs)
          ≡ record { number = j; sid = p.sid; sch = p.pa }
            ∷ record { number = j + 1; sid = p.sid; sch = p.sa }
            ∷ disp_services (j + 2) srvs
    double e = unfold disp_services in rw (h.0, e) refl

-- In a consistent ensemble whose services all have a primary component, each line of `disp_ensemble`
-- is what `user_select_service` chooses for the line's number.
pub user_select_service-disp_ensemble :
    (e : EnsInfo) (rq : Bool) (sel : Selsrv)
    → IsConsistent e
    → All HasPrimary e.srv
    → All
        (λ (line : Line). user_select_service e (pos line.number) rq sel ≡ (true, shown line))
        (disp_ensemble e)
unfolding disp_ensemble user_select_service
user_select_service-disp_ensemble e rq sel v h =
    All-map _ _ (λ l c. selected l c) _ (disp_services-Chosen 0 e.srv h)
  where
    selected :
        (l : Line)
        → Chosen 0 e.srv l
        → user_select_service e (pos l.number) rq sel ≡ (true, shown l)
    selected l (lo, hi, c) =
        rw (v.counted, lt→ltb l.number (components e.srv) (omega (arith, hi)))
          (ap (λ t. (true, t)) (c sel))
