-- ===== src/Ensemble/Invariant.antt =====
-- The ensemble's invariant, operation by operation.
use opendab.Base.{
  ℕ, ◌+◌, ◌<◌, ◌≤◌, ◌≡◌, ◌≢◌, ◌⊎◌, inl, inr, refl, sym, ap, ◌∙◌, arith, ◌==◌, ltb, if◌then◌else◌,
  Option, none, some, List, [], ◌∷◌, All, Bool-cases, ==_iff,
}
use opendab.Figs.{Subch, Service, EnsInfo}
use opendab.Ensemble.{
  Mscstau, is_null, set_schan, ficinit, new_service, is_missing, attach, add_service,
  add_subchannel,
}
use opendab.Ensemble.Attach.{attach_first, first_with, add_service_lem}

abbrev pub weight : Service → ℕ
weight s = (if is_null s.pa then 0 else 1) + (if is_null s.sa then 0 else 1)

-- The components of all services.
unfoldable pub components : List Service → ℕ
components [] = 0
components (s ∷ srvs) = weight s + components srvs

abbrev pub Absent : ℕ → List Service → Type 0
Absent sid srvs = All (λ (s : Service). s.sid ≢ sid) srvs

-- No two services have one identifier.
abbrev pub Distinct : List Service → Type 0
Distinct [] = Unit
Distinct (s ∷ srvs) = Absent s.sid srvs × Distinct srvs

abbrev pub InRange : Option ℕ → Type 0
InRange none = Unit
InRange (some i) = i < 64

-- A service has a component, and its pointers lead into the array of sub-channels.
abbrev pub IsServed : Service → Type 0
IsServed s = (0 < weight s) × InRange s.pa × InRange s.sa

pub record IsConsistent (e : EnsInfo) : Type 0 where
  pub distinct : Distinct e.srv
  pub counted : e.num_srvs ≡ components e.srv
  pub served : All IsServed e.srv
  pub entries : (i : ℕ) → i < 64 → ((e.schan i).subchid ≡ i) ⊎ ((e.schan i).subchid ≡ 0xffff)

weight-attach :
    (ac : Mscstau) (s : Service)
    → weight (attach ac s) ≡ weight s + (if is_missing ac s then 1 else 0)
unfolding attach is_missing
weight-attach ac s = ground arith

components-attach_first :
    (ac : Mscstau) (sid : ℕ) (srvs : List Service)
    → components (attach_first ac sid srvs)
      ≡ components srvs + (if is_missing ac (first_with sid srvs) then 1 else 0)
unfolding components attach_first first_with
components-attach_first ac sid [] = omega (arith, weight-attach ac (new_service sid))
components-attach_first ac sid (s ∷ srvs) = elim (Bool-cases (s.sid == sid)) [
  | inl e ↦ rw e (omega (arith, weight-attach ac s))
  | inr e ↦ rw e (omega (arith, components-attach_first ac sid srvs))
]

sid-attach : (ac : Mscstau) (s : Service) → (attach ac s).sid ≡ s.sid
unfolding attach
sid-attach ac s = ground arith

Absent-attach_first :
    (ac : Mscstau) (sid x : ℕ) (srvs : List Service)
    → sid ≢ x
    → Absent x srvs
    → Absent x (attach_first ac sid srvs)
unfolding attach_first
Absent-attach_first ac sid x [] ne a = (λ e. ne (sym (sid-attach ac (new_service sid)) ∙ e), tt)
Absent-attach_first ac sid x (s ∷ srvs) ne a = elim (Bool-cases (s.sid == sid)) [
  | inl e ↦ rw e (λ h. a.0 (sym (sid-attach ac s) ∙ h), a.1)
  | inr e ↦ rw e (a.0, Absent-attach_first ac sid x srvs ne a.1)
]

Distinct-attach_first :
    (ac : Mscstau) (sid : ℕ) (srvs : List Service)
    → Distinct srvs
    → Distinct (attach_first ac sid srvs)
unfolding attach_first
Distinct-attach_first ac sid [] d = (tt, tt)
Distinct-attach_first ac sid (s ∷ srvs) d = elim (Bool-cases (s.sid == sid)) [
  | inl e ↦ rw (e, sid-attach) d
  | inr e ↦ rw e (
    Absent-attach_first ac sid s.sid srvs (λ h. ground (arith, h)) d.0,
    Distinct-attach_first ac sid srvs d.1,
  )
]

IsServed-attach :
    (ac : Mscstau) (s : Service)
    → ac.subchid < 64
    → InRange s.pa
    → InRange s.sa
    → IsServed (attach ac s)
unfolding attach
IsServed-attach ac s h p q = ground arith

All-IsServed-attach_first :
    (ac : Mscstau) (sid : ℕ) (srvs : List Service)
    → ac.subchid < 64
    → All IsServed srvs
    → All IsServed (attach_first ac sid srvs)
unfolding attach_first
All-IsServed-attach_first ac sid [] h a = (IsServed-attach ac (new_service sid) h tt tt, tt)
All-IsServed-attach_first ac sid (s ∷ srvs) h a = elim (Bool-cases (s.sid == sid)) [
  | inl e ↦ rw e (IsServed-attach ac s h a.0.1 a.0.2, a.1)
  | inr e ↦ rw e (a.0, All-IsServed-attach_first ac sid srvs h a.1)
]

entries-add_service :
    (e : EnsInfo) (ac : Mscstau) (sid i : ℕ)
    → ((add_service e ac sid).schan i).subchid ≡ (e.schan i).subchid
unfolding add_service set_schan
entries-add_service e ac sid i = elim (Bool-cases (i == ac.subchid)) [
  | inl h ↦ rw h (sym (ap (λ k. (e.schan k).subchid) ((==_iff i ac.subchid).0 h)))
  | inr h ↦ rw h
]

srv-add_subchannel : (e : EnsInfo) (s : Subch) → (add_subchannel e s).srv ≡ e.srv
unfolding add_subchannel
srv-add_subchannel e s = ground arith

num_srvs-add_subchannel : (e : EnsInfo) (s : Subch) → (add_subchannel e s).num_srvs ≡ e.num_srvs
unfolding add_subchannel
num_srvs-add_subchannel e s = ground arith

pub ficinit-IsConsistent : (e : EnsInfo) → IsConsistent (ficinit e)
ficinit-IsConsistent e = record {
  distinct = unfold ficinit in tt;
  counted = unfold ficinit components in refl;
  served = unfold ficinit in tt;
  entries = λ i p. inr (unmarked i p);
}
  where
    unmarked : (i : ℕ) → i < 64 → ((ficinit e).schan i).subchid ≡ 0xffff
    unmarked i p = unfold ficinit in ground arith

pub add_service-IsConsistent :
    (e : EnsInfo) (ac : Mscstau) (sid : ℕ)
    → ac.subchid < 64
    → IsConsistent e
    → IsConsistent (add_service e ac sid)
add_service-IsConsistent e ac sid h v = record {
  distinct = rw (add_service_lem e ac sid).0 (Distinct-attach_first ac sid e.srv v.distinct);
  counted =
      (add_service_lem e ac sid).1
      ∙ omega (arith, v.counted, components-attach_first ac sid e.srv)
      ∙ ap components (sym (add_service_lem e ac sid).0);
  served = rw (add_service_lem e ac sid).0 (All-IsServed-attach_first ac sid e.srv h v.served);
  entries = λ i p. rw (entries-add_service e ac sid i) (v.entries i p);
}

pub add_subchannel-IsConsistent :
    (e : EnsInfo) (s : Subch) → IsConsistent e → IsConsistent (add_subchannel e s)
add_subchannel-IsConsistent e s v = record {
  distinct = rw (srv-add_subchannel e s) v.distinct;
  counted = rw (srv-add_subchannel e s, num_srvs-add_subchannel e s) v.counted;
  served = rw (srv-add_subchannel e s) v.served;
  entries = λ i p. entry i (v.entries i p);
}
  where
    entry :
        (i : ℕ)
        → ((e.schan i).subchid ≡ i) ⊎ ((e.schan i).subchid ≡ 0xffff)
        → (((add_subchannel e s).schan i).subchid ≡ i)
          ⊎ (((add_subchannel e s).schan i).subchid ≡ 0xffff)
    entry i h = unfold add_subchannel set_schan in ground arith

-- The first description of a sub-channel is kept: a later one with the same number, below 65,
-- changes nothing.
pub add_subchannel_first :
    (e : EnsInfo) (s t : Subch)
    → s.subchid ≤ 64
    → t.subchid ≡ s.subchid
    → add_subchannel (add_subchannel e s) t ≡ add_subchannel e s
unfolding add_subchannel set_schan
add_subchannel_first e s t h same = elim (Bool-cases (ltb 64 (e.schan s.subchid).subchid)) [
  | inl p ↦ rw (p, same) ground arith
  | inr p ↦ rw (p, same, p) refl
]
