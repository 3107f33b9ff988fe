-- ===== src/Ensemble/Attach.antt =====
-- `add_service` in one pass over the list of services.
use opendab.Base.{
  ℕ, suc, ◌+◌, ◌≡◌, refl, ap, ◌∙◌, arith, ◌==◌, if◌then◌else◌, List, [], ◌∷◌, get_or, set,
  Bool-cases, inl, inr,
}
use opendab.Figs.{Service, EnsInfo}
use opendab.Ensemble.{Mscstau, find_service, new_service, located, is_missing, attach, add_service}

unfoldable pub attach_first : Mscstau → ℕ → List Service → List Service
attach_first ac sid [] = attach ac (new_service sid) ∷ []
attach_first ac sid (s ∷ srvs) =
    let rest = attach_first ac sid srvs in if s.sid == sid then attach ac s ∷ srvs else s ∷ rest

-- The service that takes the component.
unfoldable pub first_with : ℕ → List Service → Service
first_with sid [] = new_service sid
first_with sid (s ∷ srvs) = if s.sid == sid then s else first_with sid srvs

step : Service → List Service × ℕ → List Service × ℕ
step s (srvs, i) = (s ∷ srvs, suc i)

located-cons :
    (s : Service) (srvs : List Service) (sid : ℕ)
    → located (s ∷ srvs) sid ≡ (if s.sid == sid then (s ∷ srvs, 0) else step s (located srvs sid))
unfolding located find_service step
located-cons s srvs sid = ground arith

put_in : Mscstau → ℕ → List Service × ℕ → List Service × Service
put_in ac sid (srvs, i) =
    (set srvs i (attach ac (get_or srvs i (new_service sid))), get_or srvs i (new_service sid))

put_in-located :
    (ac : Mscstau) (sid : ℕ) (srvs : List Service)
    → put_in ac sid (located srvs sid) ≡ (attach_first ac sid srvs, first_with sid srvs)
unfolding put_in attach_first first_with step located
put_in-located ac sid [] = unfold located find_service in refl
put_in-located ac sid (s ∷ srvs) =
    ap (put_in ac sid) (located-cons s srvs sid) ∙ elim (Bool-cases (s.sid == sid)) [
      | inl e ↦ rw e
      | inr e ↦
          rw e (ap (λ (t : List Service × Service). (s ∷ t.0, t.1)) (put_in-located ac sid srvs))
    ]

-- `add_service` gives the component to the first service with the identifier, appending one where
-- there is none, and counts it if that service lacked a component of its kind.
pub add_service_lem :
    (e : EnsInfo) (ac : Mscstau) (sid : ℕ)
    → ((add_service e ac sid).srv ≡ attach_first ac sid e.srv)
      × ((add_service e ac sid).num_srvs
          ≡ e.num_srvs + (if is_missing ac (first_with sid e.srv) then 1 else 0))
unfolding add_service put_in
add_service_lem e ac sid = (
  ap (λ (t : List Service × Service). t.0) (put_in-located ac sid e.srv),
  ap (λ (t : List Service × Service). e.num_srvs + (if is_missing ac t.1 then 1 else 0))
      (put_in-located ac sid e.srv),
)
