-- ===== src/Ensemble/Reach.antt =====
-- The ensembles that the operations build up.
use mathlib.Core.Option
use opendab.Base.{
  ℕ, suc, ◌<◌, ◌≡◌, refl, sym, ap, ◌∙◌, true, false, ◌==◌, if◌then◌else◌, Option, none, some, List,
  [], ◌∷◌, All, Bool-cases, inl, inr,
}
use opendab.Figs.{Subch, Service, EnsInfo}
use opendab.Ensemble.{
  Mscstau, ficinit, find_service, add_service, add_subchannel, put_label, label_service,
}
use opendab.Ensemble.Invariant.{
  components, Absent, Distinct, IsServed, IsConsistent, ficinit-IsConsistent,
  add_service-IsConsistent, add_subchannel-IsConsistent,
}

-- The list with the first service of an identifier labelled.
relabelled : List Service → ℕ → List ℕ → List Service
relabelled [] sid text = []
relabelled (s ∷ srvs) sid text =
    let rest = relabelled srvs sid text in
    if s.sid == sid then record s { label = text } ∷ srvs else s ∷ rest

put_label-suc :
    (s : Service) (srvs : List Service) (sid : ℕ) (text : List ℕ) (o : Option ℕ)
    → put_label (s ∷ srvs) sid text (Option.map suc o) ≡ s ∷ put_label srvs sid text o
unfolding put_label
put_label-suc s srvs sid text none = refl
put_label-suc s srvs sid text (some i) = refl

put_label-find_service :
    (srvs : List Service) (sid : ℕ) (text : List ℕ)
    → put_label srvs sid text (find_service srvs sid) ≡ relabelled srvs sid text
unfolding relabelled
put_label-find_service [] sid text = unfold find_service put_label in refl
put_label-find_service (s ∷ srvs) sid text = elim (Bool-cases (s.sid == sid)) [
  | inl e ↦ rw e (found e)
  | inr e ↦ rw e (
      later e
      ∙ put_label-suc s srvs sid text (find_service srvs sid)
      ∙ ap (λ t. s ∷ t) (put_label-find_service srvs sid text))
]
  where
    found :
        s.sid == sid ≡ true
        → put_label (s ∷ srvs) sid text (find_service (s ∷ srvs) sid)
          ≡ record s { label = text } ∷ srvs
    found e = unfold find_service put_label in rw e refl

    later :
        s.sid == sid ≡ false
        → put_label (s ∷ srvs) sid text (find_service (s ∷ srvs) sid)
          ≡ put_label (s ∷ srvs) sid text (Option.map suc (find_service srvs sid))
    later e = unfold find_service in ap (put_label (s ∷ srvs) sid text) (rw e refl)

srv-label_service :
    (e : EnsInfo) (sid : ℕ) (text : List ℕ)
    → (label_service e sid text).srv ≡ relabelled e.srv sid text
unfolding label_service
srv-label_service e sid text = put_label-find_service e.srv sid text

num_srvs-label_service :
    (e : EnsInfo) (sid : ℕ) (text : List ℕ) → (label_service e sid text).num_srvs ≡ e.num_srvs
unfolding label_service
num_srvs-label_service e sid text = refl

schan-label_service :
    (e : EnsInfo) (sid : ℕ) (text : List ℕ) → (label_service e sid text).schan ≡ e.schan
unfolding label_service
schan-label_service e sid text = refl

components-relabelled :
    (srvs : List Service) (sid : ℕ) (text : List ℕ)
    → components (relabelled srvs sid text) ≡ components srvs
unfolding components relabelled
components-relabelled [] sid text = refl
components-relabelled (s ∷ srvs) sid text = elim (Bool-cases (s.sid == sid)) [
  | inl e ↦ rw e refl
  | inr e ↦ rw (e, components-relabelled srvs sid text) refl
]

Absent-relabelled :
    (x : ℕ) (srvs : List Service) (sid : ℕ) (text : List ℕ)
    → Absent x srvs
    → Absent x (relabelled srvs sid text)
unfolding relabelled
Absent-relabelled x [] sid text a = tt
Absent-relabelled x (s ∷ srvs) sid text a = elim (Bool-cases (s.sid == sid)) [
  | inl e ↦ rw e a
  | inr e ↦ rw e (a.0, Absent-relabelled x srvs sid text a.1)
]

Distinct-relabelled :
    (srvs : List Service) (sid : ℕ) (text : List ℕ)
    → Distinct srvs
    → Distinct (relabelled srvs sid text)
unfolding relabelled
Distinct-relabelled [] sid text d = tt
Distinct-relabelled (s ∷ srvs) sid text d = elim (Bool-cases (s.sid == sid)) [
  | inl e ↦ rw e d
  | inr e ↦ rw e (Absent-relabelled s.sid srvs sid text d.0, Distinct-relabelled srvs sid text d.1)
]

All-IsServed-relabelled :
    (srvs : List Service) (sid : ℕ) (text : List ℕ)
    → All IsServed srvs
    → All IsServed (relabelled srvs sid text)
unfolding relabelled
All-IsServed-relabelled [] sid text a = tt
All-IsServed-relabelled (s ∷ srvs) sid text a = elim (Bool-cases (s.sid == sid)) [
  | inl e ↦ rw e a
  | inr e ↦ rw e (a.0, All-IsServed-relabelled srvs sid text a.1)
]

label_service-IsConsistent :
    (e : EnsInfo) (sid : ℕ) (text : List ℕ)
    → IsConsistent e
    → IsConsistent (label_service e sid text)
label_service-IsConsistent e sid text v = record {
  distinct = rw (srv-label_service e sid text) (Distinct-relabelled e.srv sid text v.distinct);
  counted =
      num_srvs-label_service e sid text
      ∙ v.counted
      ∙ sym (components-relabelled e.srv sid text)
      ∙ ap components (sym (srv-label_service e sid text));
  served = rw (srv-label_service e sid text) (All-IsServed-relabelled e.srv sid text v.served);
  entries = λ i p. rw (schan-label_service e sid text) (v.entries i p);
}

named-IsConsistent :
    (e : EnsInfo) (text : List ℕ) (eid : ℕ)
    → IsConsistent e
    → IsConsistent (record e { label = text; eid = eid })
named-IsConsistent e text eid v = record {
  distinct = v.distinct;
  counted = v.counted;
  served = v.served;
  entries = v.entries;
}

-- The ensembles that the operations build up from any memory that `ficinit` is called on. The
-- sub-channel number of a component is a field of six bits.
pub data Reachable : EnsInfo → Type 0 where
  cleared : (e : EnsInfo) → Reachable (ficinit e)
  with_service :
      (e : EnsInfo) (ac : Mscstau) (sid : ℕ)
      → ac.subchid < 64
      → Reachable e
      → Reachable (add_service e ac sid)
  with_label :
      (e : EnsInfo) (sid : ℕ) (text : List ℕ) → Reachable e → Reachable (label_service e sid text)
  named :
      (e : EnsInfo) (text : List ℕ) (eid : ℕ)
      → Reachable e
      → Reachable (record e { label = text; eid = eid })
  with_subchannel : (e : EnsInfo) (s : Subch) → Reachable e → Reachable (add_subchannel e s)

-- In every ensemble that `ficinit`, `add_service` with sub-channel numbers below 64, `add_subchannel`
-- and the changes of labels and of the ensemble's identifier build up, no two services have one identifier, `num_srvs` is the number of all
-- components, each service has a component and leads into the array, and each entry of the array is
-- marked unused or holds its own number.
pub Reachable-IsConsistent : (e : EnsInfo) → Reachable e → IsConsistent e
Reachable-IsConsistent _ (cleared e) = ficinit-IsConsistent e
Reachable-IsConsistent _ (with_service e ac sid h r) =
    add_service-IsConsistent e ac sid h (Reachable-IsConsistent e r)
Reachable-IsConsistent _ (with_subchannel e s r) =
    add_subchannel-IsConsistent e s (Reachable-IsConsistent e r)
Reachable-IsConsistent _ (with_label e sid text r) =
    label_service-IsConsistent e sid text (Reachable-IsConsistent e r)
Reachable-IsConsistent _ (named e text eid r) =
    named-IsConsistent e text eid (Reachable-IsConsistent e r)
