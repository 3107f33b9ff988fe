-- ===== src/Fig/Walk.antt =====
-- The walk over the groups of any blocks, and the ensemble it builds up.
use mathlib.Core.Path.{subst}
use opendab.Base.{
  ℕ, zero, suc, ◌+◌, ◌-◌, ◌*◌, ◌<◌, ◌≤◌, ◌≡◌, arith, Bool, not, ◌&&◌, ◌==◌, ltb, if◌then◌else◌,
  false, Bool-cases, inl, inr, Buffer, for_range_inv, shift,
}
use opendab.Figs.{Subch, EnsInfo}
use opendab.Bytes.{ipack, spack, field}
use opendab.Ensemble.{Mscstau, add_subchannel}
use opendab.Ensemble.Invariant.{IsConsistent}
use opendab.Ensemble.Reach.{
  Reachable, with_service, with_subchannel, with_label, named, Reachable-IsConsistent,
}
use opendab.Fig.{
  Fic, Outcome, finished, outside_table, out_of_fuel, and_then, set_einf, fig_0_0, Organization,
  described, behind_table, organization, fig_0_1_loop, fig_0_1, mscstau, service_component,
  fig_0_2_loop, fig_0_2, fig_0, fig_1_0, fig_1_1, fig_1_5, fig_1, unpickfig, fib_loop, fibs_loop,
}

-- The code returns with an ensemble that its operations build up, or it reads a table behind its end.
abbrev pub Sound : Outcome → Type 0
Sound (finished st) = Reachable st.einf
Sound outside_table = Unit
Sound out_of_fuel = ⊥

Sound-and_then :
    (o : Outcome) (f : Fic → Outcome)
    → Sound o
    → ((st : Fic) → Reachable st.einf → Sound (f st))
    → Sound (and_then o f)
unfolding and_then
Sound-and_then (finished st) f r k = k st r
Sound-and_then outside_table f r k = tt
Sound-and_then out_of_fuel f r k = r

-- A description takes three bytes or four.
abbrev TakesSome : Organization → Type 0
TakesSome (described s n) = 1 ≤ n
TakesSome behind_table = Unit

organization-TakesSome : (f : ℕ) (s : Subch) → TakesSome (organization f s)
unfolding organization
organization-TakesSome f s = ground arith

fig_0_1_loop-Sound :
    (fuel j at : ℕ) (s : Subch) (st : Fic)
    → j ≤ fuel
    → Reachable st.einf
    → Sound (fig_0_1_loop fuel j at s st)
unfolding fig_0_1_loop
fig_0_1_loop-Sound fuel zero at s st h r = r
fig_0_1_loop-Sound zero (suc j) at s st h r = absurd (omega arith)
fig_0_1_loop-Sound (suc fuel) (suc j) at s st h r =
    by_case (organization (ipack (shift st.mem at)) s)
      (organization-TakesSome (ipack (shift st.mem at)) s)
      (λ s' n p.
        fig_0_1_loop-Sound fuel (suc j - n) (at + n) s' (set_einf st (add_subchannel st.einf s')) p
          (with_subchannel st.einf s' r))
  where
    by_case :
        (o : Organization)
        → TakesSome o
        → ((s' : Subch) (n : ℕ)
            → suc j - n ≤ fuel
            → Sound (
                fig_0_1_loop fuel
                  (suc j - n)
                  (at + n)
                  s'
                  (set_einf st (add_subchannel st.einf s'))))
        → Sound (elim o [
          | described s' n ↦
              fig_0_1_loop fuel (suc j - n) (at + n) s' (set_einf st (add_subchannel st.einf s'))
          | behind_table ↦ outside_table
        ])
    by_case (described s' n) p k = k s' n (omega arith)
    by_case behind_table p k = tt

service_component-Reachable :
    (fig : Buffer) (sid k : ℕ) (e : EnsInfo)
    → Reachable e
    → Reachable (service_component fig sid k e)
service_component-Reachable fig sid k e r =
    unfold service_component in
    elim (Bool-cases (ac.tmid == 0)) [
      | inl h ↦ rw h (with_service e ac sid small r)
      | inr h ↦ rw h r
    ]
  where
    ac : Mscstau
    ac = mscstau (spack (shift fig (2 * k)))

    small : ac.subchid < 64
    small = unfold mscstau in omega arith

fig_0_2_loop-Sound :
    (fuel j : ℕ) (pd : Bool) (at : ℕ) (st : Fic)
    → j ≤ fuel
    → Reachable st.einf
    → Sound (fig_0_2_loop fuel j pd at st)
unfolding fig_0_2_loop
fig_0_2_loop-Sound fuel zero pd at st h r = r
fig_0_2_loop-Sound zero (suc j) pd at st h r = absurd (omega arith)
fig_0_2_loop-Sound (suc fuel) (suc j) pd at st h r =
    fig_0_2_loop-Sound fuel _ pd _ _ (omega arith) (
      for_range_inv (λ k e. Reachable e) _ scmp (λ k e p q. service_component-Reachable _ _ k e q)
        scmp 0 st.einf (omega arith) r)
  where
    scmp : ℕ
    scmp = field (st.mem (at + (if pd then 4 else 2))) 0 4

fig_0-Sound :
    (junk : Subch) (figlen at : ℕ) (st : Fic) → Reachable st.einf → Sound (fig_0 junk figlen at st)
unfolding fig_0 fig_0_0 fig_0_1 fig_0_2
fig_0-Sound junk figlen at st r = elim (Bool-cases (field (st.mem at) 0 5 == 0)) [
  | inl h ↦ rw h (named st.einf _ _ r)
  | inr h ↦ elim (Bool-cases (field (st.mem at) 0 5 == 1)) [
    | inl h' ↦ rw (h, h') (fig_0_1_loop-Sound _ _ _ _ _ (omega arith) r)
    | inr h' ↦ elim (Bool-cases (field (st.mem at) 0 5 == 2)) [
      | inl g ↦ rw (h, h', g) (fig_0_2_loop-Sound _ _ _ _ _ (omega arith) r)
      | inr g ↦ rw (h, h', g) r
    ]
  ]
]

fig_1-Reachable : (at : ℕ) (st : Fic) → Reachable st.einf → Reachable (fig_1 at st).einf
unfolding fig_1 fig_1_0 fig_1_1 fig_1_5
fig_1-Reachable at st r = elim (Bool-cases (field (st.mem at) 0 3 == 0)) [
  | inl h ↦ rw h (named st.einf _ _ r)
  | inr h ↦ elim (Bool-cases (field (st.mem at) 0 3 == 1)) [
    | inl h' ↦ rw (h, h') (with_label st.einf _ _ r)
    | inr h' ↦ elim (Bool-cases (field (st.mem at) 0 3 == 5)) [
      | inl g ↦ rw (h, h', g) r
      | inr g ↦ rw (h, h', g) r
    ]
  ]
]

unpickfig-Sound :
    (junk : Subch) (at figlen : ℕ) (st : Fic)
    → Reachable st.einf
    → Sound (unpickfig junk at figlen st)
unfolding unpickfig
unpickfig-Sound junk at figlen st r = elim (Bool-cases (field (st.mem at) 5 3 == 0)) [
  | inl h ↦ rw h (fig_0-Sound junk figlen (at + 1) st r)
  | inr h ↦ elim (Bool-cases (field (st.mem at) 5 3 == 1)) [
    | inl h' ↦ rw (h, h') (fig_1-Reachable (at + 1) st r)
    | inr h' ↦ rw (h, h') r
  ]
]

fib_loop-Sound :
    (junk : Subch) (fuel j at : ℕ) (st : Fic)
    → 30 ≤ j + fuel
    → Reachable st.einf
    → Sound (fib_loop junk fuel j at st)
unfolding fib_loop
fib_loop-Sound junk zero j at st h r = rw (past j (omega arith)) r
  where
    past : (j : ℕ) → 30 ≤ j → ltb j 30 ≡ false
    past j p = ground arith
fib_loop-Sound junk (suc fuel) j at st h r =
    elim (Bool-cases (ltb j 30 && not (st.mem at == 0xff))) [
      | inl p ↦ rw p (
          Sound-and_then _ _ (unpickfig-Sound junk at _ st r)
            (λ st' r'. fib_loop-Sound junk fuel _ _ st' (omega arith) r'))
      | inr p ↦ rw p r
    ]

-- From an ensemble that the operations build up, and whatever decoded blocks hold, the walk over their
-- groups returns an ensemble that the operations build up, or reads `eeptable` behind its end: the
-- rounds allowed to each loop, one for a byte of the group's length or of a block, are enough.
pub fibs_loop-Sound :
    (junk : Subch) (n i : ℕ) (st : Fic) → Reachable st.einf → Sound (fibs_loop junk n i st)
unfolding fibs_loop
fibs_loop-Sound junk zero i st r = r
fibs_loop-Sound junk (suc n) i st r =
    Sound-and_then _ _ (fib_loop-Sound junk 30 0 (30 * i) st (omega arith) r)
      (λ st' r'. fibs_loop-Sound junk n (i + 1) st' r')

-- If the walk over the groups returns, and the ensemble before was built up by the operations, the
-- ensemble that it returns is consistent.
fibs_loop-IsConsistent :
    (junk : Subch) (n i : ℕ) (st st' : Fic)
    → Reachable st.einf
    → fibs_loop junk n i st ≡ finished st'
    → IsConsistent st'.einf
fibs_loop-IsConsistent junk n i st st' r e =
    Reachable-IsConsistent st'.einf (subst Sound e (fibs_loop-Sound junk n i st r))
