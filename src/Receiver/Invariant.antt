-- ===== src/Receiver/Invariant.antt =====
-- What holds between two packets.
use opendab.Base.{
  ℕ, ◌≤◌, ◌<◌, ◌≡◌, refl, sym, ◌∙◌, arith, Bool, true, false, not, ◌&&◌, ◌==◌, ltb, ltb→lt, some,
  Bool-cases, inl, inr,
}
use opendab.Figs.{Symrange}
use opendab.Fig.{Outcome, finished, outside_table, out_of_fuel}
use opendab.Fig.Walk.{Sound}
use opendab.Ensemble.{labelled}
use opendab.Ensemble.Reach.{Reachable}
use opendab.Symsel.{startsym}
use opendab.Assembly.{Assembly}
use opendab.Process.{Fibs, Processed}
use opendab.Receiver.{Packet, Receiver, Ran, running, stopped, max_fibs, take_prs, with_outcome}

-- Fast information is still taken.
abbrev pub is_reading : Fibs → Bool
is_reading f = ltb f.fibcnt max_fibs && not (labelled f.fic.einf)

-- The range of symbols is that of the chosen sub-channel.
abbrev pub IsChosen : Receiver → Type 0
IsChosen r =
    (i : ℕ) × (old : Symrange) × (r.sel.sch ≡ some i)
    × (r.sr ≡ startsym old (r.fibs.fic.einf.schan i))

pub record IsRunning (r : Receiver) : Type 0 where
  pub built : Reachable r.fibs.fic.einf
  pub bounded : r.fibs.fibcnt < 712
  pub complete : r.enslistvisible ≡ true → is_reading r.fibs ≡ false
  pub chosen : r.selected ≡ true → (r.enslistvisible ≡ true) × IsChosen r
  pub waiting : r.synccnt ≤ 6

abbrev pub Keeps : Ran → Type 0
Keeps (running r) = IsRunning r
Keeps stopped = Unit

pub take_prs-IsRunning : (pk : Packet) (r : Receiver) → IsRunning r → IsRunning (take_prs pk r)
unfolding take_prs
take_prs-IsRunning pk r v = elim (Bool-cases (pk.bytes 9 == 2)) [
  | inl e ↦ rw e (record {
    built = v.built;
    bounded = v.bounded;
    complete = v.complete;
    chosen = v.chosen;
    waiting = omega (arith, v.waiting);
  })
  | inr e ↦ rw e v
]

no_longer : (f : Fibs) → is_reading f ≡ true → ¬ (is_reading f ≡ false)
no_longer f e h = ground (arith, sym e ∙ h)

pub early : (f : Fibs) → is_reading f ≡ true → f.fibcnt < 700
early f e = ltb→lt f.fibcnt 700 (first (ltb f.fibcnt 700) (not (labelled f.fic.einf)) e)
  where
    first : (a b : Bool) → a && b ≡ true → a ≡ true
    first true b e = refl
    first false b e = e

-- While fast information is read, the list is not visible and no service chosen.
module _ (r : Receiver) (v : IsRunning r) (reading : is_reading r.fibs ≡ true) where
  pub unseen : ¬ (r.enslistvisible ≡ true)
  unseen h = no_longer r.fibs reading (v.complete h)

  pub with_fibs :
      (fic : Assembly) (fibs : Fibs)
      → Reachable fibs.fic.einf
      → fibs.fibcnt < 712
      → IsRunning (record r { fic = fic; fibs = fibs })
  with_fibs fic fibs built bounded = record {
    built = built;
    bounded = bounded;
    complete = λ h. absurd (unseen h);
    chosen = λ h. absurd (unseen (v.chosen h).0);
    waiting = v.waiting;
  }

pub with_outcome-Keeps :
    (r : Receiver) (fic : Assembly) (p : Processed)
    → IsRunning r
    → is_reading r.fibs ≡ true
    → Sound p.outcome
    → p.fibcnt < 712
    → Keeps (with_outcome (record r { fic = fic }) p)
with_outcome-Keeps r fic p v reading sound bounded = go p.outcome sound
  where
    go :
        (o : Outcome)
        → Sound o
        → Keeps (with_outcome (record r { fic = fic }) (record p { outcome = o }))
    go (finished f) s =
        with_fibs r v reading fic (record { fic = f; fibcnt = p.fibcnt; arrays = p.arrays }) s
          bounded
    go outside_table s = tt
    go out_of_fuel s = tt
