-- ===== src/Sync/Lock.antt =====
-- `wf_sync` of src/wfsync.c: when it takes itself to be in step. Whether the coarse and the fine offset
-- that were measured are small is a test of floating-point values, and is given.
use opendab.Base.{
  ℕ, ◌+◌, ◌-◌, ◌≡◌, refl, ap, ◌∙◌, arith, Bool, true, false, ◌==◌, leb, if◌then◌else◌, List, [],
  ◌∷◌,
}

-- The global `sync_locked` and the static `lckcnt`.
pub record Lock : Type 0 where
  pub sync_locked : Bool
  pub lckcnt : ℕ

abbrev pub unlocked : Lock
unlocked = record { sync_locked = false; lckcnt = 3 }

-- One measurement, with whether it was good.
pub update_lock : Bool → Lock → Lock
update_lock good s =
    if good
    then (if s.lckcnt == 0
        then record s { sync_locked = true }
        else record { sync_locked = false; lckcnt = s.lckcnt - 1 })
    else unlocked

-- The newest measurement first.
unfoldable pub measured : List Bool → Lock
measured [] = unlocked
measured (good ∷ before) = update_lock good (measured before)

-- How many of the newest measurements are good, one behind the other.
pub streak : List Bool → ℕ
streak [] = 0
streak (true ∷ before) = streak before + 1
streak (false ∷ before) = 0

lock_of_streak : ℕ → Lock
lock_of_streak n = record { sync_locked = leb 4 n; lckcnt = 3 - n }

next_lock : (n : ℕ) → update_lock true (lock_of_streak n) ≡ lock_of_streak (n + 1)
unfolding update_lock lock_of_streak
next_lock n = ground arith

lock_lem : (goods : List Bool) → measured goods ≡ lock_of_streak (streak goods)
unfolding measured streak lock_of_streak update_lock
lock_lem [] = refl
lock_lem (true ∷ before) = ap (update_lock true) (lock_lem before) ∙ next_lock (streak before)
lock_lem (false ∷ before) = refl

-- `wf_sync` is locked exactly when at least the last four measurements were good.
pub measured_lem : (goods : List Bool) → (measured goods).sync_locked ≡ leb 4 (streak goods)
unfolding lock_of_streak
measured_lem goods = ap (λ (s : Lock). s.sync_locked) (lock_lem goods)
