-- ===== src/Timer/Move/Wanted.antt =====
-- `timer_collect_fgs`: the list that it fills holds timers of the groups only.
use ix.Base.{ℕ, zero, suc, ◌+◌, ◌≡◌, Bool, true, List, [], ◌∷◌, Bool-cases, inl, inr}
use ix.Timer.{Timer, TimerWheel, wheel_count, wheel_size}
use ix.Timer.Move.{collect_bucket, collect_from, collect_wheel, is_wanted, timer_collect_fgs}

-- every timer is of one of the groups
abbrev pub AllWanted : (ℕ → Bool) → List Timer → Type 0
AllWanted fg_vector [] = Unit
AllWanted fg_vector (t ∷ ts) = (is_wanted fg_vector t ≡ true) × AllWanted fg_vector ts

bucket-AllWanted :
    (fg_vector : ℕ → Bool) (ts list : List Timer)
    → AllWanted fg_vector list
    → AllWanted fg_vector (collect_bucket fg_vector ts list).1
unfolding collect_bucket
bucket-AllWanted fg_vector [] list all = all
bucket-AllWanted fg_vector (t ∷ ts) list all = elim (Bool-cases (is_wanted fg_vector t)) [
  | inl hit ↦ rw hit (bucket-AllWanted fg_vector ts (t ∷ list) (hit, all))
  | inr other ↦ rw other (bucket-AllWanted fg_vector ts list all)
]

wheel-AllWanted :
    (fg_vector : ℕ → Bool) (idx pos n : ℕ) (tw : TimerWheel) (list : List Timer)
    → AllWanted fg_vector list
    → AllWanted fg_vector (collect_wheel fg_vector idx pos n tw list).1
unfolding collect_wheel
wheel-AllWanted fg_vector idx pos zero tw list all = all
wheel-AllWanted fg_vector idx pos (suc n) tw list all =
    wheel-AllWanted fg_vector idx (pos + 1) n _ _
      (bucket-AllWanted fg_vector (tw.wheels idx pos) list all)

from-AllWanted :
    (fg_vector : ℕ → Bool) (idx n : ℕ) (tw : TimerWheel) (list : List Timer)
    → AllWanted fg_vector list
    → AllWanted fg_vector (collect_from fg_vector idx n tw list).1
unfolding collect_from
from-AllWanted fg_vector idx zero tw list all = all
from-AllWanted fg_vector idx (suc n) tw list all =
    from-AllWanted fg_vector (idx + 1) n _ _
      (wheel-AllWanted fg_vector idx 0 wheel_size tw list all)

pub timer_collect_fgs-AllWanted :
    (fg_vector : ℕ → Bool) (tw : TimerWheel)
    → AllWanted fg_vector (timer_collect_fgs fg_vector tw []).0.1
unfolding timer_collect_fgs
timer_collect_fgs-AllWanted fg_vector tw = from-AllWanted fg_vector 0 wheel_count tw [] tt
