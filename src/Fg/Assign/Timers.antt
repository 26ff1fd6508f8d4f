-- ===== src/Fg/Assign/Timers.antt =====
-- dp/core/ethfg.c: the timers of the groups that move in one command.
use ix.Base.{ℕ, ◌<◌, ◌≡◌, ◌≢◌, sym, ap, ◌∙◌, Bool, List, [], arith, ◌==◌}
use mathlib.Core.Path.{subst}
use ix.Timer.{Timer, wheel_count, wheel_size}
use ix.Timer.Move.{timer_collect_fgs}
use ix.Timer.Move.Collect.{others, timer_collect_fgs_lem}
use ix.Timer.Move.Wanted.{AllWanted, timer_collect_fgs-AllWanted}
use ix.Fg.{EthFg, Cpu, System}
use ix.Fg.Store.{two_writes}
use ix.Fg.Assign.{migrate_timers_to_remote}

-- the `fg_vector` of one group
abbrev pub only : ℕ → ℕ → Bool
only g i = i == g

set_timers : List Timer → ℕ → Cpu → Cpu
set_timers ts pos c = record c { remote_timers = ts; remote_timer_pos = pos }

pub migrate_timers-cpus :
    (self g : ℕ) (fg : EthFg) (s : System)
    → self ≢ fg.target_cpu
    → let collected = timer_collect_fgs (only g) (s.cpus self).tw [] in
      let t = migrate_timers_to_remote self g fg s in
      (((t.cpus fg.target_cpu).remote_timers ≡ collected.0.1) × ((t.cpus self).tw ≡ collected.0.0))
unfolding migrate_timers_to_remote set_timers
migrate_timers-cpus self g fg s apart =
    let collected = timer_collect_fgs (only g) (s.cpus self).tw [] in
    let (at, here) =
      two_writes self fg.target_cpu (record (s.cpus self) { tw = collected.0.0 })
        (set_timers collected.0.1 collected.1.0) s.cpus (ground (arith, apart))
        (ground (arith, apart)) in
    (ap (λ c. c.remote_timers) at, ap (λ c. c.tw) here)

-- When two groups move from one core to another in one command, the wheel of the old core keeps the
-- timers of neither, but the list that the new core gets holds timers of the second group only:
-- those of the first, if it is another group, are in none of the two.
pub migrate_timers-loses :
    (self g h i o : ℕ) (fg fg' : EthFg) (s : System)
    → self ≢ fg.target_cpu
    → fg'.target_cpu ≡ fg.target_cpu
    → i < wheel_count
    → o < wheel_size
    → let t = migrate_timers_to_remote self h fg' (migrate_timers_to_remote self g fg s) in
      (((t.cpus self).tw.wheels i o
          ≡ others (only h) (others (only g) ((s.cpus self).tw.wheels i o)))
        × AllWanted (only h) (t.cpus fg.target_cpu).remote_timers)
migrate_timers-loses self g h i o fg fg' s apart same small small' =
    let s1 = migrate_timers_to_remote self g fg s in
    let (first, wheel) = migrate_timers-cpus self g fg s apart in
    let (second, wheel') = migrate_timers-cpus self h fg' s1 (λ e. apart (e ∙ same)) in
    let t = migrate_timers_to_remote self h fg' s1 in
    let (left, _, _) = timer_collect_fgs_lem (only g) (s.cpus self).tw [] i o small small' in
    let (left', _, _) = timer_collect_fgs_lem (only h) (s1.cpus self).tw [] i o small small' in
    (
      ap (λ w. w.wheels i o) wheel'
          ∙ left'
          ∙ ap (others (only h)) (ap (λ w. w.wheels i o) wheel ∙ left),
      subst (AllWanted (only h)) (sym (ap (λ c. (t.cpus c).remote_timers) (sym same) ∙ second))
          (timer_collect_fgs-AllWanted (only h) (s1.cpus self).tw),
    )
