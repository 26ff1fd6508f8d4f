-- ===== src/Fg/Assign/Start.antt =====
-- dp/core/ethfg.c: the start of a move.
use ix.Base.{
  ℕ, zero, suc, ◌+◌, ◌<◌, ◌≡◌, ◌≢◌, ◌++◌, refl, ap, ◌∙◌, true, false, Option, none, some, List, [],
  ◌∷◌, arith, ◌==◌, Bool-cases, inl, inr, ==-refl,
}
use ix.EthQueue.{Mbuf, EthRxQueue}
use ix.Timer.{Timer, TimerWheel}
use ix.Timer.Move.{timer_collect_fgs}
use ix.Fg.{EthFg, MigrationInfo, Cpu, System, Config, no_cpu, set_fg}
use ix.Fg.Store.{update_self, two_writes}
use ix.Fg.Assign.{
  moving, take_from_queue, with_moved, migrate_pkts_to_remote, migrate_timers_to_remote, start_move,
  assigned, eth_fg_assign_single_to_cpu, assign_all, start_migration, has_group, outbound_at,
  migrate_outbound, assign_outbound, eth_fg_assign_to_cpu,
}
use ix.Fg.Moving.{IsMoving, IsArmed}

outbound-step :
    (cfg : Config) (self cpu n g : ℕ) (s : System) (o : Option EthFg)
    → g < cfg.eth_max_total_fg
    → let t = outbound_at cfg self cpu n o s in (t.cpus ≡ s.cpus) × (t.fgs g ≡ s.fgs g)
unfolding outbound_at
outbound-step cfg self cpu n g s none below = (refl, refl)
outbound-step cfg self cpu n g s (some fg) below = elim (Bool-cases (fg.cur_cpu == self)) [
  | inl own ↦
      let other : (g == cfg.eth_max_total_fg + n) ≡ false = ground arith in
      rw own (refl, rw other refl)
  | inr away ↦ rw away (refl, refl)
]

outbound-keeps :
    (cfg : Config) (self cpu n g : ℕ) (s : System)
    → g < cfg.eth_max_total_fg
    → ((migrate_outbound cfg self cpu n s).cpus ≡ s.cpus)
      × ((migrate_outbound cfg self cpu n s).fgs g ≡ s.fgs g)
unfolding migrate_outbound
outbound-keeps cfg self cpu zero g s below = (refl, refl)
outbound-keeps cfg self cpu (suc n) g s below =
    let s' = migrate_outbound cfg self cpu n s in
    let (cpus, fgs) = outbound-keeps cfg self cpu n g s below in
    let (cpus', fgs') =
      outbound-step cfg self cpu n g s' (s'.fgs (cfg.eth_max_total_fg + n)) below in
    (cpus' ∙ cpus, fgs' ∙ fgs)

pub assign_outbound-keeps :
    (cfg : Config) (self cpu g : ℕ) (s : System)
    → g < cfg.eth_max_total_fg
    → ((assign_outbound cfg self cpu s).cpus ≡ s.cpus)
      × ((assign_outbound cfg self cpu s).fgs g ≡ s.fgs g)
unfolding assign_outbound
assign_outbound-keeps cfg self cpu g s below =
    elim (Bool-cases (has_group cfg self cfg.eth_max_total_fg s)) [
      | inl e ↦ rw e (refl, refl)
      | inr e ↦ rw e (outbound-keeps cfg self cpu cfg.ncpu g s below)
    ]

IsMoving-cong :
    (g self target : ℕ) (fg : EthFg) (rq lq inp : List Mbuf) (ts : List Timer) (pos : ℕ)
    (tw : TimerWheel) (s t : System)
    → t.cpus ≡ s.cpus
    → t.fgs g ≡ s.fgs g
    → IsMoving g self target fg rq lq inp ts pos tw s
    → IsMoving g self target fg rq lq inp ts pos tw t
IsMoving-cong g self target fg rq lq inp ts pos tw s t cpus fgs is = record {
  group = fgs ∙ is.group;
  remote = ap (λ f. (f target).remote_mbuf_queue) cpus ∙ is.remote;
  local = ap (λ f. (f target).local_mbuf_queue) cpus ∙ is.local;
  input = ap (λ f. (f target).input) cpus ∙ is.input;
  timers = ap (λ f. (f target).remote_timers) cpus ∙ is.timers;
  timer_pos = ap (λ f. (f target).remote_timer_pos) cpus ∙ is.timer_pos;
  wheel = ap (λ f. (f target).tw) cpus ∙ is.wheel;
  bitmap = ap (λ f. (f self).info.fg_bitmap) cpus ∙ is.bitmap;
  prev = ap (λ f. (f self).info.prev_cpu) cpus ∙ is.prev;
}

IsArmed-cong :
    (self target : ℕ) (lq : List Mbuf) (s t : System)
    → t.cpus ≡ s.cpus
    → IsArmed self target lq s
    → IsArmed self target lq t
IsArmed-cong self target lq s t cpus h = record {
  armed = ap (λ f. (f self).info.pending) cpus ∙ h.armed;
  to = ap (λ f. (f self).info.target_cpu) cpus ∙ h.to;
  back = ap (λ f. (f target).info.prev_cpu) cpus ∙ h.back;
  waiting = ap (λ f. (f target).runlist) cpus ∙ h.waiting;
  told = elim h.told [
    | inl e ↦ inl (e.0, ap (λ f. (f self).runlist) cpus ∙ e.1)
    | inr e ↦ inr (e.0, ap (λ f. (f self).runlist) cpus ∙ e.1)
  ];
}

-- Before a move of the group `g` from the core `self` to the core `target`: no move is under way
-- between the two, no packet waits on the target, no function waits to be run, and the group is with `self`. `rxqs` and `moved`
-- are what the queues of `self` keep and give.
pub record CanMove (cfg : Config) (self cpu g : ℕ) (fg : EthFg) (rxqs : List EthRxQueue)
    (moved : List Mbuf) (s : System) : Type 0 where
  pub apart : self ≢ cfg.cpu cpu
  pub is_cpu : self < no_cpu
  pub is_rss : g < cfg.eth_max_total_fg
  pub valid : g < 65535
  pub group : s.fgs g ≡ some fg
  pub id : fg.fg_id ≡ g
  pub settled : fg.in_transition ≡ false
  pub own : fg.cur_cpu ≡ self
  pub idle : (s.cpus self).info.prev_cpu ≡ no_cpu
  pub idle_target : (s.cpus (cfg.cpu cpu)).info.prev_cpu ≡ no_cpu
  pub no_remote : (s.cpus (cfg.cpu cpu)).remote_mbuf_queue ≡ []
  pub no_local : (s.cpus (cfg.cpu cpu)).local_mbuf_queue ≡ []
  pub no_work : (s.cpus self).runlist ≡ []
  pub no_work_target : (s.cpus (cfg.cpu cpu)).runlist ≡ []
  pub packets : take_from_queue g fg.eth (s.cpus self).rxqs ≡ some (rxqs, moved)

module _ (cfg : Config) (self cpu g : ℕ) (fg : EthFg) (rxqs : List EthRxQueue) (moved : List Mbuf)
    (s : System) (can : CanMove cfg self cpu g fg rxqs moved s) where
  abbrev target : ℕ
  target = cfg.cpu cpu

  abbrev collected : (TimerWheel × List Timer) × (ℕ × ℕ)
  collected = timer_collect_fgs (λ i. i == g) (s.cpus self).tw []

  -- the state that `eth_fg_assign_single_to_cpu` leaves
  abbrev single : System
  single = assigned g cpu (
      migrate_timers_to_remote self g (moving target fg)
        (with_moved self target rxqs moved (set_fg g (moving target fg) s)))

  single_lem : eth_fg_assign_single_to_cpu cfg self g cpu s ≡ some (true, single)
  unfolding eth_fg_assign_single_to_cpu start_move migrate_pkts_to_remote
  single_lem =
      let a : (self == target) ≡ false = ground (arith, can.apart) in
      let b : (self == no_cpu) ≡ false = ground (arith, can.is_cpu) in
      rw (can.group, can.settled, can.own, a, b, ==-refl self, can.id, can.packets) refl

  pub started : System
  started = assign_outbound cfg self cpu (start_migration cfg self cpu (g ∷ []) single)

  pub eth_fg_assign_to_cpu-started : eth_fg_assign_to_cpu cfg self (g ∷ []) cpu s ≡ some started
  unfolding eth_fg_assign_to_cpu assign_all started
  eth_fg_assign_to_cpu-started = rw (can.idle, can.idle_target, ==-refl no_cpu, single_lem) refl

  -- the cores after each step
  abbrev s1 : System
  s1 = set_fg g (moving target fg) s

  abbrev s2 : System
  s2 = with_moved self target rxqs moved s1

  abbrev s4 : System
  s4 = start_migration cfg self cpu (g ∷ []) single

  a : (self == target) ≡ false
  a = ground (arith, can.apart)

  b : (target == self) ≡ false
  b = ground (arith, can.apart)

  moved_cpu : Cpu → Cpu
  moved_cpu c = record c { remote_mbuf_queue = c.remote_mbuf_queue ++ moved }

  timers_cpu : Cpu → Cpu
  timers_cpu c = record c { remote_timers = collected.0.1; remote_timer_pos = collected.1.0 }

  with_wheel : Cpu → Cpu
  with_wheel c = record c { tw = collected.0.0 }

  abbrev info : MigrationInfo
  info = record { pending = true; prev_cpu = self; target_cpu = target; fg_bitmap = g ∷ [] }

  info_cpu : Cpu → Cpu
  info_cpu c = record c { info = info }

  s2_lem :
      (s2.cpus target ≡ moved_cpu (s.cpus target))
      × (s2.cpus self ≡ record (s.cpus self) { rxqs = rxqs })
  unfolding with_moved moved_cpu
  s2_lem = two_writes self target (record (s.cpus self) { rxqs = rxqs }) moved_cpu s.cpus a b

  single-cpus :
      (single.cpus target ≡ timers_cpu (s2.cpus target))
      × (single.cpus self ≡ record (s2.cpus self) { tw = collected.0.0 })
  unfolding migrate_timers_to_remote timers_cpu
  single-cpus =
      let same : timer_collect_fgs (λ i. i == g) (s2.cpus self).tw [] ≡ collected =
        ap (λ c. timer_collect_fgs (λ i. i == g) c.tw []) s2_lem.1 in
      rw same (
        two_writes self target (record (s2.cpus self) { tw = collected.0.0 }) timers_cpu s2.cpus a
          b)

  s4-cpus :
      (s4.cpus target ≡ info_cpu (single.cpus target))
      × (s4.cpus self ≡ info_cpu (single.cpus self))
  unfolding start_migration info_cpu
  s4-cpus = two_writes self target (info_cpu (single.cpus self)) info_cpu single.cpus a b

  at_target_lem : s4.cpus target ≡ info_cpu (timers_cpu (moved_cpu (s.cpus target)))
  at_target_lem = s4-cpus.0 ∙ ap info_cpu (single-cpus.0 ∙ ap timers_cpu s2_lem.0)

  s4-fgs : s4.fgs g ≡ some (moving target fg)
  unfolding start_migration migrate_timers_to_remote with_moved
  s4-fgs = update_self g (some (moving target fg)) s.fgs

  s4-IsMoving :
      IsMoving g self target fg moved []
        (s.cpus target).input
        collected.0.1
        collected.1.0
        (s.cpus target).tw
        s4
  unfolding info_cpu timers_cpu moved_cpu
  s4-IsMoving = record {
    group = s4-fgs;
    remote = ap (λ c. c.remote_mbuf_queue) at_target_lem ∙ ap (λ l. l ++ moved) can.no_remote;
    local = ap (λ c. c.local_mbuf_queue) at_target_lem ∙ can.no_local;
    input = ap (λ c. c.input) at_target_lem;
    timers = ap (λ c. c.remote_timers) at_target_lem;
    timer_pos = ap (λ c. c.remote_timer_pos) at_target_lem;
    wheel = ap (λ c. c.tw) at_target_lem;
    bitmap = ap (λ c. c.info.fg_bitmap) s4-cpus.1;
    prev = ap (λ c. c.info.prev_cpu) s4-cpus.1;
  }

  -- what holds of the cores and of the group is not changed by the outbound groups
  pub started-IsMoving :
      IsMoving g self target fg moved []
        (s.cpus target).input
        collected.0.1
        collected.1.0
        (s.cpus target).tw
        started
  unfolding started
  started-IsMoving =
      let (cpus, fgs) = assign_outbound-keeps cfg self cpu g s4 can.is_rss in
      IsMoving-cong g self target fg moved [] (s.cpus target).input collected.0.1 collected.1.0
        (s.cpus target).tw s4 started cpus fgs s4-IsMoving

  s4-IsArmed : IsArmed self target [] s4
  unfolding info_cpu timers_cpu moved_cpu with_wheel
  s4-IsArmed = record {
    armed = ap (λ c. c.info.pending) s4-cpus.1;
    to = ap (λ c. c.info.target_cpu) s4-cpus.1;
    back = ap (λ c. c.info.prev_cpu) at_target_lem;
    waiting = ap (λ c. c.runlist) at_target_lem ∙ can.no_work_target;
    told = inl (
      refl,
      ap (λ c. c.runlist) (s4-cpus.1 ∙ ap info_cpu (single-cpus.1 ∙ ap with_wheel s2_lem.1))
          ∙ can.no_work,
    );
  }

  pub started-IsArmed : IsArmed self target [] started
  unfolding started
  started-IsArmed =
      let (cpus, fgs) = assign_outbound-keeps cfg self cpu g s4 can.is_rss in
      IsArmed-cong self target [] s4 started cpus s4-IsArmed
