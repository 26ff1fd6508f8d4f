-- ===== src/Fg/Tests.antt =====
-- The flow groups: tests, and the theorems at a small system.
use ix.Base.{
  true, ℕ, ◌≡◌, ◌++◌, refl, false, none, some, List, [], ◌∷◌, arith, ◌==◌, if◌then◌else◌, length,
}
use ix.EthQueue.{Mbuf, EthRxQueue}
use ix.Timer.{Timer, TimerWheel}
use ix.Timer.Move.{
  collect_bucket, collect_wheel, collect_from, timer_collect_fgs, timer_reinject_fgs,
}
use ix.Fg.{EthFg, Cpu, System, Config, no_cpu}
use ix.Fg.Moving.{Arrival, at_prev, at_target}
use ix.Fg.Assign.{split_fg, take_from_queue, migrate_timers_to_remote}
use ix.Fg.Assign.Start.{CanMove}
use ix.Fg.Assign.Timers.{only, migrate_timers-loses}
use ix.Timer.Move.Wanted.{AllWanted}
use ix.Fg.Finish.Done.{HasMoved}
use ix.Fg.Finish.Order.{move, move-HasMoved}

abbrev packet : ℕ → ℕ → Mbuf
packet id fg_id = record { id = id; fg_id = fg_id; len = 60; nr_iov = 0 }

abbrev two_cores : Config
two_cores = record { eth_max_total_fg = 4; ncpu = 2; cpu_count = 2; cpu = λ i. i }

abbrev no_timers : TimerWheel
no_timers = record {
  now_us = 0;
  timer_pos = 0;
  wheels = λ i o. [];
  pending = λ i. false;
  fired = [];
  current_fg = none;
}

abbrev core : List EthRxQueue → TimerWheel → Cpu
core rxqs tw = record {
  rxqs = rxqs;
  local_mbuf_queue = [];
  remote_mbuf_queue = [];
  remote_timers = [];
  remote_timer_pos = 0;
  info = record { pending = false; prev_cpu = no_cpu; target_cpu = 0; fg_bitmap = [] };
  tw = tw;
  runlist = [];
  ready = false;
  input = [];
  dropped = [];
}

abbrev group : EthFg
group = record {
  fg_id = 1;
  in_transition = false;
  cur_cpu = 0;
  target_cpu = no_cpu;
  prev_cpu = no_cpu;
  eth = 0;
}

abbrev queue : List Mbuf → EthRxQueue
queue bufs = record { dev = 0; bufs = bufs; len = length bufs; input = [] }

abbrev system : TimerWheel → System
system tw = record {
  fgs = λ i. if i == 1 then some group else none;
  cpus = λ i.
      if i == 0
      then core (queue (packet 1 1 ∷ packet 2 2 ∷ packet 3 1 ∷ []) ∷ []) tw
      else core (queue [] ∷ []) no_timers;
  flow_group_cpu = λ i. 0;
}

can_move :
    CanMove two_cores 0 1 1 group
      (queue (packet 2 2 ∷ []) ∷ [])
      (packet 1 1 ∷ packet 3 1 ∷ [])
      (system no_timers)
unfolding take_from_queue split_fg
can_move = record {
  apart = ground arith;
  is_cpu = omega arith;
  is_rss = omega arith;
  valid = omega arith;
  group = refl;
  id = refl;
  settled = refl;
  own = refl;
  idle = refl;
  idle_target = refl;
  no_remote = refl;
  no_local = refl;
  no_work = refl;
  no_work_target = refl;
  packets = refl;
}

abbrev on_the_way : List Arrival
on_the_way = at_prev (packet 4 1) ∷ at_target (packet 6 1) ∷ at_prev (packet 5 1) ∷ []

none_collected : (timer_collect_fgs (λ i. i == 1) no_timers []).0.1 ≡ []
unfolding timer_collect_fgs collect_from collect_wheel collect_bucket
none_collected = refl

move-HasMoved_example :
    (t : System) × (move two_cores 7 0 1 1 on_the_way true (system no_timers) ≡ some t)
    × HasMoved 1 0 1 []
        ((packet 1 1 ∷ packet 3 1 ∷ packet 4 1 ∷ packet 5 1 ∷ []) ++ (packet 6 1 ∷ []))
        t
unfolding timer_reinject_fgs
move-HasMoved_example =
    move-HasMoved two_cores 7 0 1 1 group (queue (packet 2 2 ∷ []) ∷ [])
      (packet 1 1 ∷ packet 3 1 ∷ []) on_the_way true (system no_timers) no_timers can_move refl refl
      (refl, (refl, (refl, tt))) (λ e. omega arith) (rw none_collected refl)

abbrev timer_of : ℕ → Timer
timer_of g = record { id = g; expires = 100; fg_id = some g }

abbrev two_timers : TimerWheel
two_timers = record no_timers { wheels = λ i o. timer_of 1 ∷ timer_of 2 ∷ timer_of 3 ∷ [] }

abbrev to_core_1 : EthFg
to_core_1 = record group { target_cpu = 1 }

migrate_timers-loses_example :
    let t =
      migrate_timers_to_remote 0 2 to_core_1
        (migrate_timers_to_remote 0 1 to_core_1 (system two_timers)) in
    (((t.cpus 0).tw.wheels 0 5 ≡ timer_of 3 ∷ []) × AllWanted (only 2) (t.cpus 1).remote_timers)
migrate_timers-loses_example =
    migrate_timers-loses 0 1 2 0 5 to_core_1 to_core_1 (system two_timers) (ground arith) refl
      (omega arith) (omega arith)
