-- ===== src/Fg/Finish.antt =====
-- dp/core/ethfg.c: the end of a move.
pub mod Input
pub mod Done
pub mod Wake
pub mod Order
use ix.Base.{
  ℕ, zero, suc, ◌+◌, ◌-◌, ◌^◌, ◌++◌, Bool, true, false, ◌&&◌, not, Option, none, some, List, [],
  ◌∷◌, ltb, leb, ◌==◌, if◌then◌else◌, ◌>>=◌, length,
}
use ix.EthQueue.{Mbuf, EthRxQueue}
use ix.Timer.{Timer, TimerWheel}
use ix.Timer.Move.{timer_reinject_fgs}
use ix.Fg.{
  EthFg, MigrationInfo, Cpu, System, Config, Runner, early_transition_prev, transition_target,
  no_cpu, update, set_cpu, set_fg, cpu_run_on_one,
}
use ix.Fg.Receive.{eth_process_poll}

-- `timer_del` of the timer of the core
abbrev pub disarm : ℕ → System → System
disarm self s =
    set_cpu self (record (s.cpus self) { info = record ((s.cpus self).info) { pending = false } }) s

-- `migration_info.prev_cpu = -1`
abbrev pub clear_prev : ℕ → System → System
clear_prev self s =
    set_cpu self (record (s.cpus self) { info = record ((s.cpus self).info) { prev_cpu = no_cpu } })
      s

-- a group in `transition_handler_target`
abbrev pub arrived : EthFg → EthFg
arrived fg = record fg {
  in_transition = false;
  cur_cpu = fg.target_cpu;
  target_cpu = no_cpu;
  prev_cpu = no_cpu;
}

-- the loop over the bitmap in `transition_handler_target`
pub finish_groups : List ℕ → System → Option System
finish_groups [] s = some s
finish_groups (g ∷ gs) s = s.fgs g >>= λ fg. finish_groups gs (set_fg g (arrived fg) s)

-- `eth_input` of each packet, which asserts that the core has the group of the packet
pub input_all : ℕ → List Mbuf → System → Option System
input_all self [] s = some s
input_all self (pkt ∷ pkts) s = s.fgs pkt.fg_id >>= λ fg.
    if fg.cur_cpu == self
    then input_all self pkts
        (set_cpu self (record (s.cpus self) { input = (s.cpus self).input ++ (pkt ∷ []) }) s)
    else none

-- the queues of `transition_handler_target` when their packets were given to `eth_input`
pub empty_queues : ℕ → System → System
empty_queues self s =
    set_cpu self (record (s.cpus self) { remote_mbuf_queue = []; local_mbuf_queue = [] }) s

-- `migrate_timers_from_remote`
pub migrate_timers_from_remote : ℕ → ℕ → System → Option System
migrate_timers_from_remote now self s =
    timer_reinject_fgs now (s.cpus self).remote_timer_pos (s.cpus self).remote_timers
      (s.cpus self).tw
    >>= λ tw. some (set_cpu self (record (s.cpus self) { tw = tw }) s)

-- the end of `transition_handler_target`, of a migration from the core `prev`
pub finish_info : ℕ → ℕ → ℕ → System → System
finish_info self from prev s =
    let s' = clear_prev from (clear_prev self s) in
    set_cpu prev (record (s'.cpus prev) { ready = true }) s'

-- `transition_handler_target`, on the core `self`, for the migration of the core `from`
pub transition_handler_target : ℕ → ℕ → ℕ → System → Option System
transition_handler_target now self from s =
    let info = (s.cpus from).info in
    finish_groups info.fg_bitmap s >>= λ s1.
    input_all self ((s.cpus self).remote_mbuf_queue ++ (s.cpus self).local_mbuf_queue) s1 >>= λ s2.
    migrate_timers_from_remote now self (empty_queues self s2) >>= λ s3.
    some (finish_info self from info.prev_cpu s3)

module _ (cfg : Config) where
  -- `transition_handler_prev`, on the core `self`, when its timer has fired
  pub transition_handler_prev : ℕ → System → System
  transition_handler_prev self s =
      cpu_run_on_one cfg (transition_target self) (s.cpus self).info.target_cpu (disarm self s)

  -- `early_transition_handler_prev`, on the core `self`, whose devices have the packets `polled`
  pub early_transition_handler_prev : List (ℕ × Mbuf) → ℕ → System → Option System
  early_transition_handler_prev polled self s =
      let polled_all = eth_process_poll cfg self polled (disarm self s) >>= λ s'.
      some (cpu_run_on_one cfg (transition_target self) (s.cpus self).info.target_cpu s') in
      if (s.cpus self).info.pending then polled_all else some s

  -- one function in `cpu_do_bookkeeping`
  pub run_one : ℕ → List (ℕ × Mbuf) → ℕ → Runner → System → Option System
  run_one now polled self early_transition_prev s = early_transition_handler_prev polled self s
  run_one now polled self (transition_target from) s = transition_handler_target now self from s

  pub run_all : ℕ → List (ℕ × Mbuf) → ℕ → List Runner → System → Option System
  run_all now polled self [] s = some s
  run_all now polled self (r ∷ rs) s = run_one now polled self r s >>= run_all now polled self rs

  -- `cpu_do_bookkeeping`, on the core `self`
  pub cpu_do_bookkeeping : ℕ → List (ℕ × Mbuf) → ℕ → System → Option System
  cpu_do_bookkeeping now polled self s =
      run_all now polled self (s.cpus self).runlist
        (set_cpu self (record (s.cpus self) { runlist = [] }) s)
