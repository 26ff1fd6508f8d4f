-- ===== src/Fg/Assign.antt =====
-- dp/core/ethfg.c: `eth_fg_assign_to_cpu`, which gives flow groups to a core.
pub mod Packets
pub mod Start
pub mod Timers
use ix.Base.{
  ℕ, zero, suc, ◌+◌, ◌-◌, ◌^◌, ◌++◌, Bool, true, false, ◌&&◌, not, Option, none, some, List, [],
  ◌∷◌, ltb, leb, ◌==◌, if◌then◌else◌, ◌>>=◌, length,
}
use ix.EthQueue.{Mbuf, EthRxQueue}
use ix.Timer.{Timer, TimerWheel}
use ix.Timer.Move.{timer_collect_fgs}
use ix.Fg.{EthFg, MigrationInfo, Cpu, System, Config, no_cpu, update, set_cpu, set_fg}

-- The loop of `migrate_pkts_to_remote`: the packets that stay, and those of the group.
unfoldable pub split_fg : ℕ → List Mbuf → List Mbuf × List Mbuf
split_fg g [] = ([], [])
split_fg g (pkt ∷ pkts) =
    let rest = split_fg g pkts in
    if g == pkt.fg_id then (rest.0, pkt ∷ rest.1) else (pkt ∷ rest.0, rest.1)

-- `queue_from_fg` with what `migrate_pkts_to_remote` takes out of the queue
unfoldable pub take_from_queue : ℕ → ℕ → List EthRxQueue → Option (List EthRxQueue × List Mbuf)
take_from_queue g dev [] = none
take_from_queue g dev (rxq ∷ rxqs) =
    let rest = take_from_queue g dev rxqs >>= λ r. some (rxq ∷ r.0, r.1) in
    let (kept, moved) = split_fg g rxq.bufs in
    if dev == rxq.dev
    then some (record rxq { bufs = kept; len = rxq.len - length moved } ∷ rxqs, moved)
    else rest

-- the two queues of `migrate_pkts_to_remote` after the loop
pub with_moved : ℕ → ℕ → List EthRxQueue → List Mbuf → System → System
with_moved self target rxqs moved s =
    let s' = set_cpu self (record (s.cpus self) { rxqs = rxqs }) s in
    set_cpu target
      (record (s'.cpus target) { remote_mbuf_queue = (s'.cpus target).remote_mbuf_queue ++ moved })
      s'

-- `migrate_pkts_to_remote`, on the core `self`
pub migrate_pkts_to_remote : ℕ → EthFg → System → Option System
migrate_pkts_to_remote self fg s = take_from_queue fg.fg_id fg.eth (s.cpus self).rxqs >>= λ r.
    some (with_moved self fg.target_cpu r.0 r.1 s)

-- `migrate_timers_to_remote`: the list of the target core is emptied first.
pub migrate_timers_to_remote : ℕ → ℕ → EthFg → System → System
migrate_timers_to_remote self fg_id fg s =
    let ((tw, list), (timer_pos, count)) =
      timer_collect_fgs (λ i. i == fg_id) (s.cpus self).tw [] in
    let s' = set_cpu self (record (s.cpus self) { tw = tw }) s in
    set_cpu fg.target_cpu
      (record (s'.cpus fg.target_cpu) { remote_timers = list; remote_timer_pos = timer_pos }) s'

-- the group in `eth_fg_assign_single_to_cpu` when it starts to move
abbrev pub moving : ℕ → EthFg → EthFg
moving target fg = record fg {
  in_transition = true;
  prev_cpu = fg.cur_cpu;
  cur_cpu = no_cpu;
  target_cpu = target;
}

-- what follows the branches of `eth_fg_assign_single_to_cpu`
abbrev pub assigned : ℕ → ℕ → System → System
assigned fg_id cpu s = record s { flow_group_cpu = update fg_id cpu s.flow_group_cpu }

module _ (cfg : Config) where
  -- the branch of `eth_fg_assign_single_to_cpu` that moves a group
  pub start_move : ℕ → ℕ → ℕ → EthFg → System → Option (Bool × System)
  start_move self fg_id cpu fg s =
      migrate_pkts_to_remote self (moving (cfg.cpu cpu) fg)
        (set_fg fg_id (moving (cfg.cpu cpu) fg) s)
      >>= λ s'. some (
        true,
        assigned fg_id cpu (migrate_timers_to_remote self fg_id (moving (cfg.cpu cpu) fg) s'),
      )

  -- `eth_fg_assign_single_to_cpu`, on the core `self`: whether the group moves
  pub eth_fg_assign_single_to_cpu : ℕ → ℕ → ℕ → System → Option (Bool × System)
  eth_fg_assign_single_to_cpu self fg_id cpu s = s.fgs fg_id >>= λ fg.
      if fg.in_transition
      then none
      else if fg.cur_cpu == cfg.cpu cpu
      then some (false, s)
      else if fg.cur_cpu == no_cpu
      then some (false, assigned fg_id cpu (set_fg fg_id (record fg { cur_cpu = cfg.cpu cpu }) s))
      else if fg.cur_cpu == self
      then start_move self fg_id cpu fg s
      else none

  -- the loop over the bitmap: the groups that move
  pub assign_all : ℕ → ℕ → List ℕ → System → Option (List ℕ × System)
  assign_all self cpu [] s = some ([], s)
  assign_all self cpu (fg_id ∷ fg_ids) s = eth_fg_assign_single_to_cpu self fg_id cpu s >>= λ r.
      assign_all self cpu fg_ids r.1 >>= λ later.
      some (if r.0 then fg_id ∷ later.0 else later.0, later.1)

  -- The loop over `fgs`: whether the core has a group below the `n`-th.
  pub has_group : ℕ → ℕ → System → Bool
  has_group self zero s = false
  has_group self (suc n) s =
      let rest = has_group self n s in
      elim (s.fgs n) [ none ↦ rest | some fg ↦ if fg.cur_cpu == self then true else rest ]

  -- What `migrate_fdir` does to a group; its filters and connections are left out.
  pub migrate_fdir : ℕ → EthFg → EthFg
  migrate_fdir cpu fg = record fg { target_cpu = cfg.cpu cpu; cur_cpu = cfg.cpu cpu }

  -- one round of the loop over the outbound groups, by the group of the `n`-th core
  pub outbound_at : ℕ → ℕ → ℕ → Option EthFg → System → System
  outbound_at self cpu n none s = s
  outbound_at self cpu n (some fg) s =
      if fg.cur_cpu == self then set_fg (cfg.eth_max_total_fg + n) (migrate_fdir cpu fg) s else s

  -- the loop over the outbound groups of the first `n` cores
  pub migrate_outbound : ℕ → ℕ → ℕ → System → System
  migrate_outbound self cpu zero s = s
  migrate_outbound self cpu (suc n) s =
      let s' = migrate_outbound self cpu n s in
      outbound_at self cpu n (s'.fgs (cfg.eth_max_total_fg + n)) s'

  -- the migration that `eth_fg_assign_to_cpu` starts for the groups `moved`
  pub start_migration : ℕ → ℕ → List ℕ → System → System
  start_migration self cpu [] s =
      set_cpu self
        (record (s.cpus self) {
          info = record ((s.cpus self).info) { fg_bitmap = [] };
          ready = true;
        })
        s
  start_migration self cpu (g ∷ gs) s =
      let info : MigrationInfo = record {
        pending = true;
        prev_cpu = self;
        target_cpu = cfg.cpu cpu;
        fg_bitmap = g ∷ gs;
      } in
      let s' = set_cpu self (record (s.cpus self) { info = info }) s in
      set_cpu (cfg.cpu cpu) (record (s'.cpus (cfg.cpu cpu)) { info = info }) s'

  -- The end of `eth_fg_assign_to_cpu`. Its last loop moves nothing, as `migrate` is 0 throughout.
  pub assign_outbound : ℕ → ℕ → System → System
  assign_outbound self cpu s =
      if has_group self cfg.eth_max_total_fg s then s else migrate_outbound self cpu cfg.ncpu s

  -- `eth_fg_assign_to_cpu`, on the core `self`, of the groups of one device
  pub eth_fg_assign_to_cpu : ℕ → List ℕ → ℕ → System → Option System
  eth_fg_assign_to_cpu self fg_bitmap cpu s =
      if (s.cpus self).info.prev_cpu == no_cpu && (s.cpus (cfg.cpu cpu)).info.prev_cpu == no_cpu
      then (assign_all self cpu fg_bitmap s >>= λ r.
          some (assign_outbound self cpu (start_migration self cpu r.0 r.1)))
      else none
