-- ===== src/Fg/Receive.antt =====
-- dp/core/ethfg.c: the packets that arrive while a flow group moves.
pub mod Arrive
use ix.Base.{
  ℕ, zero, suc, ◌+◌, ◌-◌, ◌^◌, ◌++◌, Bool, true, false, ◌&&◌, not, Option, none, some, List, [],
  ◌∷◌, ltb, leb, ◌==◌, if◌then◌else◌, ◌>>=◌, length,
}
use ix.EthQueue.{Mbuf, EthRxQueue, eth_recv}
use ix.Fg.{
  EthFg, MigrationInfo, Cpu, System, Config, Runner, early_transition_prev, transition_target,
  no_cpu, update, set_cpu, set_fg, cpu_run_on_one,
}

-- `MBUF_INVALID_FG_ID`
abbrev pub mbuf_invalid_fg_id : ℕ
mbuf_invalid_fg_id = 65535

-- `eth_recv_at_prev`
pub eth_recv_at_prev : EthFg → Mbuf → System → System
eth_recv_at_prev fg pkt s =
    set_cpu fg.target_cpu
      (record (s.cpus fg.target_cpu) {
        remote_mbuf_queue = (s.cpus fg.target_cpu).remote_mbuf_queue ++ (pkt ∷ []);
      })
      s

-- the packet that waits on the target core, in `eth_recv_at_target`
pub enqueue_local : ℕ → Mbuf → System → System
enqueue_local self pkt s =
    set_cpu self
      (record (s.cpus self) { local_mbuf_queue = (s.cpus self).local_mbuf_queue ++ (pkt ∷ []) }) s

module _ (cfg : Config) where
  -- `eth_recv_at_target`, on the core `self`
  pub eth_recv_at_target : ℕ → Mbuf → System → System
  eth_recv_at_target self pkt s =
      let told = cpu_run_on_one cfg early_transition_prev (s.cpus self).info.prev_cpu s in
      enqueue_local self pkt (if length (s.cpus self).local_mbuf_queue == 0 then told else s)

  -- the group that a packet is of, in `eth_recv_handle_fg_transition`
  pub with_fg_id : ℕ → Mbuf → Mbuf
  with_fg_id self pkt =
      if pkt.fg_id == mbuf_invalid_fg_id
      then record pkt { fg_id = cfg.eth_max_total_fg + self }
      else pkt

  -- the branches of `eth_recv_handle_fg_transition`, with the packet that `eth_recv` goes on with
  pub by_owner : ℕ → Mbuf → EthFg → System → Option Mbuf × System
  by_owner self pkt fg s =
      if not fg.in_transition && fg.cur_cpu == self
      then (some pkt, s)
      else if fg.in_transition && fg.prev_cpu == self
      then (none, eth_recv_at_prev fg pkt s)
      else if fg.in_transition && fg.target_cpu == self
      then (none, eth_recv_at_target self pkt s)
      else (
        none,
        set_cpu self (record (s.cpus self) { dropped = (s.cpus self).dropped ++ (pkt ∷ []) }) s,
      )

  -- `eth_recv_handle_fg_transition`, on the core `self`
  pub eth_recv_handle_fg_transition : ℕ → Mbuf → System → Option (Option Mbuf × System)
  eth_recv_handle_fg_transition self pkt s =
      let pkt' = with_fg_id self pkt in s.fgs pkt'.fg_id >>= λ fg. some (by_owner self pkt' fg s)

  -- `eth_recv` into the `i`-th queue, of which the first is the 0-th
  pub recv_into : ℕ → Mbuf → List EthRxQueue → Option (ℕ × List EthRxQueue)
  recv_into i pkt [] = none
  recv_into zero pkt (rxq ∷ rxqs) =
      let (error, rxq') = eth_recv false pkt rxq in some (error, rxq' ∷ rxqs)
  recv_into (suc i) pkt (rxq ∷ rxqs) = recv_into i pkt rxqs >>= λ r. some (r.0, rxq ∷ r.1)

  -- the rest of `eth_recv`, for a packet that is not kept for another core
  pub recv_here : ℕ → ℕ → Option Mbuf × System → Option System
  recv_here self i (none, s) = some s
  recv_here self i (some pkt, s) = recv_into i pkt (s.cpus self).rxqs >>= λ r.
      some (set_cpu self (record (s.cpus self) { rxqs = r.1 }) s)

  -- `eth_recv` on the core `self`, of a packet from its `i`-th queue
  pub eth_recv_on : ℕ → ℕ → Mbuf → System → Option System
  eth_recv_on self i pkt s = eth_recv_handle_fg_transition self pkt s >>= recv_here self i

  -- `eth_process_poll`, of the packets that the devices have, each with its queue
  unfoldable pub eth_process_poll : ℕ → List (ℕ × Mbuf) → System → Option System
  eth_process_poll self [] s = some s
  eth_process_poll self (p ∷ ps) s = eth_recv_on self p.0 p.1 s >>= eth_process_poll self ps
