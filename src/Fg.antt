-- ===== src/Fg.antt =====
-- dp/core/ethfg.c, with `cpu_run_on_one` and `cpu_do_bookkeeping` of dp/core/cpu.c: the flow groups
-- and their moves between cores. What a core keeps in its per-CPU variables is a record, and the
-- handlers of the cores are run one after the other. `none` is a failed assertion or a null pointer.
-- A bitmap lists the groups whose bits are set, the lowest first. The measurements in the
-- scratchpad are left out.
pub mod Store
pub mod Moving
pub mod Assign
pub mod Receive
pub mod Finish
mod Tests
use ix.Base.{
  ℕ, zero, suc, ◌+◌, ◌-◌, ◌^◌, ◌++◌, Bool, true, false, ◌&&◌, not, Option, none, some, List, [],
  ◌∷◌, ltb, leb, ◌==◌, if◌then◌else◌, ◌>>=◌, length,
}
use ix.EthQueue.{Mbuf, EthRxQueue}
use ix.Timer.{Timer, TimerWheel}

-- `(unsigned int) -1`
abbrev pub no_cpu : ℕ
no_cpu = 4294967295

-- `struct eth_fg`
pub record EthFg : Type 0 where
  pub fg_id : ℕ
  pub in_transition : Bool
  pub cur_cpu : ℕ
  pub target_cpu : ℕ
  pub prev_cpu : ℕ
  pub eth : ℕ

-- `struct migration_info`; `pending` says whether its timer is armed.
pub record MigrationInfo : Type 0 where
  pub pending : Bool
  pub prev_cpu : ℕ
  pub target_cpu : ℕ
  pub fg_bitmap : List ℕ

-- A function that a core runs for another, `struct cpu_runner`. The argument of
-- `transition_handler_target` is the migration of a core.
pub data Runner : Type 0 where
  early_transition_prev : Runner
  transition_target : ℕ → Runner

-- The per-CPU variables, with the packets that `eth_input` was given and those that were dropped.
pub record Cpu : Type 0 where
  pub rxqs : List EthRxQueue
  pub local_mbuf_queue : List Mbuf
  pub remote_mbuf_queue : List Mbuf
  pub remote_timers : List Timer
  pub remote_timer_pos : ℕ
  pub info : MigrationInfo
  pub tw : TimerWheel
  pub runlist : List Runner
  pub ready : Bool
  pub input : List Mbuf
  pub dropped : List Mbuf

-- `fgs`, the cores, and `flow_group[].cpu` of the memory that the control plane reads. The driver
-- gets the same assignment for its redirection table.
pub record System : Type 0 where
  pub fgs : ℕ → Option EthFg
  pub cpus : ℕ → Cpu
  pub flow_group_cpu : ℕ → ℕ

-- `ETH_MAX_TOTAL_FG`, `NCPU`, `cpu_count` and `CFG.cpu`
pub record Config : Type 0 where
  pub eth_max_total_fg : ℕ
  pub ncpu : ℕ
  pub cpu_count : ℕ
  pub cpu : ℕ → ℕ

abbrev pub update {ℓ} : {A : Type ℓ} → ℕ → A → (ℕ → A) → ℕ → A
update i v f j = if j == i then v else f j

abbrev pub set_cpu : ℕ → Cpu → System → System
set_cpu i c s = record s { cpus = update i c s.cpus }

abbrev pub set_fg : ℕ → EthFg → System → System
set_fg i fg s = record s { fgs = update i (some fg) s.fgs }

-- `init_migration_cpu`
unfoldable init_migration_cpu : Cpu → Cpu
init_migration_cpu c = record c { info = record (c.info) { pending = false; prev_cpu = no_cpu } }

-- `eth_fg_init`, for the group in the memory `fg`
unfoldable eth_fg_init : EthFg → EthFg
eth_fg_init fg = record fg { cur_cpu = no_cpu; in_transition = false }

-- `cpu_run_on_one`, when memory can be had for the runner
pub cpu_run_on_one : Config → Runner → ℕ → System → System
cpu_run_on_one cfg runner cpu s =
    if leb cfg.cpu_count cpu
    then s
    else set_cpu cpu (record (s.cpus cpu) { runlist = runner ∷ (s.cpus cpu).runlist }) s
