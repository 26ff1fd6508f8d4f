-- ===== src/Fg/Moving.antt =====
-- dp/core/ethfg.c: a flow group between two cores, and the packets that arrive meanwhile.
use ix.Base.{ℕ, ◌<◌, ◌≡◌, ◌⊎◌, some, List, [], ◌∷◌, true, length}
use ix.EthQueue.{Mbuf}
use ix.Timer.{Timer, TimerWheel}
use ix.Fg.{EthFg, System, early_transition_prev}
use ix.Fg.Assign.{moving}

-- The group `g` is between the core `self` and the core `target`; the packets `rq` and `lq` wait on
-- the target, to which `eth_input` was given `inp`, with the timers `ts`, collected at `pos`.
pub record IsMoving (g self target : ℕ) (fg : EthFg) (rq lq inp : List Mbuf) (ts : List Timer)
    (pos : ℕ) (tw : TimerWheel) (s : System) : Type 0 where
  pub group : s.fgs g ≡ some (moving target fg)
  pub remote : (s.cpus target).remote_mbuf_queue ≡ rq
  pub local : (s.cpus target).local_mbuf_queue ≡ lq
  pub input : (s.cpus target).input ≡ inp
  pub timers : (s.cpus target).remote_timers ≡ ts
  pub timer_pos : (s.cpus target).remote_timer_pos ≡ pos
  pub wheel : (s.cpus target).tw ≡ tw
  pub bitmap : (s.cpus self).info.fg_bitmap ≡ g ∷ []
  pub prev : (s.cpus self).info.prev_cpu ≡ self

-- The move will end: the timer of the core `self` is armed, both cores know of each other, nothing
-- else waits to be run on them, and once packets `lq` wait on the target the old core has been told.
pub record IsArmed (self target : ℕ) (lq : List Mbuf) (s : System) : Type 0 where
  pub armed : (s.cpus self).info.pending ≡ true
  pub to : (s.cpus self).info.target_cpu ≡ target
  pub back : (s.cpus target).info.prev_cpu ≡ self
  pub waiting : (s.cpus target).runlist ≡ []
  pub told :
      ((lq ≡ []) × ((s.cpus self).runlist ≡ []))
      ⊎ ((0 < length lq) × ((s.cpus self).runlist ≡ early_transition_prev ∷ []))

-- packets that the hardware still brings to the old core, and those that it brings to the new one
pub data Arrival : Type 0 where
  at_prev : Mbuf → Arrival
  at_target : Mbuf → Arrival

abbrev pub packet_of : Arrival → Mbuf
packet_of (at_prev pkt) = pkt
packet_of (at_target pkt) = pkt

abbrev pub to_prev : List Arrival → List Mbuf
to_prev [] = []
to_prev (at_prev pkt ∷ later) = pkt ∷ to_prev later
to_prev (at_target pkt ∷ later) = to_prev later

abbrev pub to_target : List Arrival → List Mbuf
to_target [] = []
to_target (at_prev pkt ∷ later) = to_target later
to_target (at_target pkt ∷ later) = pkt ∷ to_target later

abbrev pub AllOf : ℕ → List Arrival → Type 0
AllOf g [] = Unit
AllOf g (a ∷ later) = ((packet_of a).fg_id ≡ g) × AllOf g later
