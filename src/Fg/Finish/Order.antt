-- ===== src/Fg/Finish/Order.antt =====
-- dp/core/ethfg.c: the packets of a flow group over a whole move, from one core to another.
use ix.Base.{
  Bool, true, ◌<◌, leb, length, ap, ◌∙◌, ℕ, ◌≡◌, ◌++◌, false, Option, some, List, [], ◌∷◌, arith,
  ◌==◌, ◌>>=◌, of_AllSome,
}
use ix.EthQueue.{Mbuf, EthRxQueue}
use ix.Timer.{TimerWheel}
use ix.Timer.Move.{timer_collect_fgs, timer_reinject_fgs}
use ix.Fg.{EthFg, System, Config}
use ix.Fg.Assign.{eth_fg_assign_to_cpu}
use ix.Fg.Receive.{mbuf_invalid_fg_id}
use ix.Fg.Finish.{cpu_do_bookkeeping}
use ix.Fg.Finish.Wake.{wake, woken}
use ix.Fg.Moving.{Arrival, at_prev, at_target, to_prev, to_target, AllOf}
use ix.Fg.Assign.Packets.{AllGroup, AllGroup-append, take_from_queue-AllGroup}
use ix.Fg.Assign.Start.{
  CanMove, started, eth_fg_assign_to_cpu-started, started-IsMoving, started-IsArmed,
}
use ix.Fg.Receive.Arrive.{arrive_all, arrive_all-IsMoving}
use ix.Fg.Finish.Done.{HasMoved, finish_lem}

-- A whole move of the group `g`, with the packets that arrive on the way: then the old core is woken,
-- by its timer or, for `early`, by what the new core has asked of it, and the new core runs what it
-- is then asked.
unfoldable pub move : Config → ℕ → ℕ → ℕ → ℕ → List Arrival → Bool → System → Option System
unfolding arrive_all
move cfg now self cpu g rest early s = eth_fg_assign_to_cpu cfg self (g ∷ []) cpu s >>= λ s1.
    arrive_all cfg self (cfg.cpu cpu) rest s1 >>= λ s2.
    wake cfg now self early s2 >>= cpu_do_bookkeeping cfg now [] (cfg.cpu cpu)

to_prev-AllGroup : (g : ℕ) (rest : List Arrival) → AllOf g rest → AllGroup g (to_prev rest)
to_prev-AllGroup g [] all = tt
to_prev-AllGroup g (at_prev pkt ∷ rest) all = (all.0, to_prev-AllGroup g rest all.1)
to_prev-AllGroup g (at_target pkt ∷ rest) all = to_prev-AllGroup g rest all.1

to_target-AllGroup : (g : ℕ) (rest : List Arrival) → AllOf g rest → AllGroup g (to_target rest)
to_target-AllGroup g [] all = tt
to_target-AllGroup g (at_prev pkt ∷ rest) all = to_target-AllGroup g rest all.1
to_target-AllGroup g (at_target pkt ∷ rest) all = (all.0, to_target-AllGroup g rest all.1)

-- When the group `g` moves from one core to another, neither with other functions to run, and packets
-- of the group arrive at both cores meanwhile, in any order: the timer of the old core is armed, and
-- when it fires, or, if a packet has come to the new core, already when the old core runs the
-- functions asked of it, the new core next runs the handler that ends the move. If the timers of the
-- group can be armed there, `eth_input` on the new core is then given every packet: those that the
-- queue of the old core held, then those that arrived there, then those that arrived at the new
-- core, each in their order. The group is with the new core, no packet waits there, and the old core
-- reports that it is ready.
pub move-HasMoved :
    (cfg : Config) (now self cpu g : ℕ) (fg : EthFg) (rxqs : List EthRxQueue) (moved : List Mbuf)
    (rest : List Arrival) (early : Bool) (s : System) (tw : TimerWheel)
    → CanMove cfg self cpu g fg rxqs moved s
    → leb cfg.cpu_count self ≡ false
    → leb cfg.cpu_count (cfg.cpu cpu) ≡ false
    → AllOf g rest
    → (early ≡ true → 0 < length (to_target rest))
    → let collected = timer_collect_fgs (λ i. i == g) (s.cpus self).tw [] in
      timer_reinject_fgs now collected.1.0 collected.0.1 (s.cpus (cfg.cpu cpu)).tw ≡ some tw
      → (t : System) × (move cfg now self cpu g rest early s ≡ some t)
        × HasMoved g self
            (cfg.cpu cpu)
            (s.cpus (cfg.cpu cpu)).input
            ((moved ++ to_prev rest) ++ to_target rest)
            t
unfolding move
move-HasMoved cfg now self cpu g fg rxqs moved rest early s tw can here there all reason
      reinjected =
    let target = cfg.cpu cpu in
    let collected = timer_collect_fgs (λ i. i == g) (s.cpus self).tw [] in
    let inp = (s.cpus target).input in
    let valid : (g == mbuf_invalid_fg_id) ≡ false = ground (arith, can.valid) in
    let b : (target == self) ≡ false = ground (arith, can.apart) in
    let of_g : AllGroup g moved =
      of_AllSome (λ r. AllGroup g r.1) _ (rxqs, moved)
        (take_from_queue-AllGroup g fg.eth (s.cpus self).rxqs) can.packets in
    let (s2, came, is, armed) =
      arrive_all-IsMoving cfg self target can.apart g fg inp collected.0.1 collected.1.0
        (s.cpus target).tw rest moved [] (started cfg self cpu g fg rxqs moved s can) here can.own
        valid all (started-IsMoving cfg self cpu g fg rxqs moved s can)
        (started-IsArmed cfg self cpu g fg rxqs moved s can) in
    let (s3, wakes, is') =
      woken cfg now self target b there g fg (moved ++ to_prev rest) (to_target rest) inp
        collected.0.1 collected.1.0 (s.cpus target).tw early s2 is armed reason in
    let (t, done, has) =
      finish_lem now g self target fg (moved ++ to_prev rest) (to_target rest) inp collected.0.1
        collected.1.0 (s.cpus target).tw tw b s3 is'
        (AllGroup-append g (moved ++ to_prev rest) (to_target rest)
          (AllGroup-append g moved (to_prev rest) of_g (to_prev-AllGroup g rest all))
          (to_target-AllGroup g rest all))
        reinjected in
    (
      t,
      rw (eth_fg_assign_to_cpu-started cfg self cpu g fg rxqs moved s can, came)
          (wakes ∙ ap (λ o. o >>= λ u. some u) done),
      has,
    )
