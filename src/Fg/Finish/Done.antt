-- ===== src/Fg/Finish/Done.antt =====
-- dp/core/ethfg.c: the handler that ends a move.
use ix.Base.{ℕ, ◌≡◌, ◌++◌, refl, ap, ◌∙◌, true, false, some, List, [], ◌==◌, ◌>>=◌}
use ix.EthQueue.{Mbuf}
use ix.Timer.{Timer, TimerWheel}
use ix.Timer.Move.{timer_reinject_fgs}
use ix.Fg.{EthFg, Cpu, System, no_cpu, set_cpu, set_fg}
use ix.Fg.Store.{update_self, update_ne}
use ix.Fg.Assign.{moving}
use ix.Fg.Finish.{
  arrived, clear_prev, finish_groups, empty_queues, migrate_timers_from_remote, finish_info,
  transition_handler_target,
}
use ix.Fg.Moving.{IsMoving}
use ix.Fg.Assign.Packets.{AllGroup}
use ix.Fg.Finish.Input.{input_all-IsInput}

clear : Cpu → Cpu
clear c = record c { info = record (c.info) { prev_cpu = no_cpu } }

finish_info-cpus :
    (self target : ℕ) (s : System)
    → (target == self) ≡ false
    → ((finish_info target self self s).cpus target ≡ clear (s.cpus target))
      × (((finish_info target self self s).cpus self).ready ≡ true)
unfolding finish_info clear
finish_info-cpus self target s b =
    let s1 = clear_prev target s in
    let s2 = clear_prev self s1 in
    (
      update_ne self target (record (s2.cpus self) { ready = true }) s2.cpus b
          ∙ update_ne self target (clear (s1.cpus self)) s1.cpus b
          ∙ update_self target (clear (s.cpus target)) s.cpus,
      ap (λ c. c.ready) (update_self self (record (s2.cpus self) { ready = true }) s2.cpus),
    )

-- What a move of the group `g` comes to, when `pkts` have waited for it.
pub record HasMoved (g self target : ℕ) (inp pkts : List Mbuf) (t : System) : Type 0 where
  pub input : (t.cpus target).input ≡ inp ++ pkts
  pub no_remote : (t.cpus target).remote_mbuf_queue ≡ []
  pub no_local : (t.cpus target).local_mbuf_queue ≡ []
  pub owned : (f : EthFg) × (t.fgs g ≡ some f) × (f.cur_cpu ≡ target) × (f.in_transition ≡ false)
  pub ready : (t.cpus self).ready ≡ true

module _ (now g self target : ℕ) (fg : EthFg) (rq lq inp : List Mbuf) (ts : List Timer) (pos : ℕ)
    (tw tw' : TimerWheel) (b : (target == self) ≡ false) where
  emptied : Cpu → Cpu
  emptied c = record c { remote_mbuf_queue = []; local_mbuf_queue = [] }

  add_input : Cpu → Cpu
  add_input c = record c { input = c.input ++ (rq ++ lq) }

  with_wheel : Cpu → Cpu
  with_wheel c = record c { tw = tw' }

  reinject_lem :
      (s : System)
      → (s.cpus target).remote_timers ≡ ts
      → (s.cpus target).remote_timer_pos ≡ pos
      → (s.cpus target).tw ≡ tw
      → timer_reinject_fgs now pos ts tw ≡ some tw'
      → migrate_timers_from_remote now target s
        ≡ some (set_cpu target (record (s.cpus target) { tw = tw' }) s)
  unfolding migrate_timers_from_remote
  reinject_lem s t p w e =
      ap (λ o. o >>= λ tw. some (set_cpu target (record (s.cpus target) { tw = tw }) s))
        ((rw (t, p, w) refl) ∙ e)

  pub finish_lem :
      (s : System)
      → IsMoving g self target fg rq lq inp ts pos tw s
      → AllGroup g (rq ++ lq)
      → timer_reinject_fgs now pos ts tw ≡ some tw'
      → (t : System) × (transition_handler_target now target self s ≡ some t)
        × HasMoved g self target inp (rq ++ lq) t
  unfolding transition_handler_target finish_groups empty_queues emptied add_input with_wheel
      finish_info clear
  finish_lem s is all reinjected =
      let f = arrived (moving target fg) in
      let s1 = set_fg g f s in
      let (s2, input, is_input) =
        input_all-IsInput target g f (rq ++ lq) s1 all (update_self g (some f) s.fgs) refl in
      let s3 = empty_queues target s2 in
      let c3 : s3.cpus target ≡ emptied (add_input (s.cpus target)) =
        update_self target (emptied (s2.cpus target)) s2.cpus ∙ ap emptied is_input.here in
      let s4 = set_cpu target (record (s3.cpus target) { tw = tw' }) s3 in
      let migrated =
        reinject_lem s3 (ap (λ c. c.remote_timers) c3 ∙ is.timers)
          (ap (λ c. c.remote_timer_pos) c3 ∙ is.timer_pos) (ap (λ c. c.tw) c3 ∙ is.wheel)
          reinjected in
      let (at, ready) = finish_info-cpus self target s4 b in
      let c4 : (finish_info target self self s4).cpus target
          ≡ clear (with_wheel (emptied (add_input (s.cpus target)))) =
        at
        ∙ ap clear (update_self target (with_wheel (s3.cpus target)) s3.cpus ∙ ap with_wheel c3) in
      (
        finish_info target self self s4,
        (rw (is.bitmap, is.prev, is.group, is.remote, is.local, input)
            (ap (λ o. o >>= λ s. some (finish_info target self self s)) migrated)),
        record {
          input = ap (λ c. c.input) c4 ∙ ap (λ l. l ++ (rq ++ lq)) is.input;
          no_remote = ap (λ c. c.remote_mbuf_queue) c4;
          no_local = ap (λ c. c.local_mbuf_queue) c4;
          owned = (f, ap (λ h. h g) is_input.fgs ∙ update_self g (some f) s.fgs, refl, refl);
          ready = ready;
        },
      )
