-- ===== src/Fg/Finish/Wake.antt =====
-- dp/core/ethfg.c and dp/core/cpu.c: how the old core has the new one end a move.
use ix.Base.{
  ℕ, ◌<◌, ◌≡◌, refl, ap, ◌∙◌, Bool, true, false, none, some, List, [], ◌∷◌, arith, leb, ◌==◌,
  if◌then◌else◌, ◌>>=◌, length, inl, inr, if_true, if_false, Option,
}
use ix.EthQueue.{Mbuf}
use ix.Timer.{Timer, TimerWheel}
use ix.Fg.{
  EthFg, Cpu, System, Config, set_cpu, cpu_run_on_one, early_transition_prev, transition_target,
}
use ix.Fg.Store.{update-keeps, update_self, update_ne}
use ix.Fg.Moving.{IsMoving, IsArmed}
use ix.Fg.Receive.{eth_process_poll}
use ix.Fg.Finish.{
  disarm, transition_handler_prev, early_transition_handler_prev, transition_handler_target,
  run_one, run_all, cpu_do_bookkeeping,
}

-- What the old core does: its timer fires, if it is armed, or it runs the functions that the new core
-- gave it.
unfoldable pub wake : Config → ℕ → ℕ → Bool → System → Option System
wake cfg now self early s =
    if early
    then cpu_do_bookkeeping cfg now [] self s
    else if (s.cpus self).info.pending
    then some (transition_handler_prev cfg self s)
    else none

module _ (cfg : Config) (now self target : ℕ) (b : (target == self) ≡ false)
    (exists : leb cfg.cpu_count target ≡ false) (g : ℕ) (fg : EthFg) (rq lq inp : List Mbuf)
    (ts : List Timer) (pos : ℕ) (tw : TimerWheel) where
  set-IsMoving :
      (c : ℕ) (x : Cpu) (s : System)
      → x.remote_mbuf_queue ≡ (s.cpus c).remote_mbuf_queue
      → x.local_mbuf_queue ≡ (s.cpus c).local_mbuf_queue
      → x.input ≡ (s.cpus c).input
      → x.remote_timers ≡ (s.cpus c).remote_timers
      → x.remote_timer_pos ≡ (s.cpus c).remote_timer_pos
      → x.tw ≡ (s.cpus c).tw
      → x.info.fg_bitmap ≡ (s.cpus c).info.fg_bitmap
      → x.info.prev_cpu ≡ (s.cpus c).info.prev_cpu
      → IsMoving g self target fg rq lq inp ts pos tw s
      → IsMoving g self target fg rq lq inp ts pos tw (set_cpu c x s)
  set-IsMoving c x s p q r t u v w z is = record {
    group = is.group;
    remote = update-keeps (λ c. c.remote_mbuf_queue) c target x s.cpus p ∙ is.remote;
    local = update-keeps (λ c. c.local_mbuf_queue) c target x s.cpus q ∙ is.local;
    input = update-keeps (λ c. c.input) c target x s.cpus r ∙ is.input;
    timers = update-keeps (λ c. c.remote_timers) c target x s.cpus t ∙ is.timers;
    timer_pos = update-keeps (λ c. c.remote_timer_pos) c target x s.cpus u ∙ is.timer_pos;
    wheel = update-keeps (λ c. c.tw) c target x s.cpus v ∙ is.wheel;
    bitmap = update-keeps (λ c. c.info.fg_bitmap) c self x s.cpus w ∙ is.bitmap;
    prev = update-keeps (λ c. c.info.prev_cpu) c self x s.cpus z ∙ is.prev;
  }

  -- the target core with one more function to run
  asked : System → System
  asked s =
      set_cpu target
        (record (s.cpus target) { runlist = transition_target self ∷ (s.cpus target).runlist }) s

  -- that core once it has taken its functions off the list
  taken : System → System
  taken s = set_cpu target (record (s.cpus target) { runlist = [] }) s

  asked_lem : (s : System) → cpu_run_on_one cfg (transition_target self) target s ≡ asked s
  unfolding cpu_run_on_one asked
  asked_lem s = if_false _ _ exists

  -- The target that is asked, with nothing else to do, runs the handler.
  runs_handler :
      (s : System)
      → (s.cpus target).runlist ≡ []
      → cpu_do_bookkeeping cfg now [] target (asked s)
        ≡ (transition_handler_target now target self (taken (asked s)) >>= λ t. some t)
  unfolding cpu_do_bookkeeping run_all run_one asked taken
  runs_handler s idle =
      ap (λ l. run_all cfg now [] target l (taken (asked s)))
        (ap (λ c. c.runlist)
            (update_self target
              (record (s.cpus target) {
                runlist = transition_target self ∷ (s.cpus target).runlist;
              })
              s.cpus)
          ∙ ap (λ l. transition_target self ∷ l) idle)

  asked-IsMoving :
      (s : System)
      → IsMoving g self target fg rq lq inp ts pos tw s
      → IsMoving g self target fg rq lq inp ts pos tw (taken (asked s))
  unfolding asked taken
  asked-IsMoving s is =
      set-IsMoving target _ (asked s) refl refl refl refl refl refl refl refl
        (set-IsMoving target _ s refl refl refl refl refl refl refl refl is)

  -- the old core with its list taken
  cleared : System → System
  cleared s = set_cpu self (record (s.cpus self) { runlist = [] }) s

  early_lem :
      (s : System)
      → (s.cpus self).runlist ≡ early_transition_prev ∷ []
      → (s.cpus self).info.pending ≡ true
      → (s.cpus self).info.target_cpu ≡ target
      → cpu_do_bookkeeping cfg now [] self s ≡ some (asked (disarm self (cleared s)))
  unfolding cpu_do_bookkeeping run_all run_one early_transition_handler_prev eth_process_poll
      cleared
  early_lem s runs pending to =
      let s0 = set_cpu self (record (s.cpus self) { runlist = [] }) s in
      let here = update_self self (record (s.cpus self) { runlist = [] }) s.cpus in
      ap (λ l. run_all cfg now [] self l s0) runs
      ∙ ap (λ o. o >>= λ t. some t) (if_true _ _ (ap (λ c. c.info.pending) here ∙ pending))
      ∙ ap (λ c. some (cpu_run_on_one cfg (transition_target self) c (disarm self s0)))
          (ap (λ c. c.info.target_cpu) here ∙ to)
      ∙ ap some (asked_lem (disarm self s0))

  -- a wake-up of the old core, by its timer or by the new core: the new core then has just the handler to run
  pub woken :
      (early : Bool) (s : System)
      → IsMoving g self target fg rq lq inp ts pos tw s
      → IsArmed self target lq s
      → (early ≡ true → 0 < length lq)
      → (t : System) × ((wake cfg now self early s >>= cpu_do_bookkeeping cfg now [] target)
          ≡ (transition_handler_target now target self t >>= λ u. some u))
        × IsMoving g self target fg rq lq inp ts pos tw t
  unfolding wake transition_handler_prev cleared
  woken false s is h reason =
      let s' = disarm self s in
      let idle : (s'.cpus target).runlist ≡ [] =
        update-keeps (λ c. c.runlist) self target _ s.cpus refl ∙ h.waiting in
      (
        taken (asked s'),
        ap (λ o. o >>= cpu_do_bookkeeping cfg now [] target) (if_true _ _ h.armed)
            ∙ ap (cpu_do_bookkeeping cfg now [] target)
                (ap (λ c. cpu_run_on_one cfg (transition_target self) c s') h.to ∙ asked_lem s')
            ∙ runs_handler s' idle,
        asked-IsMoving s' (set-IsMoving self _ s refl refl refl refl refl refl refl refl is),
      )
  woken true s is h reason =
      let runs : (s.cpus self).runlist ≡ early_transition_prev ∷ [] = elim h.told [
        | inl e ↦ absurd (omega (arith, reason refl, ap length e.0))
        | inr e ↦ e.1
      ] in
      let s0 = set_cpu self (record (s.cpus self) { runlist = [] }) s in
      let s' = disarm self s0 in
      let idle : (s'.cpus target).runlist ≡ [] =
        ap (λ c. c.runlist) (update_ne self target _ s0.cpus b ∙ update_ne self target _ s.cpus b)
        ∙ h.waiting in
      (
        taken (asked s'),
        ap (λ o. o >>= cpu_do_bookkeeping cfg now [] target) (early_lem s runs h.armed h.to)
            ∙ runs_handler s' idle,
        asked-IsMoving s' (
            set-IsMoving self _ s0 refl refl refl refl refl refl refl refl
              (set-IsMoving self _ s refl refl refl refl refl refl refl refl is)),
      )
