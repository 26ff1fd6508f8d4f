-- ===== src/Fg/Receive/Arrive.antt =====
-- dp/core/ethfg.c: where the packets of a group that moves go.
use ix.Base.{
  true, length-append, ℕ, ◌≡◌, ◌≢◌, ◌++◌, refl, sym, ap, ◌∙◌, false, Option, some, List, [], ◌∷◌,
  arith, leb, ◌==◌, ◌>>=◌, length, Bool-cases, inl, inr, ==-refl,
}
use mathlib.Core.List.{append_assoc, append-nil}
use ix.EthQueue.{Mbuf}
use ix.Timer.{Timer, TimerWheel}
use ix.Fg.{EthFg, System, Config, early_transition_prev, cpu_run_on_one}
use ix.Fg.Store.{update-keeps}
use ix.Fg.Assign.{moving}
use ix.Fg.Moving.{IsMoving, IsArmed, Arrival, at_prev, at_target, to_prev, to_target, AllOf}
use ix.Fg.Receive.{
  mbuf_invalid_fg_id, with_fg_id, by_owner, eth_recv_at_prev, eth_recv_at_target, enqueue_local,
  eth_recv_handle_fg_transition, recv_here, eth_recv_on,
}

module _ (cfg : Config) (self target : ℕ) where
  -- `eth_recv` of each packet, from the first queue of its core
  unfoldable pub arrive_all : List Arrival → System → Option System
  arrive_all [] s = some s
  arrive_all (at_prev pkt ∷ later) s = eth_recv_on cfg self 0 pkt s >>= arrive_all later
  arrive_all (at_target pkt ∷ later) s = eth_recv_on cfg target 0 pkt s >>= arrive_all later

module _ (cfg : Config) (self target : ℕ) (apart : self ≢ target) where
  ne : (self == target) ≡ false
  ne = ground arith

  ne' : (target == self) ≡ false
  ne' = ground arith

  module _ (g : ℕ) (fg : EthFg) (inp : List Mbuf) (ts : List Timer) (pos : ℕ)
      (tw : TimerWheel) where
    runner-IsMoving :
        (rq lq : List Mbuf) (cpu : ℕ) (s : System)
        → IsMoving g self target fg rq lq inp ts pos tw s
        → IsMoving g self target fg rq lq inp ts pos tw
            (cpu_run_on_one cfg early_transition_prev cpu s)
    unfolding cpu_run_on_one
    runner-IsMoving rq lq cpu s is = elim (Bool-cases (leb cfg.cpu_count cpu)) [
      | inl none_such ↦ rw none_such is
      | inr exists ↦ rw exists (record {
        group = is.group;
        remote = update-keeps (λ c. c.remote_mbuf_queue) cpu target _ s.cpus refl ∙ is.remote;
        local = update-keeps (λ c. c.local_mbuf_queue) cpu target _ s.cpus refl ∙ is.local;
        input = update-keeps (λ c. c.input) cpu target _ s.cpus refl ∙ is.input;
        timers = update-keeps (λ c. c.remote_timers) cpu target _ s.cpus refl ∙ is.timers;
        timer_pos = update-keeps (λ c. c.remote_timer_pos) cpu target _ s.cpus refl ∙ is.timer_pos;
        wheel = update-keeps (λ c. c.tw) cpu target _ s.cpus refl ∙ is.wheel;
        bitmap = update-keeps (λ c. c.info.fg_bitmap) cpu self _ s.cpus refl ∙ is.bitmap;
        prev = update-keeps (λ c. c.info.prev_cpu) cpu self _ s.cpus refl ∙ is.prev;
      })
    ]

    enqueue_local-IsMoving :
        (rq lq : List Mbuf) (pkt : Mbuf) (s : System)
        → IsMoving g self target fg rq lq inp ts pos tw s
        → IsMoving g self target fg rq (lq ++ (pkt ∷ [])) inp ts pos tw (enqueue_local target pkt s)
    unfolding enqueue_local
    enqueue_local-IsMoving rq lq pkt s is = record {
      group = is.group;
      remote = rw (==-refl target, is.remote) refl;
      local = rw (==-refl target, is.local) refl;
      input = rw (==-refl target, is.input) refl;
      timers = rw (==-refl target, is.timers) refl;
      timer_pos = rw (==-refl target, is.timer_pos) refl;
      wheel = rw (==-refl target, is.wheel) refl;
      bitmap = rw (ne, is.bitmap) refl;
      prev = rw (ne, is.prev) refl;
    }

    first-IsArmed :
        (lq : List Mbuf) (pkt : Mbuf) (s : System)
        → leb cfg.cpu_count self ≡ false
        → lq ≡ []
        → IsArmed self target lq s
        → IsArmed self target (lq ++ (pkt ∷ [])) (
            enqueue_local target pkt
              (cpu_run_on_one cfg early_transition_prev (s.cpus target).info.prev_cpu s))
    unfolding enqueue_local cpu_run_on_one
    first-IsArmed lq pkt s exists none_yet h =
        let runs : (s.cpus self).runlist ≡ [] = elim h.told [
          | inl e ↦ e.1
          | inr e ↦ absurd (omega (arith, e.0, ap length none_yet))
        ] in
        rw (h.back, exists)
          (record {
            armed = rw (ne, ==-refl self) h.armed;
            to = rw (ne, ==-refl self) h.to;
            back = rw (==-refl target, ne') h.back;
            waiting = rw (==-refl target, ne') h.waiting;
            told = inr (
              omega (arith, length-append lq (pkt ∷ [])),
              rw (ne, ==-refl self) (ap (λ l. early_transition_prev ∷ l) runs),
            );
          })

    later-IsArmed :
        (lq : List Mbuf) (pkt : Mbuf) (s : System)
        → (length lq == 0) ≡ false
        → IsArmed self target lq s
        → IsArmed self target (lq ++ (pkt ∷ [])) (enqueue_local target pkt s)
    unfolding enqueue_local
    later-IsArmed lq pkt s some_wait h =
        let runs : (s.cpus self).runlist ≡ early_transition_prev ∷ [] = elim h.told [
          | inl e ↦ absurd (ground (arith, ap length e.0))
          | inr e ↦ e.1
        ] in
        record {
          armed = rw ne h.armed;
          to = rw ne h.to;
          back = rw (==-refl target) h.back;
          waiting = rw (==-refl target) h.waiting;
          told = inr (omega (arith, length-append lq (pkt ∷ [])), rw ne runs);
        }

    told-IsMoving :
        (rq lq : List Mbuf) (pkt : Mbuf) (s : System)
        → leb cfg.cpu_count self ≡ false
        → IsMoving g self target fg rq lq inp ts pos tw s
        → IsArmed self target lq s
        → let t = eth_recv_at_target cfg target pkt s in
          IsMoving g self target fg rq (lq ++ (pkt ∷ [])) inp ts pos tw t
          × IsArmed self target (lq ++ (pkt ∷ [])) t
    unfolding eth_recv_at_target
    told-IsMoving rq lq pkt s exists is h =
        elim (Bool-cases (length (s.cpus target).local_mbuf_queue == 0)) [
          | inl first ↦ rw first (
            enqueue_local-IsMoving rq lq pkt _
                (runner-IsMoving rq lq (s.cpus target).info.prev_cpu s is),
            first-IsArmed lq pkt s exists (nothing lq (sym (ap length is.local)) first) h,
          )
          | inr later ↦ rw later (
            enqueue_local-IsMoving rq lq pkt s is,
            later-IsArmed lq pkt s (ap (λ l. length l == 0) (sym is.local) ∙ later) h,
          )
        ]
      where
        nothing : {n : ℕ} (l : List Mbuf) → length l ≡ n → (n == 0) ≡ true → l ≡ []
        nothing [] e z = refl
        nothing (p ∷ l) e z = absurd (ground arith)

    at_prev-IsMoving :
        (rq lq : List Mbuf) (pkt : Mbuf) (s : System)
        → fg.cur_cpu ≡ self
        → (pkt.fg_id == mbuf_invalid_fg_id) ≡ false
        → pkt.fg_id ≡ g
        → IsMoving g self target fg rq lq inp ts pos tw s
        → IsArmed self target lq s
        → (t : System) × (eth_recv_on cfg self 0 pkt s ≡ some t)
          × IsMoving g self target fg (rq ++ (pkt ∷ [])) lq inp ts pos tw t
          × IsArmed self target lq t
    unfolding eth_recv_on eth_recv_handle_fg_transition with_fg_id by_owner recv_here
        eth_recv_at_prev
    at_prev-IsMoving rq lq pkt s own valid same is h = (
      eth_recv_at_prev (moving target fg) pkt s,
      rw (valid, ap s.fgs same ∙ is.group, own, ==-refl self) refl,
      record {
        group = is.group;
        remote = rw (==-refl target, is.remote) refl;
        local = rw (==-refl target, is.local) refl;
        input = rw (==-refl target, is.input) refl;
        timers = rw (==-refl target, is.timers) refl;
        timer_pos = rw (==-refl target, is.timer_pos) refl;
        wheel = rw (==-refl target, is.wheel) refl;
        bitmap = rw (ne, is.bitmap) refl;
        prev = rw (ne, is.prev) refl;
      },
      record {
        armed = rw ne h.armed;
        to = rw ne h.to;
        back = rw (==-refl target) h.back;
        waiting = rw (==-refl target) h.waiting;
        told = rw ne h.told;
      },
    )

    at_target-IsMoving :
        (rq lq : List Mbuf) (pkt : Mbuf) (s : System)
        → leb cfg.cpu_count self ≡ false
        → fg.cur_cpu ≡ self
        → (pkt.fg_id == mbuf_invalid_fg_id) ≡ false
        → pkt.fg_id ≡ g
        → IsMoving g self target fg rq lq inp ts pos tw s
        → IsArmed self target lq s
        → (t : System) × (eth_recv_on cfg target 0 pkt s ≡ some t)
          × IsMoving g self target fg rq (lq ++ (pkt ∷ [])) inp ts pos tw t
          × IsArmed self target (lq ++ (pkt ∷ [])) t
    unfolding eth_recv_on eth_recv_handle_fg_transition with_fg_id by_owner recv_here
    at_target-IsMoving rq lq pkt s exists own valid same is h =
        let both = told-IsMoving rq lq pkt s exists is h in
        (
          eth_recv_at_target cfg target pkt s,
          rw (valid, ap s.fgs same ∙ is.group, own, ne, ==-refl target) refl,
          both.0,
          both.1,
        )

    -- any packets of the group, in any order
    pub arrive_all-IsMoving :
        (rest : List Arrival) (rq lq : List Mbuf) (s : System)
        → leb cfg.cpu_count self ≡ false
        → fg.cur_cpu ≡ self
        → (g == mbuf_invalid_fg_id) ≡ false
        → AllOf g rest
        → IsMoving g self target fg rq lq inp ts pos tw s
        → IsArmed self target lq s
        → (t : System) × (arrive_all cfg self target rest s ≡ some t)
          × IsMoving g self target fg (rq ++ to_prev rest) (lq ++ to_target rest) inp ts pos tw t
          × IsArmed self target (lq ++ to_target rest) t
    unfolding arrive_all
    arrive_all-IsMoving [] rq lq s exists own valid all is h =
        (s, refl, rw (append-nil rq, append-nil lq) is, rw (append-nil lq) h)
    arrive_all-IsMoving (at_prev pkt ∷ rest) rq lq s exists own valid all is h =
        let valid' : (pkt.fg_id == mbuf_invalid_fg_id) ≡ false = rw all.0 valid in
        let (t, one, is', h') = at_prev-IsMoving rq lq pkt s own valid' all.0 is h in
        let (u, done, is'', h'') =
          arrive_all-IsMoving rest (rq ++ (pkt ∷ [])) lq t exists own valid all.1 is' h' in
        (u, rw one done, rw (sym (append_assoc rq (pkt ∷ []) (to_prev rest))) is'', h'')
    arrive_all-IsMoving (at_target pkt ∷ rest) rq lq s exists own valid all is h =
        let valid' : (pkt.fg_id == mbuf_invalid_fg_id) ≡ false = rw all.0 valid in
        let (t, one, is', h') = at_target-IsMoving rq lq pkt s exists own valid' all.0 is h in
        let (u, done, is'', h'') =
          arrive_all-IsMoving rest rq (lq ++ (pkt ∷ [])) t exists own valid all.1 is' h' in
        (
          u,
          rw one done,
          rw (sym (append_assoc lq (pkt ∷ []) (to_target rest))) is'',
          rw (sym (append_assoc lq (pkt ∷ []) (to_target rest))) h'',
        )
