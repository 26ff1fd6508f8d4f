-- ===== src/Fg/Finish/Input.antt =====
-- dp/core/ethfg.c: `eth_input` of the packets that waited.
use ix.Base.{ℕ, ◌≡◌, ◌++◌, refl, ap, ◌∙◌, false, some, List, [], ◌∷◌, ◌==◌, ==-refl}
use mathlib.Core.List.{append_assoc, append-nil}
use ix.EthQueue.{Mbuf}
use ix.Fg.{EthFg, Cpu, System, set_cpu}
use ix.Fg.Store.{update_self, update_ne}
use ix.Fg.Finish.{input_all}
use ix.Fg.Assign.Packets.{AllGroup}

-- What `eth_input` of the packets `pkts` on the core `self` leaves.
pub record IsInput (self : ℕ) (pkts : List Mbuf) (s t : System) : Type 0 where
  pub fgs : t.fgs ≡ s.fgs
  pub here : t.cpus self ≡ record (s.cpus self) { input = (s.cpus self).input ++ pkts }
  pub others : (j : ℕ) → (j == self) ≡ false → t.cpus j ≡ s.cpus j

input_one : ℕ → Mbuf → System → System
input_one self pkt s =
    set_cpu self (record (s.cpus self) { input = (s.cpus self).input ++ (pkt ∷ []) }) s

add_input : List Mbuf → Cpu → Cpu
add_input pkts c = record c { input = c.input ++ pkts }

pub input_all-IsInput :
    (self g : ℕ) (f : EthFg) (pkts : List Mbuf) (s : System)
    → AllGroup g pkts
    → s.fgs g ≡ some f
    → f.cur_cpu ≡ self
    → (t : System) × (input_all self pkts s ≡ some t) × IsInput self pkts s t
unfolding input_all input_one add_input
input_all-IsInput self g f [] s all group own = (
  s,
  refl,
  record { fgs = refl; here = rw (append-nil (s.cpus self).input) refl; others = λ j e. refl },
)
input_all-IsInput self g f (pkt ∷ pkts) s all group own =
    let group' : s.fgs pkt.fg_id ≡ some f = ap s.fgs all.0 ∙ group in
    let s' = input_one self pkt s in
    let (t, done, is) = input_all-IsInput self g f pkts s' all.1 group own in
    (
      t,
      rw (group', own, ==-refl self) done,
      record {
        fgs = is.fgs;
        here =
            is.here
            ∙ ap (add_input pkts) (update_self self (add_input (pkt ∷ []) (s.cpus self)) s.cpus)
            ∙ ap (λ l. record (s.cpus self) { input = l })
                (append_assoc (s.cpus self).input (pkt ∷ []) pkts);
        others = λ j e. is.others j e ∙ update_ne self j _ s.cpus e;
      },
    )
