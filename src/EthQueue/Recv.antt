-- ===== src/EthQueue/Recv.antt =====
-- `eth_process_recv`: that it ends, what it takes from each queue, and how much.
use ix.Base.{
  ℕ, zero, suc, ◌+◌, ◌-◌, ◌≤◌, ◌<◌, ◌≡◌, ◌⊎◌, inl, inr, refl, true, false, some, List, [], ◌∷◌,
  ◌++◌, arith, ltb, length, Bool-cases, ◌∙◌,
}
use mathlib.Core.List.{append_assoc}
use ix.EthQueue.{
  Mbuf, EthRxQueue, eth_process_recv_queue, recv_round, recv_rounds, Received, packets,
  eth_process_recv,
}

-- The packets of each queue leave it in their order: those given to `eth_input` before and since,
-- and those left, are the ones that there were.
abbrev SameOrder : List EthRxQueue → List EthRxQueue → Type 0
SameOrder [] [] = Unit
SameOrder (q ∷ qs) (q' ∷ qs') = (q'.input ++ q'.bufs ≡ q.input ++ q.bufs) × SameOrder qs qs'
SameOrder _ _ = ⊥

abbrev AllEmpty : List EthRxQueue → Type 0
AllEmpty [] = Unit
AllEmpty (q ∷ qs) = (q.bufs ≡ []) × AllEmpty qs

SameOrder-refl : (qs : List EthRxQueue) → SameOrder qs qs
SameOrder-refl [] = tt
SameOrder-refl (q ∷ qs) = (refl, SameOrder-refl qs)

SameOrder-trans : (a b c : List EthRxQueue) → SameOrder a b → SameOrder b c → SameOrder a c
SameOrder-trans [] [] [] p q = tt
SameOrder-trans (x ∷ a) (y ∷ b) (z ∷ c) p q = (q.0 ∙ p.0, SameOrder-trans a b c p.1 q.1)
SameOrder-trans [] [] (z ∷ c) p q = absurd q
SameOrder-trans [] (y ∷ b) c p q = absurd p
SameOrder-trans (x ∷ a) [] c p q = absurd p
SameOrder-trans (x ∷ a) (y ∷ b) [] p q = absurd q

-- one round
record Round (qs : List EthRxQueue) : Type 0 where
  order : SameOrder qs (recv_round qs).0
  all : packets (recv_round qs).0 + (recv_round qs).1 ≡ packets qs
  few : (recv_round qs).1 ≤ length qs
  same_length : length (recv_round qs).0 ≡ length qs
  none_left : (recv_round qs).1 ≡ 0 → AllEmpty (recv_round qs).0

Round-cons :
    (q : EthRxQueue) (qs : List EthRxQueue)
    → Round qs
    → (l : List Mbuf) → q.bufs ≡ l
    → Round (q ∷ qs)
unfolding recv_round eth_process_recv_queue
Round-cons q qs later [] e = record {
  order = rw e (refl, later.order);
  all = rw e (omega (arith, later.all));
  few = rw e (omega (arith, later.few));
  same_length = rw e (omega (arith, later.same_length));
  none_left = rw e (λ z. (refl, later.none_left z));
}
Round-cons q qs later (m ∷ ms) e = record {
  order = rw e (append_assoc q.input (m ∷ []) ms, later.order);
  all = rw e (omega (arith, later.all));
  few = rw e (omega (arith, later.few));
  same_length = rw e (omega (arith, later.same_length));
  none_left = rw e (λ z. absurd (omega (arith, z)));
}

Round-of : (qs : List EthRxQueue) → Round qs
unfolding recv_round eth_process_recv_queue
Round-of [] = record {
  order = tt;
  all = refl;
  few = omega arith;
  same_length = refl;
  none_left = λ z. tt;
}
Round-of (q ∷ qs) = Round-cons q qs (Round-of qs) q.bufs refl

-- what `eth_process_recv` promises
pub record IsReceived (batch : ℕ) (qs : List EthRxQueue) (r : Received) : Type 0 where
  pub order : SameOrder qs r.rxqs
  pub all : packets r.rxqs + r.count ≡ packets qs
  pub few : r.count ≤ batch - 1 + length qs
  pub done : r.empty ≡ true → AllEmpty r.rxqs
  pub full : r.empty ≡ false → batch ≤ r.count

rounds_lem :
    (n batch count : ℕ) (qs : List EthRxQueue)
    → packets qs < n
    → count < batch ⊎ (count ≡ 0)
    → (r : Received) × (recv_rounds n batch count qs ≡ some r)
      × SameOrder qs r.rxqs
      × (packets r.rxqs + r.count ≡ packets qs + count)
      × (r.count ≤ batch - 1 + length qs)
      × (r.empty ≡ true → AllEmpty r.rxqs)
      × (r.empty ≡ false → batch ≤ r.count)
unfolding recv_rounds
rounds_lem zero batch count qs fuel low = absurd (omega arith)
rounds_lem (suc n) batch count qs fuel low =
    let round = Round-of qs in
    elim (Bool-cases (ltb 0 (recv_round qs).1)) [
      | inr none_taken ↦ (
        record { empty = true; rxqs = (recv_round qs).0; count = count + (recv_round qs).1 },
        rw none_taken refl,
        round.order,
        omega (arith, round.all),
        ground (arith, round.few),
        (λ e. round.none_left (ground arith)),
        (λ e. ground arith),
      )
      | inl taken ↦ elim (Bool-cases (ltb (count + (recv_round qs).1) batch)) [
        | inr enough ↦ (
          record { empty = false; rxqs = (recv_round qs).0; count = count + (recv_round qs).1 },
          rw (taken, enough) refl,
          round.order,
          omega (arith, round.all),
          ground (arith, round.few),
          (λ e. ground arith),
          (λ e. ground arith),
        )
        | inl more ↦
            let (r, done, order, all, few, full, left) =
              rounds_lem n batch (count + (recv_round qs).1) (recv_round qs).0
                (ground (arith, round.all)) (inl (ground arith)) in
            (
              r,
              rw (taken, more) done,
              SameOrder-trans qs (recv_round qs).0 r.rxqs round.order order,
              omega (arith, all, round.all),
              omega (arith, few, round.same_length),
              full,
              left,
            )
      ]
    ]

-- `eth_process_recv` ends, whatever the queues hold. Every packet that leaves a queue is given to
-- `eth_input`, in the order of the queue; as many are counted; the limit is passed by fewer
-- packets than there are queues. If the result is true, no packet is left in any queue, and if it
-- is false the limit was reached.
pub eth_process_recv_lem :
    (batch : ℕ) (qs : List EthRxQueue)
    → (r : Received) × (eth_process_recv batch qs ≡ some r) × IsReceived batch qs r
unfolding eth_process_recv
eth_process_recv_lem batch qs =
    let (r, done, order, all, few, full, left) =
      rounds_lem (suc (packets qs)) batch 0 qs (omega arith) (inr refl) in
    (
      r,
      done,
      record { order = order; all = omega (arith, all); few = few; done = full; full = left },
    )
