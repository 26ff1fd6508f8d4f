-- ===== src/EthQueue/Send.antt =====
-- `eth_send`: that the packets of a transmit queue fit its array.
use ix.Base.{
  ℕ, ◌+◌, ◌-◌, ◌≤◌, ◌<◌, ◌≡◌, refl, true, Option, some, List, [], ◌∷◌, ◌++◌, arith, ltb, leb,
  if◌then◌else◌, ◌>>=◌, length, length-append, Bool-cases, inl, inr,
}
use ix.EthQueue.{
  Mbuf, EthTxQueue, eth_dev_tx_queue_sz, eth_send, eth_process_send, eth_process_reclaim, ebusy,
}

-- The packets and the descriptors that are left are no more than there are places.
abbrev pub IsTx : EthTxQueue → Type 0
IsTx q = length q.bufs + q.cap ≤ eth_dev_tx_queue_sz

-- What the core does with a queue.
pub data TxOp : Type 0 where
  send : Mbuf → TxOp
  flush : TxOp
  reclaim : ℕ → TxOp

-- `eth_send`, `eth_process_send` to a driver that takes every packet, and `eth_process_reclaim`,
-- where the driver counts no more free descriptors than the ring has beyond the packets queued
tx_step : TxOp → EthTxQueue → Option EthTxQueue
unfolding eth_send eth_process_send eth_process_reclaim
tx_step (send m) q = eth_send m q >>= λ r. some r.1
tx_step flush q = eth_process_send (length q.bufs) q >>= λ r. some r.1
tx_step (reclaim n) q = some (
    eth_process_reclaim
      (if leb (length q.bufs + n) eth_dev_tx_queue_sz
        then n
        else eth_dev_tx_queue_sz - length q.bufs)
      q)

pub tx_run : List TxOp → EthTxQueue → Option EthTxQueue
unfolding tx_step
tx_run [] q = some q
tx_run (op ∷ ops) q = tx_step op q >>= tx_run ops

-- `eth_send` of a packet into a queue that is in order writes inside the array and leaves the queue
-- in order: it queues the packet behind the others where enough descriptors are left, and refuses
-- it and changes nothing otherwise.
pub eth_send_lem :
    (m : Mbuf) (q : EthTxQueue)
    → IsTx q
    → (r : ℕ × EthTxQueue) × (eth_send m q ≡ some r)
      × IsTx r.1
      × (1 + m.nr_iov ≤ q.cap → (r.0 ≡ 0) × (r.1.bufs ≡ q.bufs ++ (m ∷ [])))
      × (q.cap < 1 + m.nr_iov → (r.0 ≡ ebusy) × (r.1 ≡ q))
unfolding eth_send
eth_send_lem m q i = elim (Bool-cases (ltb q.cap (1 + m.nr_iov))) [
  | inl busy ↦ ((ebusy, q), rw busy refl, i, (λ h. ground arith), (λ h. (refl, refl)))
  | inr free ↦
      let room : ltb (length q.bufs) eth_dev_tx_queue_sz ≡ true = ground arith in
      (
        (0, record { cap = q.cap - (1 + m.nr_iov); bufs = q.bufs ++ (m ∷ []) }),
        rw (free, room) refl,
        ground (arith, length-append q.bufs (m ∷ [])),
        (λ h. (refl, refl)),
        (λ h. ground arith),
      )
]

step-IsTx :
    (op : TxOp) (q : EthTxQueue) → IsTx q → (q' : EthTxQueue) × (tx_step op q ≡ some q') × IsTx q'
unfolding tx_step eth_process_send eth_process_reclaim
step-IsTx (send m) q i = let (r, done, i', _, _) = eth_send_lem m q i in (r.1, rw done refl, i')
step-IsTx flush q i = (record q { bufs = [] }, ground arith, omega arith)
step-IsTx (reclaim n) q i = (_, refl, ground arith)

-- From a queue that is in order, no sequence of sends, flushes and reclaims writes outside of the
-- array or panics, if the driver takes every packet and never counts more free descriptors than
-- the ring has beyond the packets that are queued. The queue stays in order.
pub tx_run-IsTx :
    (ops : List TxOp) (q : EthTxQueue)
    → IsTx q
    → (q' : EthTxQueue) × (tx_run ops q ≡ some q') × IsTx q'
unfolding tx_run
tx_run-IsTx [] q i = (q, refl, i)
tx_run-IsTx (op ∷ ops) q i =
    let (q', done, i') = step-IsTx op q i in
    let (q'', done', i'') = tx_run-IsTx ops q' i' in (q'', rw done done', i'')
