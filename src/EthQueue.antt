-- ===== src/EthQueue.antt =====
-- inc/ix/ethqueue.h and dp/core/ethqueue.c: the receive and transmit queues of one core. The linked
-- list from `head` to `tail` is a list. Metrics and energy are left out.
pub mod Recv
pub mod Send
mod Tests
use ix.Base.{
  ℕ, zero, suc, ◌+◌, ◌-◌, ◌++◌, Bool, true, false, ◌&&◌, not, Option, none, some, List, [], ◌∷◌,
  ltb, leb, if◌then◌else◌, ◌>>=◌, length,
}

abbrev eth_rx_max_depth : ℕ
eth_rx_max_depth = 32768

abbrev pub eth_dev_tx_queue_sz : ℕ
eth_dev_tx_queue_sz = 4096

abbrev pub ebusy : ℕ
ebusy = 16

-- `struct mbuf`: its number, its flow group, its length and its count of further buffers
pub record Mbuf : Type 0 where
  pub id : ℕ
  pub fg_id : ℕ
  pub len : ℕ
  pub nr_iov : ℕ

-- `struct eth_rx_queue`: the number of its device, the packets, their count, and the packets that `eth_input` was given
pub record EthRxQueue : Type 0 where
  pub dev : ℕ
  pub bufs : List Mbuf
  pub len : ℕ
  pub input : List Mbuf

-- `struct eth_tx_queue`: the descriptors left, and the packets of `bufs` below `len`
pub record EthTxQueue : Type 0 where
  pub cap : ℕ
  pub bufs : List Mbuf

-- `eth_recv`, with its error number. `taken` says whether `eth_recv_handle_fg_transition` keeps
-- the packet for a flow group that moves.
pub eth_recv : Bool → Mbuf → EthRxQueue → ℕ × EthRxQueue
eth_recv taken mbuf rxq =
    if taken
    then (0, rxq)
    else if leb eth_rx_max_depth rxq.len
    then (ebusy, rxq)
    else (0, record rxq { bufs = rxq.bufs ++ (mbuf ∷ []); len = rxq.len + 1 })

-- `eth_process_recv_queue`; `none` is that there was no packet.
pub eth_process_recv_queue : EthRxQueue → Option EthRxQueue
eth_process_recv_queue rxq = elim rxq.bufs [
  | [] ↦ none
  | ◌∷◌ pos next ↦
      some (record rxq { bufs = next; len = rxq.len - 1; input = rxq.input ++ (pos ∷ []) })
]

-- the loop over the queues in `eth_process_recv`, with the count of packets
pub recv_round : List EthRxQueue → List EthRxQueue × ℕ
recv_round [] = ([], 0)
recv_round (rxq ∷ rxqs) =
    let later = recv_round rxqs in
    elim (eth_process_recv_queue rxq) [
      | none ↦ (rxq ∷ later.0, later.1)
      | some rxq' ↦ (rxq' ∷ later.0, suc later.1)
    ]

-- What `eth_process_recv` comes to: its result, the queues and the count.
pub record Received : Type 0 where
  pub empty : Bool
  pub rxqs : List EthRxQueue
  pub count : ℕ

-- the outer loop of `eth_process_recv`, on fuel
pub recv_rounds : ℕ → ℕ → ℕ → List EthRxQueue → Option Received
recv_rounds zero batch count rxqs = none
recv_rounds (suc n) batch count rxqs =
    let round = recv_round rxqs in
    let more = recv_rounds n batch (count + round.1) round.0 in
    if ltb 0 round.1 && ltb (count + round.1) batch
    then more
    else some (record { empty = not (ltb 0 round.1); rxqs = round.0; count = count + round.1 })

abbrev pub packets : List EthRxQueue → ℕ
packets [] = 0
packets (rxq ∷ rxqs) = length rxq.bufs + packets rxqs

-- `eth_process_recv` for a limit `eth_rx_max_batch`
pub eth_process_recv : ℕ → List EthRxQueue → Option Received
eth_process_recv batch rxqs = recv_rounds (suc (packets rxqs)) batch 0 rxqs

-- `eth_send`, with its error number; `none` is a write behind the end of `bufs`.
pub eth_send : Mbuf → EthTxQueue → Option (ℕ × EthTxQueue)
eth_send mbuf txq =
    if ltb txq.cap (1 + mbuf.nr_iov)
    then some (ebusy, txq)
    else if ltb (length txq.bufs) eth_dev_tx_queue_sz
    then some (0, record { cap = txq.cap - (1 + mbuf.nr_iov); bufs = txq.bufs ++ (mbuf ∷ []) })
    else none

unfoldable pub eth_send_one : Mbuf → ℕ → EthTxQueue → Option (ℕ × EthTxQueue)
unfolding eth_send
eth_send_one mbuf len txq = eth_send (record mbuf { len = len; nr_iov = 0 }) txq

-- One queue in `eth_process_send`: the driver must take all the packets, or the program panics.
pub eth_process_send : ℕ → EthTxQueue → Option (List Mbuf × EthTxQueue)
eth_process_send nr txq =
    if leb nr (length txq.bufs) && leb (length txq.bufs) nr
    then some (txq.bufs, record txq { bufs = [] })
    else none

-- One queue in `eth_process_reclaim`: the driver counts the descriptors that are free.
pub eth_process_reclaim : ℕ → EthTxQueue → EthTxQueue
eth_process_reclaim reclaimed txq = record txq { cap = reclaimed }
