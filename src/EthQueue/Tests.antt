-- ===== src/EthQueue/Tests.antt =====
-- The queues: tests, and the theorems at small queues.
use ix.Base.{ℕ, ◌≡◌, refl, false, some, List, [], ◌∷◌, arith}
use ix.EthQueue.{Mbuf, EthRxQueue, EthTxQueue, Received, eth_recv, eth_process_recv, ebusy}
use ix.EthQueue.Recv.{IsReceived, eth_process_recv_lem}
use ix.EthQueue.Send.{IsTx, send, flush, reclaim, tx_run, tx_run-IsTx}

abbrev packet : ℕ → Mbuf
packet id = record { id = id; fg_id = 0; len = 60; nr_iov = 0 }

abbrev queues : List EthRxQueue
queues =
    record { dev = 0; bufs = packet 1 ∷ packet 2 ∷ []; len = 2; input = [] }
    ∷ record { dev = 0; bufs = packet 3 ∷ []; len = 1; input = [] }
    ∷ []

-- a full queue refuses a packet
eth_recv-full :
    eth_recv false (packet 4) (record { dev = 0; bufs = []; len = 32768; input = [] })
    ≡ (ebusy, record { dev = 0; bufs = []; len = 32768; input = [] })
unfolding eth_recv
eth_recv-full = refl

eth_process_recv_lem_example :
    (r : Received) × (eth_process_recv 2 queues ≡ some r) × IsReceived 2 queues r
eth_process_recv_lem_example = eth_process_recv_lem 2 queues

abbrev tx : EthTxQueue
tx = record { cap = 3; bufs = packet 5 ∷ [] }

tx_run-IsTx_example :
    (q : EthTxQueue) × (tx_run (send (packet 6) ∷ flush ∷ reclaim 4000 ∷ send (packet 7) ∷ []) tx
      ≡ some q)
    × IsTx q
tx_run-IsTx_example =
    tx_run-IsTx (send (packet 6) ∷ flush ∷ reclaim 4000 ∷ send (packet 7) ∷ []) tx (omega arith)
