-- ===== src/Net/Tests.antt =====
-- Packets at work: an echo request, a datagram that comes in, and one that goes out over the end of a page.
use ix.Base.{
  ℕ, ◌+◌, ◌*◌, ◌%◌, ◌≡◌, ◌≢◌, ◌⊎◌, refl, some, List, [], ◌∷◌, arith, if◌then◌else◌, ◌==◌, take,
}
use ix.EthQueue.{EthTxQueue, eth_send_one}
use ix.Net.{
  Cfg, Packet, IpTuple, freed, sent, udp, eth_input, ip_input, ip_deliver, icmp_input, mbuf_of,
}
use ix.Net.Chksum.{chksum_internet}
use ix.Net.Chksum.Rfc.{chksum_internet_lem, rfc1071, AllBytes, sum16}
use ix.Net.Icmp.{icmp_input-answers, IsAnswer}
use ix.Net.Input.{IsDatagram, ip_input_lem, eth_input-past_end}
use ix.Net.Udp.{
  found, Sender, Receiver, bsys_udp_send, bsys_udp_recv_done, ip_with_chksum, ip_setup_header,
}
use ix.Net.Udp.Header.{ip_with_chksum-ip_setup_header}
use ix.Net.Udp.Held.{bsys_udp_recv_done_lem}
use ix.Net.Udp.Send.{bsys_udp_send_lem, Sent}

abbrev message : List ℕ
message = 8 ∷ 0 ∷ 243 ∷ 249 ∷ 1 ∷ 2 ∷ 3 ∷ 4 ∷ 255 ∷ 255 ∷ 255 ∷ []

message-AllBytes : AllBytes message
unfolding AllBytes
message-AllBytes = ground arith

chksum_internet_lem_example : chksum_internet message ≡ rfc1071 message
chksum_internet_lem_example = chksum_internet_lem message message-AllBytes

abbrev host : Cfg
host = record { mac = 2 ∷ 0 ∷ 0 ∷ 0 ∷ 0 ∷ 1 ∷ []; host_addr = 0x0A000001 }

abbrev queue : EthTxQueue
queue = record { cap = 8; bufs = [] }

abbrev request : Packet
request = record {
  id = 7;
  fg_id = 0;
  mbuf_len = 42;
  done = 0;
  dhost = 2 ∷ 0 ∷ 0 ∷ 0 ∷ 0 ∷ 1 ∷ [];
  shost = 2 ∷ 0 ∷ 0 ∷ 0 ∷ 0 ∷ 9 ∷ [];
  eth_type = 0x0800;
  version = 4;
  header_len = 5;
  len = 28;
  off = 0;
  proto = 1;
  src_addr = 0x0A000009;
  dst_addr = 0x0A000001;
  l4 = 8 ∷ 0 ∷ 243 ∷ 249 ∷ 1 ∷ 2 ∷ 3 ∷ 4 ∷ [];
}

request_verifies : chksum_internet (take 8 request.l4) ≡ 0
unfolding sum16 AllBytes
request_verifies = chksum_internet_lem request.l4 (ground arith)

bytes_behind : AllBytes (1 ∷ 2 ∷ 3 ∷ 4 ∷ [])
unfolding AllBytes
bytes_behind = ground arith

abbrev queue_behind : EthTxQueue
queue_behind = record { cap = 7; bufs = mbuf_of request ∷ [] }

room_left : eth_send_one (mbuf_of request) 42 queue ≡ some (0, queue_behind)
unfolding eth_send_one
room_left = refl

icmp_input-answers_example :
    (p : Packet) × (icmp_input host request 8 queue ≡ some (sent p, queue_behind))
    × IsAnswer host request 8 p
    × ((c : Cfg) (q : EthTxQueue) → icmp_input c p 8 q ≡ some (freed, q))
icmp_input-answers_example =
    icmp_input-answers host request 8 0 243 249 (1 ∷ 2 ∷ 3 ∷ 4 ∷ []) queue queue_behind refl
      (omega arith) bytes_behind (omega arith) request_verifies room_left

ip_input_lem_example :
    (IsDatagram request × (ip_input host request queue ≡ ip_deliver host request 20 queue))
    ⊎ ((¬ IsDatagram request) × (ip_input host request queue ≡ some (freed, queue)))
ip_input_lem_example = ip_input_lem host request queue

abbrev query : Packet
query = record request {
  len = 30;
  mbuf_len = 44;
  proto = 17;
  l4 = 0 ∷ 53 ∷ 4 ∷ 0 ∷ 0 ∷ 10 ∷ 0 ∷ 0 ∷ 1 ∷ 2 ∷ [];
}

query-IsDatagram : IsDatagram query
query-IsDatagram = record {
  has_header = omega arith;
  version_4 = refl;
  whole_words = omega arith;
  no_fragment = refl;
  header_fits = omega arith;
  in_mbuf = omega arith;
}

eth_input-past_end_example :
    (addr : ℕ) × (len : ℕ) × (id : IpTuple) × (p : Packet) × (eth_input host query queue
      ≡ some (udp addr len id p, queue))
    × (addr + len ≡ 44 + 8)
eth_input-past_end_example =
    eth_input-past_end host query queue query-IsDatagram refl refl refl refl refl

abbrev sender : Sender
sender = record {
  page_tbl = λ n. n * 2097152;
  page_refs = λ n. 0;
  free = 3 ∷ 4 ∷ [];
  txq = queue;
  flying = [];
  told = [];
}

-- 16 bytes before the end of a page
abbrev user_addr : ℕ
user_addr = 0x8000200000 + 2097136

abbrev identity_page : ℕ → ℕ
identity_page a = 0x4000400000

abbrev peer : IpTuple
peer = record { src_ip = 0x0A000001; dst_ip = 0x0A000009; src_port = 53; dst_port = 1024 }

bsys_udp_send_lem_example :
    (r : ℕ × Sender) × (bsys_udp_send host identity_page
        (found (2 ∷ 0 ∷ 0 ∷ 0 ∷ 0 ∷ 9 ∷ []))
        user_addr
        100
        (some peer)
        77
        sender
      ≡ some r)
    × Sent (found (2 ∷ 0 ∷ 0 ∷ 0 ∷ 0 ∷ 9 ∷ [])) (0x4000400000 + user_addr % 2097152) 100 77 sender r
bsys_udp_send_lem_example =
    bsys_udp_send_lem host identity_page (found (2 ∷ 0 ∷ 0 ∷ 0 ∷ 0 ∷ 9 ∷ [])) user_addr 100
      (some peer) 77 sender (λ n. omega arith) (omega arith)

abbrev holder : Receiver
holder = record { marks = λ n. if n == 2099264 then 0xDEADBEEF else 0; free = [] }

bsys_udp_recv_done_lem_example :
    let r = bsys_udp_recv_done 1000 (1000 + (1 * 2097152 + 1 * 2112 + 64)) holder in
    (r.0 ≡ 0)
    × (r.1.free ≡ (1 * 2097152 + 1 * 2112) ∷ [])
    × ((n : ℕ) → n ≢ 1 * 2097152 + 1 * 2112 → r.1.marks n ≡ holder.marks n)
    × (bsys_udp_recv_done 1000 (1000 + (1 * 2097152 + 1 * 2112 + 2000)) r.1 ≡ (3, r.1))
bsys_udp_recv_done_lem_example =
    bsys_udp_recv_done_lem 1000 1 1 64 2000 holder (omega arith) (omega arith) (omega arith) refl

ip_with_chksum-ip_setup_header_example :
    chksum_internet (ip_with_chksum (ip_setup_header 17 0x0A000001 0x0A000009 108)) ≡ 0
ip_with_chksum-ip_setup_header_example =
    ip_with_chksum-ip_setup_header 17 0x0A000001 0x0A000009 108 (omega arith)
