-- ===== src/Net.antt =====
-- dp/net/ip.c, dp/net/icmp.c, dp/net/udp.c, dp/net/net.h and inc/asm/chksum.h: what becomes of a
-- packet that a core receives, and the datagrams of the user. Log messages are left out.
pub mod Chksum
pub mod Icmp
pub mod Input
pub mod Udp
mod Tests
use ix.Base.{
  ℕ, zero, suc, ◌+◌, ◌-◌, ◌*◌, ◌/◌, ◌%◌, ◌^◌, ◌++◌, Bool, true, false, ◌&&◌, not, Option, none,
  some, List, [], ◌∷◌, ltb, leb, ◌==◌, if◌then◌else◌, take, ◌>>=◌,
}
use ix.Net.Chksum.{chksum_internet}
use ix.EthQueue.{Mbuf, EthTxQueue, eth_send_one}

-- sizes of `struct eth_hdr`, `struct ip_hdr` and `struct udp_hdr`
abbrev pub eth_hdr_len : ℕ
eth_hdr_len = 14

abbrev pub ip_hdr_len : ℕ
ip_hdr_len = 20

abbrev pub udp_hdr_len : ℕ
udp_hdr_len = 8

abbrev pub icmp_minlen : ℕ
icmp_minlen = 8

abbrev pub ethtype_ip : ℕ
ethtype_ip = 0x0800

abbrev pub ethtype_arp : ℕ
ethtype_arp = 0x0806

abbrev pub ipproto_icmp : ℕ
ipproto_icmp = 1

abbrev pub ipproto_tcp : ℕ
ipproto_tcp = 6

abbrev pub ipproto_udp : ℕ
ipproto_udp = 17

abbrev pub icmp_echoreply : ℕ
icmp_echoreply = 0

abbrev pub icmp_echo : ℕ
icmp_echo = 8

-- the mark of an mbuf that the user holds
abbrev pub udp_held : ℕ
udp_held = 0xDEADBEEF

-- `struct cfg_parameters`: the addresses of the host
pub record Cfg : Type 0 where
  pub mac : List ℕ
  pub host_addr : ℕ

-- `struct mbuf` with the Ethernet header and the IP header in it, fields in the byte order of the
-- host; `l4` is the bytes of the buffer behind the IP header and its options.
pub record Packet : Type 0 where
  pub id : ℕ
  pub fg_id : ℕ
  pub mbuf_len : ℕ
  pub done : ℕ
  pub dhost : List ℕ
  pub shost : List ℕ
  pub eth_type : ℕ
  pub version : ℕ
  pub header_len : ℕ
  pub len : ℕ
  pub off : ℕ
  pub proto : ℕ
  pub src_addr : ℕ
  pub dst_addr : ℕ
  pub l4 : List ℕ

-- `struct ip_tuple`
pub record IpTuple : Type 0 where
  pub src_ip : ℕ
  pub dst_ip : ℕ
  pub src_port : ℕ
  pub dst_port : ℕ

-- What becomes of a packet. `tcp_input_tmp` and `arp_input` are given it; the user is given its data,
-- the length and the tuple; it is in the transmit queue; or `mbuf_free` has it.
pub data Fate : Type 0 where
  freed : Fate
  tcp : ℕ → Packet → Fate
  udp : ℕ → ℕ → IpTuple → Packet → Fate
  sent : Packet → Fate
  arp : Packet → Fate

-- the byte at a place in the buffer, and `ntoh16` of the two bytes there
abbrev pub byte : ℕ → List ℕ → ℕ
byte n [] = 0
byte zero (b ∷ bs) = b
byte (suc n) (b ∷ bs) = byte n bs

abbrev pub be16 : ℕ → List ℕ → ℕ
be16 n buf = 256 * byte n buf + byte (suc n) buf

-- `mbuf_enough_space` at a distance from the start of the data
abbrev pub mbuf_enough_space : Packet → ℕ → ℕ → Bool
mbuf_enough_space pkt pos sz = leb (pos + sz) pkt.mbuf_len

-- `udp_input`, its header at `udphdr`. The tuple lies in the first 12 bytes, in the Ethernet header.
pub udp_input : Packet → ℕ → Fate
udp_input pkt udphdr =
    let len = be16 4 pkt.l4 in
    if not (mbuf_enough_space pkt udphdr len)
    then freed
    else udp (udphdr + udp_hdr_len) len
        (record {
          src_ip = pkt.src_addr;
          dst_ip = pkt.dst_addr;
          src_port = be16 0 pkt.l4;
          dst_port = be16 2 pkt.l4;
        })
        (record pkt { done = udp_held })

-- `hdr->type = …` and `hdr->chksum = …`; the processor stores the low byte first.
abbrev pub set_type : ℕ → List ℕ → List ℕ
set_type type [] = []
set_type type (b ∷ buf) = type ∷ buf

abbrev pub set_chksum : ℕ → List ℕ → List ℕ
set_chksum sum (type ∷ code ∷ lo ∷ hi ∷ buf) = type ∷ code ∷ sum % 256 ∷ sum / 256 ∷ buf
set_chksum sum buf = buf

-- the header and data that `icmp_reflect` leaves
pub reflected : ℕ → List ℕ → List ℕ
reflected len l4 =
    let blank = set_chksum 0 l4 in set_chksum (chksum_internet (take len blank)) blank

abbrev pub mbuf_of : Packet → Mbuf
mbuf_of pkt = record { id = pkt.id; fg_id = pkt.fg_id; len = pkt.mbuf_len; nr_iov = 0 }

-- the answer of `icmp_reflect`
pub answer : Cfg → ℕ → Packet → Packet
answer cfg len pkt = record pkt {
  dhost = pkt.shost;
  shost = cfg.mac;
  dst_addr = pkt.src_addr;
  src_addr = cfg.host_addr;
  l4 = reflected len pkt.l4;
}

-- `icmp_reflect`; `none` is a fault in the transmit queue.
pub icmp_reflect : Cfg → Packet → ℕ → EthTxQueue → Option (Fate × EthTxQueue)
unfolding eth_send_one
icmp_reflect cfg pkt len txq =
    let pkt' = answer cfg len pkt in
    eth_send_one (mbuf_of pkt') pkt'.mbuf_len txq >>= λ r.
    some ((if r.0 == 0 then sent pkt' else freed), r.1)

-- `icmp_input`. An echo reply is only logged.
pub icmp_input : Cfg → Packet → ℕ → EthTxQueue → Option (Fate × EthTxQueue)
icmp_input cfg pkt len txq =
    if ltb len icmp_minlen
    then some (freed, txq)
    else if not (chksum_internet (take len pkt.l4) == 0)
    then some (freed, txq)
    else if byte 0 pkt.l4 == icmp_echo
    then icmp_reflect cfg (record pkt { l4 = set_type icmp_echoreply pkt.l4 }) len txq
    else some (freed, txq)

-- the `switch` of `ip_input`
pub ip_deliver : Cfg → Packet → ℕ → EthTxQueue → Option (Fate × EthTxQueue)
ip_deliver cfg pkt hdrlen txq =
    let next = eth_hdr_len + hdrlen in
    if pkt.proto == ipproto_tcp
    then some (tcp next pkt, txq)
    else if pkt.proto == ipproto_udp
    then some (udp_input pkt next, txq)
    else if pkt.proto == ipproto_icmp
    then icmp_input cfg pkt (pkt.len - hdrlen) txq
    else some (freed, txq)

-- `ip_input`. The mask of the offset and of `IP_MF` is the low 14 bits.
pub ip_input : Cfg → Packet → EthTxQueue → Option (Fate × EthTxQueue)
ip_input cfg pkt txq =
    let hdrlen = pkt.header_len * 4 in
    if not (mbuf_enough_space pkt eth_hdr_len ip_hdr_len)
    then some (freed, txq)
    else if not (pkt.version == 4)
    then some (freed, txq)
    else if ltb pkt.header_len 5
    then some (freed, txq)
    else if not (pkt.off % 0x4000 == 0)
    then some (freed, txq)
    else if ltb pkt.len hdrlen
    then some (freed, txq)
    else if not (mbuf_enough_space pkt eth_hdr_len pkt.len)
    then some (freed, txq)
    else ip_deliver cfg pkt hdrlen txq

-- `eth_input`
pub eth_input : Cfg → Packet → EthTxQueue → Option (Fate × EthTxQueue)
eth_input cfg pkt txq =
    if pkt.eth_type == ethtype_ip
    then ip_input cfg pkt txq
    else if pkt.eth_type == ethtype_arp
    then some (arp pkt, txq)
    else some (freed, txq)
