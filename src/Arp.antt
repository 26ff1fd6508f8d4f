-- ===== src/Arp.antt =====
-- dp/net/arp.c: the ARP table of one core, with the packets that wait for an address. Outer `none`
-- is a core that spins on `arp_lock` for ever. The other two locks are given back on every path
-- and are left out, and so are log messages.
pub mod Ops
pub mod Table
pub mod Learn
pub mod Static
pub mod Input
pub mod Faults
mod Tests
use ix.Base.{
  ℕ, ◌+◌, ◌-◌, ◌*◌, ◌/◌, ◌%◌, ◌^◌, ◌++◌, Bool, true, false, ◌&&◌, ◌||◌, not, Option, none, some,
  List, [], ◌∷◌, ltb, leb, ◌==◌, if◌then◌else◌, ◌>>=◌, length,
}

-- `struct eth_addr`: six bytes
abbrev pub Mac : Type 0
Mac = List ℕ

abbrev pub first_byte : Mac → ℕ
first_byte [] = 0
first_byte (b ∷ bs) = b

-- `eth_addr_is_multicast`
abbrev pub eth_addr_is_multicast : Mac → Bool
eth_addr_is_multicast mac = first_byte mac % 2 == 1

abbrev pub eth_addr_broadcast : Mac
eth_addr_broadcast = 255 ∷ 255 ∷ 255 ∷ 255 ∷ 255 ∷ 255 ∷ []

abbrev one_second : ℕ
one_second = 1000000

abbrev pub arp_refresh_timeout : ℕ
arp_refresh_timeout = 10 * one_second

abbrev pub arp_resolve_timeout : ℕ
arp_resolve_timeout = 1 * one_second

abbrev pub arp_retry_timeout : ℕ
arp_retry_timeout = 1 * one_second

abbrev pub arp_max_attempts : ℕ
arp_max_attempts = 3

abbrev pub arp_max_entries : ℕ
arp_max_entries = 65536

abbrev pub arp_op_request : ℕ
arp_op_request = 1

abbrev pub arp_op_reply : ℕ
arp_op_reply = 2

abbrev pub arp_htype_ether : ℕ
arp_htype_ether = 1

abbrev pub ethtype_ip : ℕ
ethtype_ip = 0x800

-- sizes of `struct eth_hdr`, `struct arp_hdr` and `struct arp_hdr_ethip`
abbrev pub eth_hdr_len : ℕ
eth_hdr_len = 14

abbrev pub arp_hdr_len : ℕ
arp_hdr_len = 8

abbrev pub arp_hdr_ethip_len : ℕ
arp_hdr_ethip_len = 20

abbrev pub enoent : ℕ
enoent = 2

abbrev pub enomem : ℕ
enomem = 12

abbrev pub eagain : ℕ
eagain = 35

-- `struct pending_pkt`, with the number of its mbuf
pub record PendingPkt : Type 0 where
  pub mbuf : ℕ
  pub dst_addr : ℕ
  pub fg : ℕ
  pub len : ℕ
  pub cpu : ℕ
  pub dispatched : Bool

-- `struct arp_entry`, each flag apart; `timer` is the delay that a pending timer was armed with.
pub record ArpEntry : Type 0 where
  pub addr : ℕ
  pub mac : Mac
  pub resolving : Bool
  pub valid : Bool
  pub static : Bool
  pub retries : ℕ
  pub timer : Option ℕ
  pub pending_pkts : List PendingPkt

-- An ARP packet: the length of its mbuf, and its fields in the byte order of the host.
pub record ArpPacket : Type 0 where
  pub mbuf_len : ℕ
  pub dhost : Mac
  pub shost : Mac
  pub htype : ℕ
  pub ptype : ℕ
  pub hlen : ℕ
  pub plen : ℕ
  pub op : ℕ
  pub sender_mac : Mac
  pub sender_ip : ℕ
  pub target_mac : Mac
  pub target_ip : ℕ

-- `arp_tbl`, the objects left in the two pools, whether `arp_lock` is held, the packets sent, the
-- packets given to their cores, and the mbufs freed.
pub record Arp : Type 0 where
  pub tbl : ℕ → List ArpEntry
  pub arp_left : ℕ
  pub pending_left : ℕ
  pub arp_lock : Bool
  pub sent : List ArpPacket
  pub to_cpus : List PendingPkt
  pub mbufs_freed : ℕ

-- What the rest of the program gives: the own addresses, the CRC instruction of the hash, whether
-- an mbuf can be allocated and a packet enqueued, and what an object of the pool holds in the
-- fields that are not set when it is allocated.
pub record Host : Type 0 where
  pub host_addr : ℕ
  pub host_mac : Mac
  pub hash_crc32c_one : ℕ → ℕ
  pub mbuf_left : Bool
  pub queue_left : Bool
  pub stale_mac : Mac
  pub stale_pkts : List PendingPkt

-- `__arp_lookup`
pub find : ℕ → List ArpEntry → Option ArpEntry
find addr [] = none
find addr (e ∷ es) = let later = find addr es in if e.addr == addr then some e else later

-- a write through the pointer that `find` gives
pub write : ArpEntry → List ArpEntry → List ArpEntry
write new [] = []
write new (e ∷ es) = let later = write new es in if e.addr == new.addr then new ∷ es else e ∷ later

-- `hlist_del` of that entry
unfoldable pub remove : ℕ → List ArpEntry → List ArpEntry
remove addr [] = []
remove addr (e ∷ es) = let later = remove addr es in if e.addr == addr then es else e ∷ later

abbrev pub set_bucket : (ℕ → List ArpEntry) → ℕ → List ArpEntry → ℕ → List ArpEntry
set_bucket tbl idx bucket i = if i == idx then bucket else tbl i

abbrev pub undispatched : List PendingPkt → List PendingPkt
undispatched [] = []
undispatched (p ∷ ps) = if p.dispatched then undispatched ps else p ∷ undispatched ps

abbrev pub all_dispatched : List PendingPkt → List PendingPkt
all_dispatched [] = []
all_dispatched (p ∷ ps) = record p { dispatched = true } ∷ all_dispatched ps

abbrev pub without_mbuf : ℕ → List PendingPkt → List PendingPkt
without_mbuf id [] = []
without_mbuf id (p ∷ ps) = if p.mbuf == id then ps else p ∷ without_mbuf id ps

-- What `arp_lookup_mac` gives its caller: a MAC, or an error number.
pub data MacResult : Type 0 where
  found : Mac → MacResult
  failed : ℕ → MacResult
