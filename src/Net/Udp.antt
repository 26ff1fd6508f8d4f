-- ===== src/Net/Udp.antt =====
-- dp/net/udp.c, inc/ix/mbuf.h and dp/net/net.h: datagrams that the user sends without a copy, and
-- the buffers that the user gives back. The pool of mbufs is the list of those that are free.
pub mod Send
pub mod Pieces
pub mod Held
pub mod Header
use ix.Base.{
  ℕ, zero, suc, ◌+◌, ◌-◌, ◌*◌, ◌/◌, ◌%◌, ◌^◌, ◌++◌, Bool, true, false, ◌&&◌, not, Option, none,
  some, List, [], ◌∷◌, ltb, leb, ◌==◌, if◌then◌else◌, ◌>>=◌, take, drop, length,
}
use ix.EthQueue.{Mbuf, EthTxQueue, eth_send, eth_send_one}
use ix.Net.Chksum.{chksum_internet}
use ix.Net.{Cfg, IpTuple, Packet, ip_hdr_len, udp_hdr_len, ipproto_udp, udp_held}

abbrev pub pgsize_2mb : ℕ
pgsize_2mb = 2097152

abbrev pub pgoff_2mb : ℕ → ℕ
pgoff_2mb addr = addr % pgsize_2mb

abbrev pub pgn_2mb : ℕ → ℕ
pgn_2mb addr = addr / pgsize_2mb

-- `UDP_PKT_SIZE` and `UDP_MAX_LEN`
abbrev pub udp_pkt_size : ℕ
udp_pkt_size = 42

abbrev pub udp_max_len : ℕ
udp_max_len = 1472

abbrev pub ret_nobufs : ℕ
ret_nobufs = 2

abbrev pub ret_inval : ℕ
ret_inval = 3

abbrev pub ret_again : ℕ
ret_again = 4

abbrev pub ret_fault : ℕ
ret_fault = 5

abbrev pub mem_zc_user_start : ℕ
mem_zc_user_start = 0x8000000000

abbrev pub mem_zc_user_end : ℕ
mem_zc_user_end = 0x101000000000

-- `uaccess_zc_okay`; the length is tested first, so that the sum wraps only above the region.
abbrev pub uaccess_zc_okay : ℕ → ℕ → Bool
uaccess_zc_okay addr len =
    leb len (mem_zc_user_end - mem_zc_user_start)
    && (leb mem_zc_user_start addr && leb ((addr + len) % 2 ^ 64) mem_zc_user_end)

-- `struct mbuf_iov`
pub record MbufIov : Type 0 where
  pub base : ℕ
  pub maddr : ℕ
  pub len : ℕ

-- `struct sg_entry`
pub record SgEntry : Type 0 where
  pub base : ℕ
  pub len : ℕ

-- A datagram in the transmit queue: its mbuf, the headers in it and its scatter-gather array.
pub record Datagram : Type 0 where
  pub mbuf : ℕ
  pub dhost : List ℕ
  pub shost : List ℕ
  pub ip_hdr : List ℕ
  pub src_port : ℕ
  pub dst_port : ℕ
  pub udp_len : ℕ
  pub iovs : List MbufIov
  pub done_data : ℕ

-- What the calls read and change: the machine addresses of `page_tbl`, the references that this core
-- holds to each page, which are 32-bit words, the free mbufs, the first transmit queue, the
-- datagrams in it, and the cookies that `usys_udp_sent` has told the user.
pub record Sender : Type 0 where
  pub page_tbl : ℕ → ℕ
  pub page_refs : ℕ → ℕ
  pub free : List ℕ
  pub txq : EthTxQueue
  pub flying : List Datagram
  pub told : List ℕ

-- one entry of `page_refs` changed
abbrev pub at_page : (ℕ → ℕ) → ℕ → (ℕ → ℕ) → ℕ → ℕ
at_page f page refs n = if n == page then f (refs n) else refs n

-- `page_get` and `page_put` of a page that is not about to be freed
abbrev pub page_get : ℕ → Sender → ℕ × Sender
page_get addr s = (
  s.page_tbl (pgn_2mb addr) + pgoff_2mb addr,
  record s { page_refs = at_page (λ n. (n + 1) % 2 ^ 32) (pgn_2mb addr) s.page_refs },
)

abbrev pub page_put : ℕ → (ℕ → ℕ) → ℕ → ℕ
page_put addr refs = at_page (λ n. (n + (2 ^ 32 - 1)) % 2 ^ 32) (pgn_2mb addr) refs

abbrev pub min : ℕ → ℕ → ℕ
min a b = if leb a b then a else b

-- `mbuf_iov_create`
pub mbuf_iov_create : SgEntry → Sender → MbufIov × Sender
mbuf_iov_create ent s =
    let r = page_get ent.base s in
    (
      record { base = ent.base; maddr = r.0; len = min ent.len (pgsize_2mb - pgoff_2mb ent.base) },
      r.1,
    )

-- `mbuf_iov_free`, of every entry
pub free_iovs : List MbufIov → (ℕ → ℕ) → ℕ → ℕ
free_iovs [] refs = refs
free_iovs (iov ∷ iovs) refs = free_iovs iovs (page_put iov.base refs)

abbrev pub hi_byte : ℕ → ℕ
hi_byte n = n / 256 % 256

abbrev pub lo_byte : ℕ → ℕ
lo_byte n = n % 256

-- `ip_setup_header`: the bytes of the header, with no checksum
pub ip_setup_header : ℕ → ℕ → ℕ → ℕ → List ℕ
ip_setup_header proto saddr daddr l4len =
    let len = ip_hdr_len + l4len % 2 ^ 16 in
    0x45
    ∷ 0
    ∷ hi_byte len
    ∷ lo_byte len
    ∷ 0
    ∷ 0
    ∷ 0
    ∷ 0
    ∷ 64
    ∷ proto
    ∷ 0
    ∷ 0
    ∷ hi_byte (saddr / 2 ^ 16)
    ∷ lo_byte (saddr / 2 ^ 16)
    ∷ hi_byte saddr
    ∷ lo_byte saddr
    ∷ hi_byte (daddr / 2 ^ 16)
    ∷ lo_byte (daddr / 2 ^ 16)
    ∷ hi_byte daddr
    ∷ lo_byte daddr
    ∷ []

-- `iphdr->chksum = chksum_internet(…)` on a header with 0 there
pub ip_with_chksum : List ℕ → List ℕ
ip_with_chksum hdr =
    let sum = chksum_internet hdr in take 10 hdr ++ (sum % 256 ∷ sum / 256 ∷ drop 12 hdr)

-- the headers that `udp_output` writes
abbrev pub datagram : Cfg → List ℕ → ℕ → List MbufIov → ℕ → IpTuple → ℕ → Datagram
datagram cfg mac m iovs cookie id len =
    let full_len = len + udp_hdr_len in
    record {
      mbuf = m;
      dhost = mac;
      shost = cfg.mac;
      ip_hdr = ip_with_chksum (ip_setup_header ipproto_udp cfg.host_addr id.dst_ip full_len);
      src_port = id.src_port;
      dst_port = id.dst_port;
      udp_len = full_len % 2 ^ 16;
      iovs = iovs;
      done_data = cookie;
    }

-- the state when `eth_send` is back, by its error number
abbrev pub queued : Datagram → ℕ → EthTxQueue → Sender → Sender
queued d ret txq s =
    if ret == 0
    then record s { txq = txq; flying = s.flying ++ (d ∷ []) }
    else record s { txq = txq }

-- What `arp_lookup_mac` comes to: a MAC, an error, or an error with a request, by way of `arp_send_pkt`
pub data Lookup : Type 0 where
  found : List ℕ → Lookup
  unknown : Lookup
  requested : Lookup

-- `ARP_PKT_SIZE`
abbrev pub arp_pkt_size : ℕ
arp_pkt_size = 42

-- the mbuf of a request
abbrev pub arp_pkt : ℕ → Mbuf
arp_pkt m = record { id = m; fg_id = 0; len = arp_pkt_size; nr_iov = 0 }

-- `arp_send_pkt`, on what this core shares with the datagrams: its free mbufs and the transmit queue.
-- Its error number is not read; on an error the mbuf is given back.
pub arp_send_pkt : Sender → Option Sender
arp_send_pkt s = elim s.free [
  | [] ↦ some s
  | ◌∷◌ m free ↦ eth_send_one (arp_pkt m) arp_pkt_size s.txq >>= λ r.
      some (if r.0 == 0 then record s { txq = r.1; free = free } else record s { txq = r.1 })
]

-- `udp_output`, for one device, by what `arp_lookup_mac` comes to; the scatter-gather array and the
-- cookie are in the mbuf.
pub udp_output : Cfg → Lookup → ℕ → List MbufIov → ℕ → IpTuple → ℕ → Sender → Option (ℕ × Sender)
udp_output cfg unknown m iovs cookie id len s = some (ret_again, s)
udp_output cfg requested m iovs cookie id len s = arp_send_pkt s >>= λ s'. some (ret_again, s')
udp_output cfg (found mac) m iovs cookie id len s =
    eth_send (record { id = m; fg_id = 0; len = udp_pkt_size; nr_iov = length iovs }) s.txq >>= λ r.
    some (r.0, queued (datagram cfg mac m iovs cookie id len) r.0 r.1 s)

-- The `if` on a page that ends within the data: the first entry holds all of it, or the rest is a
-- second entry.
pub second_iov : Bool → SgEntry → MbufIov → Sender → List MbufIov × ℕ × Sender
second_iov true ent first s = (first ∷ [], first.len, s)
second_iov false ent first s =
    let base = ent.base + first.len in
    let more = page_get base s in
    (
      first ∷ record { base = base; maddr = more.0; len = ent.len - first.len } ∷ [],
      first.len,
      more.1,
    )

-- The scatter-gather array of `bsys_udp_send`: its entries, the length of the first and the state.
pub udp_iovs : SgEntry → Sender → List MbufIov × ℕ × Sender
udp_iovs ent s =
    let first = mbuf_iov_create ent s in second_iov (ent.len == first.0.len) ent first.0 first.1

-- the end of `bsys_udp_send`: what an error gives back
pub send_finish : ℕ → List MbufIov → ℕ × Sender → ℕ × Sender
send_finish m iovs r =
    if r.0 == 0
    then r
    else (r.0, record r.1 { page_refs = free_iovs iovs r.1.page_refs; free = m ∷ r.1.free })

-- `bsys_udp_send` from the physical address on
pub udp_send_from : Cfg → Lookup → SgEntry → IpTuple → ℕ → List ℕ → Sender → Option (ℕ × Sender)
udp_send_from cfg mac ent id cookie [] s = some (ret_nobufs, s)
udp_send_from cfg mac ent id cookie (m ∷ free) s =
    let r = udp_iovs ent (record s { free = free }) in
    udp_output cfg mac m r.0 cookie id r.1 r.2 >>= λ t. some (send_finish m r.0 t)

-- `bsys_udp_send`. `id` is what `copy_from_user` reads, and `vm_lookup_phys` gives the physical
-- address of the 2 MB page of a virtual one, or 0; `none` is a fault in the transmit queue.
pub bsys_udp_send :
    Cfg → (ℕ → ℕ) → Lookup → ℕ → ℕ → Option IpTuple → ℕ → Sender → Option (ℕ × Sender)
bsys_udp_send cfg vm_lookup_phys mac vaddr len none cookie s =
    if ltb udp_max_len len then some (ret_inval, s) else some (ret_fault, s)
bsys_udp_send cfg vm_lookup_phys mac vaddr len (some id) cookie s =
    let addr = vm_lookup_phys vaddr in
    if ltb udp_max_len len
    then some (ret_inval, s)
    else if not (uaccess_zc_okay vaddr len)
    then some (ret_fault, s)
    else if addr == 0
    then some (ret_fault, s)
    else udp_send_from cfg mac (record { base = addr + pgoff_2mb vaddr; len = len }) id cookie
        s.free s

-- `udp_mbuf_done`
pub udp_mbuf_done : Datagram → Sender → Sender
udp_mbuf_done d s = record s {
  page_refs = free_iovs d.iovs s.page_refs;
  told = s.told ++ (d.done_data ∷ []);
  free = d.mbuf ∷ s.free;
}

-- `MBUF_LEN`
abbrev pub mbuf_len : ℕ
mbuf_len = 2112

-- What `bsys_udp_recv_done` changes: the field `done` of each mbuf, by address, and the free mbufs.
pub record Receiver : Type 0 where
  pub marks : ℕ → ℕ
  pub free : List ℕ

-- the mbuf that a pointer points into
abbrev pub mbuf_at : ℕ → ℕ
mbuf_at addr = addr / pgsize_2mb * pgsize_2mb + pgoff_2mb addr / mbuf_len * mbuf_len

-- `bsys_udp_recv_done` from the mbuf on
abbrev pub recv_done_at : ℕ → Receiver → ℕ × Receiver
recv_done_at m s =
    if not (s.marks m == udp_held)
    then (ret_inval, s)
    else (0, record s { marks = λ n. if n == m then 0 else s.marks n; free = m ∷ s.free })

-- `bsys_udp_recv_done`; `iomap_offset` is the distance of the user's mapping of the pool.
pub bsys_udp_recv_done : ℕ → ℕ → Receiver → ℕ × Receiver
bsys_udp_recv_done iomap_offset iomap s = recv_done_at (mbuf_at (iomap - iomap_offset)) s
