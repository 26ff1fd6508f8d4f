-- ===== src/Arp/Ops.antt =====
-- dp/net/arp.c: the operations of the ARP table.
use ix.Base.{
  ℕ, ◌+◌, ◌-◌, ◌%◌, ◌^◌, ◌++◌, Bool, true, false, ◌&&◌, not, Option, none, some, List, [], ◌∷◌, leb,
  ◌==◌, if◌then◌else◌, ◌>>=◌, length,
}
use ix.Arp.{
  Arp, ArpEntry, ArpPacket, Host, Mac, MacResult, PendingPkt, all_dispatched, arp_hdr_ethip_len,
  arp_hdr_len, arp_htype_ether, arp_max_attempts, arp_max_entries, arp_op_reply, arp_op_request,
  arp_refresh_timeout, arp_resolve_timeout, arp_retry_timeout, eagain, enoent, enomem,
  eth_addr_broadcast, eth_addr_is_multicast, eth_hdr_len, ethtype_ip, failed, find, found, remove,
  set_bucket, undispatched, without_mbuf, write,
}

module _ (host : Host) where
  abbrev pub arp_ip_to_idx : ℕ → ℕ
  arp_ip_to_idx addr = host.hash_crc32c_one addr % arp_max_entries

  abbrev pub bucket_of : ℕ → Arp → List ArpEntry
  bucket_of addr a = a.tbl (arp_ip_to_idx addr)

  abbrev pub put : ArpEntry → Arp → Arp
  put e a = record a {
    tbl = set_bucket a.tbl (arp_ip_to_idx e.addr) (write e (bucket_of e.addr a));
  }

  -- `hlist_add_head` of an entry from the pool
  abbrev pub add_entry : ArpEntry → Arp → Arp
  add_entry e a = record a {
    tbl = set_bucket a.tbl (arp_ip_to_idx e.addr) (e ∷ bucket_of e.addr a);
    arp_left = a.arp_left - 1;
  }

  abbrev pub new_entry : ℕ → ArpEntry
  new_entry addr = record {
    addr = addr;
    mac = host.stale_mac;
    resolving = false;
    valid = false;
    static = false;
    retries = 0;
    timer = none;
    pending_pkts = host.stale_pkts;
  }

  -- `arp_lookup`. The table is searched again under the lock, with the same result on one core.
  -- Where the pool is empty it returns with the lock held.
  unfoldable pub arp_lookup : ℕ → Bool → Arp → Option (Option ArpEntry × Arp)
  arp_lookup addr create_okay a = elim (find addr (bucket_of addr a)) [
    | some e ↦ some (some e, a)
    | none ↦
        if create_okay
        then (if a.arp_lock
            then none
            else if a.arp_left == 0
            then some (none, record a { arp_lock = true })
            else some (some (new_entry addr), add_entry (new_entry addr) a))
        else some (none, a)
  ]

  -- the entry once its address is known
  abbrev pub resolved : Mac → ArpEntry → ArpEntry
  resolved mac e = record e {
    mac = mac;
    resolving = false;
    valid = true;
    static = false;
    retries = 0;
    timer = some arp_refresh_timeout;
    pending_pkts = all_dispatched e.pending_pkts;
  }

  -- `arp_update_mac` behind its search
  unfoldable pub update_found : Mac → Option ArpEntry × Arp → Option (ℕ × Arp)
  update_found mac (none, a) = some (enomem, a)
  update_found mac (some e, a) =
      if e.static
      then some (0, a)
      else some (
        0,
        record (put (resolved mac e) a) { to_cpus = a.to_cpus ++ undispatched e.pending_pkts },
      )

  -- `arp_update_mac`, with its error number
  unfoldable pub arp_update_mac : ℕ → Mac → Bool → Arp → Option (ℕ × Arp)
  arp_update_mac addr mac create_okay a = arp_lookup addr create_okay a >>= update_found mac

  -- `arp_send_pkt`; every caller ignores its result.
  unfoldable pub arp_send_pkt : ℕ → ℕ → Mac → Arp → Arp
  arp_send_pkt op target_ip target_mac a =
      if host.mbuf_left
      then (if host.queue_left
          then record a {
            sent =
                a.sent
                ++ (record {
                  mbuf_len = eth_hdr_len + arp_hdr_len + arp_hdr_ethip_len;
                  dhost = target_mac;
                  shost = host.host_mac;
                  htype = arp_htype_ether;
                  ptype = ethtype_ip;
                  hlen = 6;
                  plen = 4;
                  op = op;
                  sender_mac = host.host_mac;
                  sender_ip = host.host_addr;
                  target_mac = target_mac;
                  target_ip = target_ip;
                }
                    ∷ []);
          }
          else record a { mbufs_freed = a.mbufs_freed + 1 })
      else a

  -- the answer that `arp_send_response_reuse` makes of a request, in its mbuf
  abbrev pub response_of : ArpPacket → ArpPacket
  response_of pkt = record pkt {
    mbuf_len = eth_hdr_len + arp_hdr_len + arp_hdr_ethip_len;
    dhost = pkt.shost;
    shost = host.host_mac;
    op = arp_op_reply;
    sender_mac = host.host_mac;
    sender_ip = host.host_addr;
    target_mac = pkt.sender_mac;
    target_ip = pkt.sender_ip;
  }

  unfoldable pub arp_send_response_reuse : ArpPacket → Arp → Arp
  arp_send_response_reuse pkt a =
      if host.queue_left
      then record a { sent = a.sent ++ (response_of pkt ∷ []) }
      else record a { mbufs_freed = a.mbufs_freed + 1 }

  -- the checks of `arp_input` before it reads the addresses, and of the sender's MAC
  abbrev pub is_acceptable : ArpPacket → Bool
  is_acceptable pkt =
      leb (eth_hdr_len + arp_hdr_len) pkt.mbuf_len
      && pkt.htype == arp_htype_ether
      && pkt.ptype == ethtype_ip
      && pkt.hlen == 6
      && pkt.plen == 4
      && leb (eth_hdr_len + arp_hdr_len + arp_hdr_ethip_len) pkt.mbuf_len
      && not (eth_addr_is_multicast pkt.sender_mac)

  abbrev pub free_mbuf : Arp → Arp
  free_mbuf a = record a { mbufs_freed = a.mbufs_freed + 1 }

  -- `arp_input`; the header lies behind the Ethernet header.
  unfoldable pub arp_input : ArpPacket → Arp → Option Arp
  arp_input pkt a =
      if is_acceptable pkt
      then (let am_target = host.host_addr == pkt.target_ip in
          arp_update_mac pkt.sender_ip pkt.sender_mac am_target a >>= λ r.
          if am_target && pkt.op == arp_op_request
          then some (arp_send_response_reuse pkt r.1)
          else some (free_mbuf r.1))
      else some (free_mbuf a)

  unfoldable pub arp_lookup_mac : ℕ → Arp → Option (MacResult × Arp)
  arp_lookup_mac addr a = arp_lookup addr true a >>= λ r. elim r.0 [
    | none ↦ some (failed enoent, r.1)
    | some e ↦ if e.valid then some (found e.mac, r.1) else elim e.timer [
      | some us ↦ some (failed eagain, r.1)
      | none ↦ some (
        failed eagain,
        arp_send_pkt arp_op_request addr eth_addr_broadcast
            (put (record e { resolving = true; timer = some arp_resolve_timeout }) r.1),
      )
    ]
  ]

  abbrev pub static_entry : ℕ → Mac → ArpEntry
  static_entry addr mac = record (new_entry addr) { mac = mac; valid = true; static = true }

  -- `arp_insert`, with its error number
  unfoldable pub arp_insert : ℕ → Mac → Arp → Option (ℕ × Arp)
  arp_insert addr mac a = arp_lookup addr false a >>= λ r. elim r.0 [
    | none ↦
        if r.1.arp_left == 0
        then some (enomem, r.1)
        else some (0, add_entry (static_entry addr mac) r.1)
    | some e ↦ some (0, put (record e { mac = mac; timer = none }) r.1)
  ]

  -- `arp_timer_handler` for the entry of an address, whose timer has fired
  unfoldable pub arp_timer_handler : ArpEntry → Arp → Arp
  arp_timer_handler e a =
      let tried = record e { retries = (e.retries + 1) % 2 ^ 8; timer = none } in
      if leb arp_max_attempts tried.retries
      then record a {
        tbl = set_bucket a.tbl (arp_ip_to_idx e.addr) (remove e.addr (bucket_of e.addr a));
        arp_left = a.arp_left + 1;
        pending_left = a.pending_left + length e.pending_pkts;
        mbufs_freed = a.mbufs_freed + length e.pending_pkts;
      }
      else arp_send_pkt arp_op_request e.addr (if e.valid then e.mac else eth_addr_broadcast)
          (put (record tried { resolving = true; timer = some arp_retry_timeout }) a)

  -- `arp_add_pending_pkt`, with its error number; `cpu_id` is the core that it runs on.
  unfoldable arp_add_pending_pkt : ℕ → ℕ → ℕ → ℕ → ℕ → Arp → Option (ℕ × Arp)
  arp_add_pending_pkt dst_addr fg mbuf len cpu_id a = arp_lookup dst_addr false a >>= λ r.
      elim r.0 [
        | none ↦ some (enoent, r.1)
        | some e ↦
            if r.1.pending_left == 0
            then some (enomem, r.1)
            else some (
              0,
              record (put
                  (record e {
                    pending_pkts =
                        record {
                          mbuf = mbuf;
                          dst_addr = dst_addr;
                          fg = fg;
                          len = len;
                          cpu = cpu_id;
                          dispatched = false;
                        }
                        ∷ e.pending_pkts;
                  })
                  r.1) { pending_left = r.1.pending_left - 1 },
            )
      ]

  -- `send_pending_pkt`, run on the core of a packet that waits at the entry `e`; `sends` says
  -- whether `ip_send_one` takes the packet.
  unfoldable send_pending_pkt : Bool → ArpEntry → PendingPkt → Arp → Arp
  send_pending_pkt sends e pkt a =
      record (put (record e { pending_pkts = without_mbuf pkt.mbuf e.pending_pkts }) a) {
        pending_left = a.pending_left + 1;
        mbufs_freed = if sends then a.mbufs_freed else a.mbufs_freed + 1;
      }
