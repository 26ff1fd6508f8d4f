-- ===== src/Arp/Input.antt =====
-- `arp_input`: which packets change the table, and who frees their mbufs.
use ix.Base.{
  ℕ, ◌+◌, ◌%◌, ◌≤◌, true, arith, ◌≡◌, refl, Bool, false, Option, some, [], ◌∷◌, ◌++◌, ◌==◌, ◌&&◌,
  Bool-cases, inl, inr, ◌⊎◌, sym, ap, AllSome, AllSome-bind, AllSome-if, of_AllSome, some_inj,
}
use ix.Arp.{first_byte, Mac, ArpEntry, ArpPacket, Arp, Host, arp_op_request}
use ix.Arp.Ops.{
  arp_lookup, update_found, arp_update_mac, arp_input, arp_send_response_reuse, is_acceptable,
  free_mbuf, response_of,
}
use ix.Arp.Table.{arp_lookup-cases}

module _ (host : Host) where
  -- no mbuf is sent or freed
  SameMbufs : Arp → Arp → Type 0
  SameMbufs a b = (b.sent ≡ a.sent) × (b.mbufs_freed ≡ a.mbufs_freed)

  update-SameMbufs :
      (addr : ℕ) (m : Mac) (create : Bool) (a : Arp)
      → AllSome (λ r. SameMbufs a r.1) (arp_update_mac host addr m create a)
  unfolding arp_update_mac update_found SameMbufs
  update-SameMbufs addr m create a =
      let next : (r : Option ArpEntry × Arp) → Type 0 =
        (λ r. AllSome (λ r. SameMbufs a r.1) (update_found host m r)) in
      AllSome-bind next (λ r. SameMbufs a r.1) (arp_lookup host addr create a) (update_found host m)
        (arp_lookup-cases host next addr create a
          (λ e p. AllSome-if (λ r. SameMbufs a r.1) e.static _ _ (refl, refl) (refl, refl))
          (λ p. (refl, refl)) (λ p. (refl, refl)) (λ p. (refl, refl)))
        (λ r q. q)

  -- The mbuf of a packet has gone: it carries a response, or it is free.
  pub Consumed : ArpPacket → Arp → Arp → Type 0
  Consumed pkt a b =
      ((b.sent ≡ a.sent ++ (response_of host pkt ∷ [])) × (b.mbufs_freed ≡ a.mbufs_freed))
      ⊎ ((b.sent ≡ a.sent) × (b.mbufs_freed ≡ a.mbufs_freed + 1))

  responded :
      (pkt : ArpPacket) (a b : Arp)
      → SameMbufs a b
      → Consumed pkt a (arp_send_response_reuse host pkt b)
  unfolding arp_send_response_reuse SameMbufs Consumed
  responded pkt a b same = elim (Bool-cases host.queue_left) [
    | inl left ↦ rw left (inl (ap (λ l. l ++ (response_of host pkt ∷ [])) same.0, same.1))
    | inr full ↦ rw full (inr (same.0, ap (λ n. n + 1) same.1))
  ]

  consumed : (pkt : ArpPacket) (a : Arp) → AllSome (Consumed pkt a) (arp_input host pkt a)
  unfolding arp_input arp_send_response_reuse SameMbufs Consumed
  consumed pkt a =
      AllSome-if (Consumed pkt a) (is_acceptable host pkt) _ (some (free_mbuf host a))
        (AllSome-bind (λ r. SameMbufs a r.1) (Consumed pkt a) _ _
          (update-SameMbufs pkt.sender_ip pkt.sender_mac (host.host_addr == pkt.target_ip) a)
          (λ r same.
            AllSome-if (Consumed pkt a)
              (host.host_addr == pkt.target_ip && pkt.op == arp_op_request) _ _
              (responded pkt a r.1 same) (inr (same.0, ap (λ n. n + 1) same.1))))
        (inr (refl, refl))

  -- What the protocol asks of a packet: both headers in the mbuf, addresses of Ethernet and IPv4,
  -- and a sender whose MAC is not a multicast one, its first byte being even.
  pub record IsAccepted (pkt : ArpPacket) : Type 0 where
    pub headers : 42 ≤ pkt.mbuf_len
    pub ether : (pkt.htype ≡ 1) × (pkt.hlen ≡ 6)
    pub ipv4 : (pkt.ptype ≡ 0x800) × (pkt.plen ≡ 4)
    pub unicast : first_byte pkt.sender_mac % 2 ≡ 0

  is_acceptable-IsAccepted : (pkt : ArpPacket) → is_acceptable host pkt ≡ true → IsAccepted pkt
  is_acceptable-IsAccepted pkt h = record {
    headers = ground arith;
    ether = (ground arith, ground arith);
    ipv4 = (ground arith, ground arith);
    unicast = ground arith;
  }

  kept_or_free :
      (pkt : ArpPacket) (a b : Arp) (t : Bool)
      → is_acceptable host pkt ≡ t
      → arp_input host pkt a ≡ some b
      → IsAccepted pkt ⊎ (b ≡ free_mbuf host a)
  unfolding arp_input
  kept_or_free pkt a b true e done = inl (is_acceptable-IsAccepted pkt e)
  kept_or_free pkt a b false e done = inr (sym (some_inj (rw e at done)))

  -- Whatever packet comes in, its mbuf is used exactly once: it carries the response, or it is
  -- freed. A packet that is too short, is not of Ethernet and IPv4, or has a multicast sender
  -- is freed and changes nothing else.
  pub arp_input-Consumed :
      (pkt : ArpPacket) (a b : Arp)
      → arp_input host pkt a ≡ some b
      → Consumed pkt a b × (IsAccepted pkt ⊎ (b ≡ free_mbuf host a))
  arp_input-Consumed pkt a b done =
      (of_AllSome (Consumed pkt a) _ b (consumed pkt a) done, kept_or_free pkt a b _ refl done)
