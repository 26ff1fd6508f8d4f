-- ===== src/Net/Input.antt =====
-- dp/net/ip.c and dp/net/udp.c: which packets `ip_input` lets through, and the bounds of what the
-- handlers are given.
use ix.Base.{
  ℕ, ◌+◌, ◌*◌, ◌%◌, ◌≤◌, Bool, true, false, not, some, ◌≡◌, refl, ap, ◌∙◌, if_true, if_false, ◌⊎◌,
  inl, inr, if◌then◌else◌, arith, ltb, leb, ◌==◌,
}
use ix.EthQueue.{EthTxQueue}
use ix.Net.{
  Cfg, Packet, freed, udp, ip_input, ip_deliver, udp_input, be16, udp_held, IpTuple, eth_input,
}

-- An IPv4 packet that is no fragment, whose header has a legal length and lies with the rest in
-- the mbuf.
pub record IsDatagram (pkt : Packet) : Type 0 where
  pub has_header : 34 ≤ pkt.mbuf_len
  pub version_4 : pkt.version ≡ 4
  pub whole_words : 5 ≤ pkt.header_len
  pub no_fragment : pkt.off % 0x4000 ≡ 0
  pub header_fits : pkt.header_len * 4 ≤ pkt.len
  pub in_mbuf : 14 + pkt.len ≤ pkt.mbuf_len

-- a test that drops what is not a `D`, in front of others
guard :
    {A : Type 0} {D : Type 0} (b : Bool) (out ok rest : A)
    → (b ≡ true → ¬ D)
    → (b ≡ false → (D × (rest ≡ ok)) ⊎ ((¬ D) × (rest ≡ out)))
    → (D × ((if b then out else rest) ≡ ok)) ⊎ ((¬ D) × ((if b then out else rest) ≡ out))
guard true out ok rest bad good = inr (bad refl, refl)
guard false out ok rest bad good = good refl

-- The checks of an input packet, all branches: `ip_input` passes a packet on if it is a datagram, and
-- frees it if it is not.
pub ip_input_lem :
    (cfg : Cfg) (pkt : Packet) (txq : EthTxQueue)
    → (IsDatagram pkt × (ip_input cfg pkt txq ≡ ip_deliver cfg pkt (pkt.header_len * 4) txq))
      ⊎ ((¬ IsDatagram pkt) × (ip_input cfg pkt txq ≡ some (freed, txq)))
unfolding ip_input
ip_input_lem cfg pkt txq =
    guard (not (leb 34 pkt.mbuf_len)) _ _ _ (λ e d. let p = d.has_header in absurd (ground arith))
      λ e1.
        guard (not (pkt.version == 4)) _ _ _ (λ e d. let p = d.version_4 in absurd (ground arith))
          λ e2.
            guard (ltb pkt.header_len 5) _ _ _
              (λ e d. let p = d.whole_words in absurd (ground arith))
              λ e3.
                guard (not (pkt.off % 0x4000 == 0)) _ _ _
                  (λ e d. let p = d.no_fragment in absurd (ground arith))
                  λ e4.
                    guard (ltb pkt.len (pkt.header_len * 4)) _ _ _
                      (λ e d. let p = d.header_fits in absurd (ground arith))
                      λ e5.
                        guard (not (leb (14 + pkt.len) pkt.mbuf_len)) _ _ _
                          (λ e d. let p = d.in_mbuf in absurd (ground arith))
                          λ e6. inl (
                            record {
                              has_header = ground arith;
                              version_4 = ground arith;
                              whole_words = ground arith;
                              no_fragment = ground arith;
                              header_fits = ground arith;
                              in_mbuf = ground arith;
                            },
                            refl,
                          )

-- What the user is given of a datagram: the header and the data that the UDP header counts lie in the mbuf.
udp_input_lem :
    (pkt : Packet) (udphdr : ℕ)
    → ((udphdr + be16 4 pkt.l4 ≤ pkt.mbuf_len)
        × (udp_input pkt udphdr
            ≡ udp
                (udphdr + 8)
                (be16 4 pkt.l4)
                (record {
                  src_ip = pkt.src_addr;
                  dst_ip = pkt.dst_addr;
                  src_port = be16 0 pkt.l4;
                  dst_port = be16 2 pkt.l4;
                })
                (record pkt { done = udp_held })))
      ⊎ ((¬ (udphdr + be16 4 pkt.l4 ≤ pkt.mbuf_len)) × (udp_input pkt udphdr ≡ freed))
unfolding udp_input
udp_input_lem pkt udphdr =
    guard (not (leb (udphdr + be16 4 pkt.l4) pkt.mbuf_len)) _ _ _ (λ e d. absurd (ground arith))
      λ e. inl (ground arith, refl)

-- A UDP datagram without options that fills its packet, from the wire to the user: `eth_input` gives
-- the user the UDP length, which counts the header, as the length of the data behind the header, so
-- that the range that the user is told of ends 8 bytes behind the packet.
pub eth_input-past_end :
    (cfg : Cfg) (pkt : Packet) (txq : EthTxQueue)
    → IsDatagram pkt
    → pkt.eth_type ≡ 0x0800
    → pkt.proto ≡ 17
    → pkt.header_len ≡ 5
    → pkt.mbuf_len ≡ 14 + pkt.len
    → be16 4 pkt.l4 + 20 ≡ pkt.len
    → (addr : ℕ) × (len : ℕ) × (id : IpTuple) × (p : Packet) × (eth_input cfg pkt txq
        ≡ some (udp addr len id p, txq))
      × (addr + len ≡ pkt.mbuf_len + 8)
unfolding eth_input ip_deliver
eth_input-past_end cfg pkt txq d eth proto words fills udp_fills = (
  42,
  be16 4 pkt.l4,
  _,
  _,
  if_true _ _ (ap (λ n. n == 0x0800) eth)
      ∙ passed cfg pkt txq d
      ∙ if_false _ _ (ap (λ n. n == 6) proto)
      ∙ if_true _ _ (ap (λ n. n == 17) proto)
      ∙ ap (λ f. some (f, txq))
          (ap (λ n. udp_input pkt (14 + n * 4)) words ∙ accepted pkt (omega arith)),
  omega arith,
)
  where
    passed :
        (cfg : Cfg) (pkt : Packet) (txq : EthTxQueue)
        → IsDatagram pkt
        → ip_input cfg pkt txq ≡ ip_deliver cfg pkt (pkt.header_len * 4) txq
    passed cfg pkt txq d = elim (ip_input_lem cfg pkt txq) [ inl p ↦ p.1 | inr p ↦ absurd (p.0 d) ]

    accepted :
        (pkt : Packet)
        → 34 + be16 4 pkt.l4 ≤ pkt.mbuf_len
        → udp_input pkt 34
          ≡ udp 42
              (be16 4 pkt.l4)
              (record {
                src_ip = pkt.src_addr;
                dst_ip = pkt.dst_addr;
                src_port = be16 0 pkt.l4;
                dst_port = be16 2 pkt.l4;
              })
              (record pkt { done = udp_held })
    accepted pkt h = elim (udp_input_lem pkt 34) [ inl p ↦ p.1 | inr p ↦ absurd (p.0 h) ]
