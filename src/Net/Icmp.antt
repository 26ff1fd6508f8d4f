-- ===== src/Net/Icmp.antt =====
-- dp/net/icmp.c: the answer to an echo request.
use ix.Base.{
  ℕ, zero, suc, ◌+◌, ◌-◌, ◌*◌, ◌%◌, ◌/◌, ◌≤◌, ◌<◌, Bool, true, false, not, some, List, [], ◌∷◌, ◌≡◌,
  refl, ap, ◌∙◌, if◌then◌else◌, if_true, if_false, ◌==◌, ltb, arith, take, drop, ◌>>=◌,
}
use ix.EthQueue.{EthTxQueue, eth_send_one}
use ix.Net.{
  Cfg, Packet, freed, sent, icmp_input, icmp_reflect, reflected, answer, set_chksum, mbuf_of, byte,
  set_type,
}
use ix.Net.Chksum.{chksum_internet}
use ix.Net.Chksum.Fold.{ones, ones_complement}
use ix.Net.Chksum.Rfc.{chksum_internet_lem, sum16, AllBytes}

-- A message whose checksum field has been filled in from the message with 0 there verifies.
set_chksum-verifies :
    (type code lo hi : ℕ) (buf : List ℕ)
    → type < 256
    → code < 256
    → AllBytes buf
    → let blank = type ∷ code ∷ 0 ∷ 0 ∷ buf in
      chksum_internet (set_chksum (chksum_internet blank) (type ∷ code ∷ lo ∷ hi ∷ buf)) ≡ 0
unfolding sum16 AllBytes
set_chksum-verifies type code lo hi buf ht hc hb =
    let blank = type ∷ code ∷ 0 ∷ 0 ∷ buf in
    let t = sum16 blank in
    let zb : 0 < 256 = omega arith in
    let c = chksum_internet blank in
    let e : c ≡ 65535 - ones t = chksum_internet_lem blank (ht, (hc, (zb, (zb, hb)))) in
    let h : AllBytes (type ∷ code ∷ c % 256 ∷ c / 256 ∷ buf) =
      (ht, (hc, (omega arith, (omega arith, hb)))) in
    chksum_internet_lem (type ∷ code ∷ c % 256 ∷ c / 256 ∷ buf) h
    ∙ ap (λ n. 65535 - ones n) (filled type code (sum16 buf) c)
    ∙ ap (λ n. 65535 - ones (t + n)) e
    ∙ ones_complement t
  where
    filled :
        (a b s c : ℕ)
        → a + 256 * b + (c % 256 + 256 * (c / 256) + s) ≡ a + 256 * b + (0 + 256 * 0 + s) + c
    filled a b s c = omega arith

AllBytes-take : (n : ℕ) (buf : List ℕ) → AllBytes buf → AllBytes (take n buf)
unfolding AllBytes
AllBytes-take zero buf h = tt
AllBytes-take (suc n) [] h = tt
AllBytes-take (suc n) (b ∷ buf) h = (h.0, AllBytes-take n buf h.1)

reflected-verifies :
    (len type code lo hi : ℕ) (buf : List ℕ)
    → 4 ≤ len
    → type < 256
    → code < 256
    → AllBytes buf
    → chksum_internet (take len (reflected len (type ∷ code ∷ lo ∷ hi ∷ buf))) ≡ 0
unfolding reflected
reflected-verifies (suc (suc (suc (suc n)))) type code lo hi buf h ht hc hb =
    set_chksum-verifies type code lo hi (take n buf) ht hc (AllBytes-take n buf hb)
reflected-verifies zero type code lo hi buf h ht hc hb = absurd (omega arith)
reflected-verifies (suc zero) type code lo hi buf h ht hc hb = absurd (omega arith)
reflected-verifies (suc (suc zero)) type code lo hi buf h ht hc hb = absurd (omega arith)
reflected-verifies (suc (suc (suc zero))) type code lo hi buf h ht hc hb = absurd (omega arith)

-- What an answer must be: back to the sender, from the host, an echo reply of the same code and
-- data, with a checksum that verifies.
pub record IsAnswer (cfg : Cfg) (pkt : Packet) (len : ℕ) (p : Packet) : Type 0 where
  pub to_sender : (p.dhost ≡ pkt.shost) × (p.dst_addr ≡ pkt.src_addr)
  pub from_host : (p.shost ≡ cfg.mac) × (p.src_addr ≡ cfg.host_addr)
  pub reply : byte 0 p.l4 ≡ 0
  pub same_code : byte 1 p.l4 ≡ byte 1 pkt.l4
  pub same_data : drop 4 p.l4 ≡ drop 4 pkt.l4
  pub verifies : chksum_internet (take len p.l4) ≡ 0

answer-IsAnswer :
    (cfg : Cfg) (pkt : Packet) (len code lo hi : ℕ) (buf : List ℕ)
    → 4 ≤ len
    → code < 256
    → AllBytes buf
    → pkt.l4 ≡ 8 ∷ code ∷ lo ∷ hi ∷ buf
    → IsAnswer cfg pkt len (answer cfg len (record pkt { l4 = set_type 0 pkt.l4 }))
unfolding answer reflected
answer-IsAnswer cfg pkt len code lo hi buf h hc hb e = rw e (record {
  to_sender = (refl, refl);
  from_host = (refl, refl);
  reply = refl;
  same_code = refl;
  same_data = refl;
  verifies = reflected-verifies len 0 code lo hi buf h (omega arith) hc hb;
})

icmp_input-passes :
    (cfg : Cfg) (pkt : Packet) (len : ℕ) (txq : EthTxQueue)
    → 8 ≤ len
    → chksum_internet (take len pkt.l4) ≡ 0
    → byte 0 pkt.l4 ≡ 8
    → icmp_input cfg pkt len txq ≡ icmp_reflect cfg (record pkt { l4 = set_type 0 pkt.l4 }) len txq
unfolding icmp_input
icmp_input-passes cfg pkt len txq h sum type =
    if_false {b = ltb len 8} _ _ (ground arith)
    ∙ if_false _ _ (ap (λ n. not (n == 0)) sum)
    ∙ if_true _ _ (ap (λ n. n == 8) type)

icmp_input-other :
    (cfg : Cfg) (pkt : Packet) (len : ℕ) (txq : EthTxQueue)
    → byte 0 pkt.l4 ≡ 0
    → icmp_input cfg pkt len txq ≡ some (freed, txq)
unfolding icmp_input
icmp_input-other cfg pkt len txq type =
    whatever (ltb len 8) (
      whatever (not (chksum_internet (take len pkt.l4) == 0))
        (if_false _ _ (ap (λ n. n == 8) type)))
  where
    whatever : {A : Type 0} {x y : A} (b : Bool) → y ≡ x → (if b then x else y) ≡ x
    whatever true e = refl
    whatever false e = e

-- An echo request that verifies, when the transmit queue has room: `icmp_input` puts an answer into
-- the queue that verifies, and goes back with the same data; and a host that gets the answer frees it.
pub icmp_input-answers :
    (cfg : Cfg) (pkt : Packet) (len code lo hi : ℕ) (buf : List ℕ) (txq txq' : EthTxQueue)
    → pkt.l4 ≡ 8 ∷ code ∷ lo ∷ hi ∷ buf
    → code < 256
    → AllBytes buf
    → 8 ≤ len
    → chksum_internet (take len pkt.l4) ≡ 0
    → eth_send_one (mbuf_of pkt) pkt.mbuf_len txq ≡ some (0, txq')
    → (p : Packet) × (icmp_input cfg pkt len txq ≡ some (sent p, txq'))
      × IsAnswer cfg pkt len p
      × ((c : Cfg) (q : EthTxQueue) → icmp_input c p len q ≡ some (freed, q))
unfolding icmp_reflect answer
icmp_input-answers cfg pkt len code lo hi buf txq txq' e hc hb h sum room =
    let p = answer cfg len (record pkt { l4 = set_type 0 pkt.l4 }) in
    let a = answer-IsAnswer cfg pkt len code lo hi buf (omega arith) hc hb e in
    (
      p,
      icmp_input-passes cfg pkt len txq h sum (ap (byte 0) e)
          ∙ ap (λ o. o >>= λ r. some ((if r.0 == 0 then sent p else freed), r.1)) room,
      a,
      λ c q. icmp_input-other c p len q a.reply,
    )
