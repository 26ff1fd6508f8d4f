-- ===== src/Net/Udp/Send.antt =====
-- dp/net/udp.c: what `bsys_udp_send` queues, and what it gives back.
use ix.Base.{
  ℕ, ◌+◌, ◌-◌, ◌%◌, ◌++◌, ◌≤◌, Bool, true, false, not, Option, none, some, List, [], ◌∷◌, ◌≡◌, ◌≢◌,
  refl, sym, ap, ◌∙◌, ltb, leb, ◌==◌, if◌then◌else◌, if_true, if_false, ◌>>=◌, length, Bool-cases,
  ◌⊎◌, inl, inr, arith,
}
use mathlib.Core.Path.{subst}
use ix.EthQueue.{Mbuf, EthTxQueue, ebusy, eth_send_one}
use ix.EthQueue.Send.{IsTx, eth_send_lem}
use ix.Net.{Cfg, IpTuple}
use ix.Net.Udp.Pieces.{Covers, IsRefs, IsArray, min-≤, udp_iovs-IsArray}
use ix.Net.Udp.{
  Lookup, found, unknown, requested, arp_pkt, arp_send_pkt, Sender, Datagram, MbufIov, SgEntry, min,
  free_iovs, udp_iovs, udp_output, datagram, queued, ret_again, ret_nobufs, ret_inval, ret_fault,
  send_finish, udp_send_from, bsys_udp_send, uaccess_zc_okay, udp_mbuf_done,
}

-- What a successful send leaves: a datagram behind the others, in an mbuf of the pool, with the data of
-- the user. Its UDP length counts the data in the first page only. When it has been sent, every page
-- has the references it had, and the pool its mbufs.
record Queued (addr len cookie : ℕ) (s t : Sender) : Type 0 where
  d : Datagram
  last : t.flying ≡ s.flying ++ (d ∷ [])
  covers : Covers s.page_tbl addr len d.iovs
  taken : s.free ≡ d.mbuf ∷ t.free
  cookie_kept : d.done_data ≡ cookie
  counted : d.udp_len ≡ 8 + min len (2097152 - addr % 2097152)
  given_back : (n : ℕ) → (udp_mbuf_done d t).page_refs n ≡ s.page_refs n
  reused : (udp_mbuf_done d t).free ≡ s.free
  told : (udp_mbuf_done d t).told ≡ s.told ++ (cookie ∷ [])

-- A request for the address of the receiver is in the queue, in one more mbuf.
Asked : Lookup → List ℕ → List ℕ → EthTxQueue → EthTxQueue → Type 0
Asked mac free free' txq txq' =
    (mac ≡ requested)
    × (m : ℕ) × (q : ℕ) × (rest : List ℕ) × (free ≡ m ∷ q ∷ rest)
    × (free' ≡ m ∷ rest)
    × (txq'.bufs ≡ txq.bufs ++ (arp_pkt q ∷ []))

-- What an error leaves: nothing more is held than before, but for a request.
record Refused (mac : Lookup) (s t : Sender) : Type 0 where
  refs : (n : ℕ) → t.page_refs n ≡ s.page_refs n
  queue : ((t.free ≡ s.free) × (t.txq ≡ s.txq)) ⊎ Asked mac s.free t.free s.txq t.txq
  flying : t.flying ≡ s.flying
  told : t.told ≡ s.told

-- the free mbufs and the queue behind `arp_send_pkt`
Tried : Lookup → Sender → Sender → Type 0
Tried mac s t =
    ((t.free ≡ s.free) × (t.txq ≡ s.txq))
    ⊎ ((mac ≡ requested)
        × (q : ℕ) × (s.free ≡ q ∷ t.free)
        × (t.txq.bufs ≡ s.txq.bufs ++ (arp_pkt q ∷ [])))

-- What `udp_output` leaves alone when it fails.
record Failed (mac : Lookup) (s t : Sender) : Type 0 where
  refs : t.page_refs ≡ s.page_refs
  flying : t.flying ≡ s.flying
  told : t.told ≡ s.told
  queue : Tried mac s t

stays : (mac : Lookup) (s : Sender) → Failed mac s s
unfolding Tried
stays mac s = record { refs = refl; flying = refl; told = refl; queue = inl (refl, refl) }

arp_send_pkt-Failed :
    (free : List ℕ) (s : Sender)
    → s.free ≡ free
    → IsTx s.txq
    → (t : Sender) × (arp_send_pkt s ≡ some t) × Failed requested s t
unfolding arp_send_pkt eth_send_one Tried
arp_send_pkt-Failed [] s e tx = (s, rw e refl, stays requested s)
arp_send_pkt-Failed (m ∷ free) s e tx =
    let (r, sends, _, room, busy) = eth_send_lem (arp_pkt m) s.txq tx in
    elim (Bool-cases (leb 1 s.txq.cap)) [
      | inl fits ↦
          let done = room (ground arith) in
          (
            record s { txq = r.1; free = free },
            rw (e, sends, done.0) refl,
            record { refs = refl; flying = refl; told = refl; queue = inr (refl, m, e, done.1) },
          )
      | inr full ↦
          let done = busy (ground arith) in
          (
            record s { txq = r.1 },
            rw (e, sends, done.0) refl,
            record { refs = refl; flying = refl; told = refl; queue = inl (refl, done.1) },
          )
    ]

Output : Lookup → ℕ → List MbufIov → ℕ → ℕ → Sender → ℕ × Sender → Type 0
Output mac m iovs cookie len s r =
    ((r.0 ≡ 0)
      × (d : Datagram) × (r.1.flying ≡ s.flying ++ (d ∷ []))
      × (d.iovs ≡ iovs)
      × (d.mbuf ≡ m)
      × (d.done_data ≡ cookie)
      × (d.udp_len ≡ (len + 8) % 65536)
      × (r.1.page_refs ≡ s.page_refs)
      × (r.1.free ≡ s.free)
      × (r.1.told ≡ s.told))
    ⊎ ((r.0 ≢ 0) × Failed mac s r.1)

udp_output-Output :
    (cfg : Cfg) (mac : Lookup) (m : ℕ) (iovs : List MbufIov) (cookie : ℕ) (id : IpTuple) (len : ℕ)
    (s : Sender)
    → IsTx s.txq
    → (r : ℕ × Sender) × (udp_output cfg mac m iovs cookie id len s ≡ some r)
      × Output mac m iovs cookie len s r
unfolding udp_output Output
udp_output-Output cfg unknown m iovs cookie id len s tx =
    ((ret_again, s), refl, inr ((λ e. ground arith), stays unknown s))
udp_output-Output cfg requested m iovs cookie id len s tx =
    let (t, sends, left) = arp_send_pkt-Failed s.free s refl tx in
    (
      (ret_again, t),
      ap (λ o. o >>= λ s'. some (ret_again, s')) sends,
      inr ((λ e. ground arith), left),
    )
udp_output-Output cfg (found mac) m iovs cookie id len s tx =
    let buf : Mbuf = record { id = m; fg_id = 0; len = 42; nr_iov = length iovs } in
    let d = datagram cfg mac m iovs cookie id len in
    let (r, sends, _, room, busy) = eth_send_lem buf s.txq tx in
    let step : udp_output cfg (found mac) m iovs cookie id len s ≡ some (r.0, queued d r.0 r.1 s) =
      ap (λ o. o >>= λ r. some (r.0, queued d r.0 r.1 s)) sends in
    elim (Bool-cases (leb (1 + length iovs) s.txq.cap)) [
      | inl fits ↦
          let e = room (ground arith) in
          (
            (0, record s { txq = r.1; flying = s.flying ++ (d ∷ []) }),
            step ∙ ap (λ n. some (n, queued d n r.1 s)) e.0,
            inl (refl, d, refl, refl, refl, refl, refl, refl, refl, refl),
          )
      | inr full ↦
          let e = busy (ground arith) in
          (
            (ebusy, s),
            step
                ∙ ap (λ n. some (n, queued d n r.1 s)) e.0
                ∙ ap (λ q. some (ebusy, record s { txq = q })) e.1,
            inr ((λ e. ground arith), stays (found mac) s),
          )
    ]

pub Sent : Lookup → ℕ → ℕ → ℕ → Sender → ℕ × Sender → Type 0
Sent mac addr len cookie s r =
    ((r.0 ≡ 0) × Queued addr len cookie s r.1) ⊎ ((r.0 ≢ 0) × Refused mac s r.1)

send_finish-Sent :
    (mac : Lookup) (ent : SgEntry) (m cookie : ℕ) (free : List ℕ) (s : Sender)
    (r : List MbufIov × ℕ × Sender) (t : ℕ × Sender)
    → s.free ≡ m ∷ free
    → ent.len ≤ 1472
    → IsArray ent (record s { free = free }) r
    → Output mac m r.0 cookie r.1 r.2 t
    → Sent mac ent.base ent.len cookie s (send_finish m r.0 t)
unfolding Output Sent Tried Asked send_finish udp_mbuf_done
send_finish-Sent mac ent m cookie free s r t e h a
      (inl (z, d, last, iovs, mbuf, done, counted, refs, left, calls)) =
    let pool = e ∙ ap (λ n. n ∷ free) (sym mbuf) ∙ ap (λ l. d.mbuf ∷ l) (sym (left ∙ a.same.0)) in
    subst (Sent mac ent.base ent.len cookie s) (sym (if_true _ _ (ap (λ n. n == 0) z))) (
      inl (
        z,
        record {
          d = d;
          last = last ∙ ap (λ l. l ++ (d ∷ [])) a.same.2;
          covers = subst (Covers s.page_tbl ent.base ent.len) (sym iovs) a.covers;
          taken = pool;
          cookie_kept = done;
          counted =
              counted
              ∙ ap (λ n. (n + 8) % 65536) a.first
              ∙ small (min ent.len (2097152 - ent.base % 2097152)) ent.len h
                  (min-≤ ent.len (2097152 - ent.base % 2097152)).0;
          given_back = λ n.
              ap (λ l. free_iovs l t.1.page_refs n) iovs
              ∙ ap (λ f. free_iovs r.0 f n) refs
              ∙ a.given_back n;
          reused = sym pool;
          told =
              ap (λ l. l ++ (d.done_data ∷ [])) (calls ∙ a.same.3)
              ∙ ap (λ c. s.told ++ (c ∷ [])) done;
        },
      ))
  where
    small : (n len : ℕ) → len ≤ 1472 → n ≤ len → (n + 8) % 65536 ≡ 8 + n
    small n len h k = omega arith
send_finish-Sent mac ent m cookie free s r t e h a (inr (z, same)) =
    subst (Sent mac ent.base ent.len cookie s) (sym (if_false {b = t.0 == 0} _ _ (ground arith))) (
      inr (
        z,
        record {
          refs = λ n. ap (λ f. free_iovs r.0 f n) same.refs ∙ a.given_back n;
          queue = elim same.queue [
            | inl (left, txq) ↦ inl (ap (λ l. m ∷ l) (left ∙ a.same.0) ∙ sym e, txq ∙ a.same.1)
            | inr (was, q, left, bufs) ↦ inr (
              was,
              m,
              q,
              t.1.free,
              e ∙ ap (λ l. m ∷ l) (sym a.same.0 ∙ left),
              refl,
              bufs ∙ ap (λ x. x.bufs ++ (arp_pkt q ∷ [])) a.same.1,
            )
          ];
          flying = same.flying ∙ a.same.2;
          told = same.told ∙ a.same.3;
        },
      ))

unsent :
    (mac : Lookup) (ret addr len cookie : ℕ) (s : Sender)
    → ret ≢ 0
    → Sent mac addr len cookie s (ret, s)
unfolding Sent
unsent mac ret addr len cookie s z =
    inr (z, record { refs = λ n. refl; queue = inl (refl, refl); flying = refl; told = refl })

udp_send_from-Sent :
    (cfg : Cfg) (mac : Lookup) (ent : SgEntry) (id : IpTuple) (cookie : ℕ) (free : List ℕ)
    (s : Sender)
    → s.free ≡ free
    → ent.len ≤ 1472
    → IsRefs s.page_refs
    → IsTx s.txq
    → (r : ℕ × Sender) × (udp_send_from cfg mac ent id cookie free s ≡ some r)
      × Sent mac ent.base ent.len cookie s r
unfolding udp_send_from
udp_send_from-Sent cfg mac ent id cookie [] s e h refs tx =
    ((ret_nobufs, s), refl, unsent mac ret_nobufs ent.base ent.len cookie s (λ e. ground arith))
udp_send_from-Sent cfg mac ent id cookie (m ∷ free) s e h refs tx =
    let s0 = record s { free = free } in
    let r = udp_iovs ent s0 in
    let a = udp_iovs-IsArray ent s0 h refs in
    let (t, sends, o) =
      udp_output-Output cfg mac m r.0 cookie id r.1 r.2 (subst IsTx (sym a.same.1) tx) in
    (
      send_finish m r.0 t,
      ap (λ o. o >>= λ t. some (send_finish m r.0 t)) sends,
      send_finish-Sent mac ent m cookie free s r t e h a o,
    )

Returns : Lookup → ℕ → ℕ → ℕ → Sender → Option (ℕ × Sender) → Type 0
Returns mac addr len cookie s o = (r : ℕ × Sender) × (o ≡ some r) × Sent mac addr len cookie s r

refuse :
    (mac : Lookup) (addr len cookie ret : ℕ) (s : Sender) (b : Bool) (o : Option (ℕ × Sender))
    → ret ≢ 0
    → (b ≡ false → Returns mac addr len cookie s o)
    → Returns mac addr len cookie s (if b then some (ret, s) else o)
unfolding Returns
refuse mac addr len cookie ret s true o z go = ((ret, s), refl, unsent mac ret addr len cookie s z)
refuse mac addr len cookie ret s false o z go = go refl

-- Sending a datagram, all branches, with a transmit queue in order, counts of references that are
-- words of 32 bits, and an `arp_lookup_mac` that returns: the call returns. If it returns 0, one
-- datagram is queued whose pieces cover the user's data and do not cross a page; its UDP length is
-- that of the data in the first page; and when it has been sent each page has the references it
-- had, the mbuf is back in the pool and the user is told its cookie.
-- If it returns an error, every reference and its mbuf are given back and no datagram is queued; the
-- queue is as it was, or, when the address had to be asked for, has the ARP request behind the
-- packets it had, in one more mbuf of the pool.
pub bsys_udp_send_lem :
    (cfg : Cfg) (vm_lookup_phys : ℕ → ℕ) (mac : Lookup) (vaddr len : ℕ) (id : Option IpTuple)
    (cookie : ℕ) (s : Sender)
    → IsRefs s.page_refs
    → IsTx s.txq
    → (r : ℕ × Sender) × (bsys_udp_send cfg vm_lookup_phys mac vaddr len id cookie s ≡ some r)
      × Sent mac (vm_lookup_phys vaddr + vaddr % 2097152) len cookie s r
unfolding bsys_udp_send Returns
bsys_udp_send_lem cfg vm mac vaddr len none cookie s refs tx =
    let addr = vm vaddr + vaddr % 2097152 in
    refuse mac addr len cookie ret_inval s (ltb 1472 len) _ (λ e. ground arith)
      λ e. ((ret_fault, s), refl, unsent mac ret_fault addr len cookie s (λ e. ground arith))
bsys_udp_send_lem cfg vm mac vaddr len (some id) cookie s refs tx =
    let addr = vm vaddr + vaddr % 2097152 in
    refuse mac addr len cookie ret_inval s (ltb 1472 len) _ (λ e. ground arith)
      λ short.
        refuse mac addr len cookie ret_fault s (not (uaccess_zc_okay vaddr len)) _
          (λ e. ground arith)
          λ e.
            refuse mac addr len cookie ret_fault s (vm vaddr == 0) _ (λ e. ground arith)
              λ e.
                udp_send_from-Sent cfg mac (record { base = addr; len = len }) id cookie s.free s
                  refl (ground arith) refs tx
