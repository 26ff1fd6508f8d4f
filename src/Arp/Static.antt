-- ===== src/Arp/Static.antt =====
-- An entry that `arp_insert` makes stays as it is, whatever packets come in.
use ix.Base.{
  ℕ, ◌≡◌, refl, Bool, true, false, Option, none, some, List, [], ◌∷◌, arith, ◌==◌, ◌>>=◌, ◌&&◌,
  Bool-cases, inl, inr, eq_of_==, some_inj, not_some, sym, ap, ◌∙◌, AllSome, AllSome-bind,
  AllSome-if, of_AllSome,
}
use mathlib.Core.Path.{subst}
use ix.Arp.{Mac, ArpEntry, ArpPacket, Arp, Host, found, find, arp_op_request}
use ix.Arp.Ops.{
  bucket_of, add_entry, new_entry, resolved, static_entry, arp_lookup, update_found, arp_update_mac,
  arp_input, arp_lookup_mac, arp_insert, arp_send_response_reuse, is_acceptable, free_mbuf,
}
use ix.Arp.Table.{find-addr, find-put_ne, find-add_self, find-add_ne, arp_lookup-cases}
use ix.Arp.Learn.{looked_up}

-- the packets of a sequence, one behind the other
unfoldable pub inputs : Host → List ArpPacket → Arp → Option Arp
unfolding arp_input
inputs host [] a = some a
inputs host (pkt ∷ pkts) a = arp_input host pkt a >>= inputs host pkts

module _ (host : Host) (addr : ℕ) (mac : Mac) where
  -- The entry of the address is static, and has the MAC.
  abbrev IsStatic : Arp → Type 0
  IsStatic a =
      (e : ArpEntry) × (find addr (bucket_of host addr a) ≡ some e)
      × (e.static ≡ true)
      × (e.valid ≡ true)
      × (e.mac ≡ mac)

  -- an entry of another address does not matter
  other :
      (from : ℕ) (e : ArpEntry) (a : Arp)
      → IsStatic a
      → find from (bucket_of host from a) ≡ some e
      → e.static ≡ false
      → (e.addr == addr) ≡ false
  other from e a i p dynamic = elim (Bool-cases (e.addr == addr)) [
    | inr ne ↦ ne
    | inl eq ↦
        let at = find-addr from (bucket_of host from a) e p in
        let same : from ≡ addr = sym at ∙ eq_of_== e.addr addr eq in
        let p' = subst (λ x. find x (bucket_of host x a) ≡ some e) same p in
        let one : some e ≡ some i.0 = sym p' ∙ i.1 in
        let clash : false ≡ true = sym dynamic ∙ ap (λ e. e.static) (some_inj one) ∙ i.2 in
        ground arith
  ]

  new_other :
      (from : ℕ) (a : Arp)
      → IsStatic a
      → find from (bucket_of host from a) ≡ none
      → (from == addr) ≡ false
  new_other from a i p = elim (Bool-cases (from == addr)) [
    | inr ne ↦ ne
    | inl eq ↦
        let p' = subst (λ x. find x (bucket_of host x a) ≡ none) (eq_of_== from addr eq) p in
        not_some (sym p' ∙ i.1)
  ]

  after_update :
      (m : Mac) (e : ArpEntry) (a : Arp)
      → (e.static ≡ false → (e.addr == addr) ≡ false)
      → IsStatic a
      → AllSome (λ r. IsStatic r.1) (update_found host m (some e, a))
  unfolding update_found
  after_update m e a away i = elim (Bool-cases e.static) [
    | inl static ↦ rw static i
    | inr dynamic ↦
        rw dynamic
          (i.0, find-put_ne host (resolved host m e) addr a (away dynamic) ∙ i.1, i.2, i.3, i.4)
  ]

  update-IsStatic :
      (from : ℕ) (m : Mac) (create : Bool) (a : Arp)
      → IsStatic a
      → AllSome (λ r. IsStatic r.1) (arp_update_mac host from m create a)
  unfolding arp_update_mac update_found
  update-IsStatic from m create a i =
      let next : (r : Option ArpEntry × Arp) → Type 0 =
        (λ r. AllSome (λ r. IsStatic r.1) (update_found host m r)) in
      AllSome-bind next (λ r. IsStatic r.1) (arp_lookup host from create a) (update_found host m)
        (arp_lookup-cases host next from create a (λ e p. after_update m e a (other from e a i p) i)
          (λ p.
            let away = new_other from a i p in
            after_update m (new_entry host from) (add_entry host (new_entry host from) a)
              (λ d. away)
              (i.0, find-add_ne host (new_entry host from) addr a away ∙ i.1, i.2, i.3, i.4))
          (λ p. i) (λ p. i))
        (λ r q. q)

  response-IsStatic :
      (pkt : ArpPacket) (a : Arp) → IsStatic a → IsStatic (arp_send_response_reuse host pkt a)
  unfolding arp_send_response_reuse
  response-IsStatic pkt a i = elim (Bool-cases host.queue_left) [
    | inl left ↦ rw left i
    | inr full ↦ rw full i
  ]

  input-IsStatic :
      (pkt : ArpPacket) (a : Arp) → IsStatic a → AllSome IsStatic (arp_input host pkt a)
  unfolding arp_input arp_send_response_reuse
  input-IsStatic pkt a i =
      AllSome-if IsStatic (is_acceptable host pkt) _ (some (free_mbuf host a))
        (AllSome-bind (λ r. IsStatic r.1) IsStatic _ _
          (update-IsStatic pkt.sender_ip pkt.sender_mac (host.host_addr == pkt.target_ip) a i)
          (λ r j.
            AllSome-if IsStatic (host.host_addr == pkt.target_ip && pkt.op == arp_op_request) _ _
              (response-IsStatic pkt r.1 j) j))
        i

  pub inputs-IsStatic :
      (pkts : List ArpPacket) (a : Arp) → IsStatic a → AllSome IsStatic (inputs host pkts a)
  unfolding inputs
  inputs-IsStatic [] a i = i
  inputs-IsStatic (pkt ∷ pkts) a i =
      AllSome-bind IsStatic IsStatic (arp_input host pkt a) (inputs host pkts)
        (input-IsStatic pkt a i) (λ b j. inputs-IsStatic pkts b j)

  inserted :
      (a : Arp)
      → find addr (bucket_of host addr a) ≡ none
      → AllSome (λ r. r.0 ≡ 0 → IsStatic r.1) (arp_insert host addr mac a)
  unfolding arp_insert arp_lookup
  inserted a p = elim (Bool-cases (a.arp_left == 0)) [
    | inl empty ↦ rw (arp_insert, arp_lookup, p, empty) (λ z. absurd (omega (arith, z)))
    | inr left ↦
        rw (arp_insert, arp_lookup, p, left)
          (λ z. (
            static_entry host addr mac,
            find-add_self host (static_entry host addr mac) a,
            refl,
            refl,
            refl,
          ))
  ]

-- Once `arp_insert` has made an entry for an address that had none, `arp_lookup_mac` of the address
-- gives the MAC and changes nothing, behind any sequence of packets that `arp_input` has handled.
pub arp_lookup_mac-inputs :
    (host : Host) (addr : ℕ) (mac : Mac) (pkts : List ArpPacket) (a b c : Arp)
    → find addr (bucket_of host addr a) ≡ none
    → arp_insert host addr mac a ≡ some (0, b)
    → inputs host pkts b ≡ some c
    → arp_lookup_mac host addr c ≡ some (found mac, c)
arp_lookup_mac-inputs host addr mac pkts a b c absent done ran =
    let i = of_AllSome _ _ (0, b) (inserted host addr mac a absent) done refl in
    let j = of_AllSome (IsStatic host addr mac) _ c (inputs-IsStatic host addr mac pkts b i) ran in
    looked_up host addr c j.0 j.1 j.3 ∙ ap (λ m. some (found m, c)) j.4
