-- ===== src/Arp/Learn.antt =====
-- What the table learns from `arp_update_mac`, and what a static entry is safe from.
use ix.Base.{
  ℕ, ◌≡◌, refl, true, false, Option, some, ◌++◌, arith, AllSome, AllSome-bind, of_AllSome,
}
use mathlib.Core.Path.{subst}
use ix.Arp.{undispatched, Mac, ArpEntry, Arp, Host, found, find}
use ix.Arp.Ops.{
  bucket_of, put, add_entry, new_entry, resolved, arp_lookup, update_found, arp_update_mac,
  arp_lookup_mac,
}
use ix.Arp.Table.{find-addr, find-put_self, find-add_self, arp_lookup-cases}

module _ (host : Host) where
  -- an entry with a MAC in the table answers a search
  pub looked_up :
      (addr : ℕ) (a : Arp) (e : ArpEntry)
      → find addr (bucket_of host addr a) ≡ some e
      → e.valid ≡ true
      → arp_lookup_mac host addr a ≡ some (found e.mac, a)
  unfolding arp_lookup_mac arp_lookup
  looked_up addr a e p v = rw (arp_lookup_mac, arp_lookup, p, v) refl

  after_hit : Mac → ArpEntry → Arp → Arp
  after_hit mac e a = record (put host (resolved host mac e) a) {
    to_cpus = a.to_cpus ++ undispatched e.pending_pkts;
  }

  hit :
      (mac : Mac) (e : ArpEntry) (a : Arp)
      → find e.addr (bucket_of host e.addr a) ≡ some e
      → arp_lookup_mac host e.addr (after_hit mac e a) ≡ some (found mac, after_hit mac e a)
  unfolding after_hit
  hit mac e a p =
      looked_up e.addr (after_hit mac e a) (resolved host mac e)
        (find-put_self host (resolved host mac e) a e p) refl

  Learned : ℕ → Mac → ℕ × Arp → Type 0
  Learned addr mac r = r.0 ≡ 0 → arp_lookup_mac host addr r.1 ≡ some (found mac, r.1)

  learned_found :
      (addr : ℕ) (mac : Mac) (e : ArpEntry) (a : Arp)
      → find addr (bucket_of host addr a) ≡ some e
      → e.static ≡ false
      → AllSome (Learned addr mac) (update_found host mac (some e, a))
  unfolding Learned update_found after_hit
  learned_found addr mac e a p dynamic =
      let at = find-addr addr (bucket_of host addr a) e p in
      rw dynamic (λ z.
        subst
          (λ x.
            find x (bucket_of host x a) ≡ some e
            → arp_lookup_mac host x (after_hit mac e a) ≡ some (found mac, after_hit mac e a))
          at (hit mac e a) p)

  learned :
      (addr : ℕ) (mac : Mac) (a : Arp)
      → ((e : ArpEntry) → find addr (bucket_of host addr a) ≡ some e → e.static ≡ false)
      → AllSome (Learned addr mac) (arp_update_mac host addr mac true a)
  unfolding arp_update_mac update_found Learned
  learned addr mac a dynamic =
      let next : (r : Option ArpEntry × Arp) → Type 0 =
        (λ r. AllSome (Learned addr mac) (update_found host mac r)) in
      AllSome-bind next (Learned addr mac) (arp_lookup host addr true a) (update_found host mac)
        (arp_lookup-cases host next addr true a (λ e p. learned_found addr mac e a p (dynamic e p))
          (λ p.
            learned_found addr mac (new_entry host addr) (add_entry host (new_entry host addr) a)
              (find-add_self host (new_entry host addr) a) refl)
          (λ p z. absurd (omega (arith, z))) (λ p z. absurd (omega (arith, z))))
        (λ r q. q)

  -- When `arp_update_mac` has not failed for an address that has no static entry, whether it had an
  -- entry or not, `arp_lookup_mac` of the address gives the MAC, and sends nothing.
  pub arp_lookup_mac-arp_update_mac :
      (addr : ℕ) (mac : Mac) (a a' : Arp)
      → ((e : ArpEntry) → find addr (bucket_of host addr a) ≡ some e → e.static ≡ false)
      → arp_update_mac host addr mac true a ≡ some (0, a')
      → arp_lookup_mac host addr a' ≡ some (found mac, a')
  unfolding Learned
  arp_lookup_mac-arp_update_mac addr mac a a' dynamic done =
      of_AllSome (Learned addr mac) _ (0, a') (learned addr mac a dynamic) done refl
