-- ===== src/Arp/Faults.antt =====
-- Where the table does not do what its callers rely on.
use ix.Base.{ℕ, ◌≡◌, refl, true, false, none, some, some_inj, sym, ap, ◌∙◌}
use mathlib.Core.Path.{subst}
use ix.Arp.{
  Mac, ArpEntry, Arp, Host, found, failed, enoent, eagain, find, arp_op_request, eth_addr_broadcast,
  arp_resolve_timeout,
}
use ix.Arp.Ops.{
  bucket_of, put, arp_lookup, arp_update_mac, arp_lookup_mac, arp_insert, arp_send_pkt,
}
use ix.Arp.Table.{find-addr, find-put_self}
use ix.Arp.Learn.{arp_lookup_mac-arp_update_mac}

-- When the pool of entries is empty, `arp_lookup_mac` of an unknown address fails, and leaves
-- `arp_lock` held: the next such call, for any address that is not in the table, never returns.
pub arp_lookup_mac-locked :
    (host : Host) (addr addr' : ℕ) (a : Arp)
    → find addr (bucket_of host addr a) ≡ none
    → find addr' (bucket_of host addr' a) ≡ none
    → a.arp_lock ≡ false
    → a.arp_left ≡ 0
    → (b : Arp) × (arp_lookup_mac host addr a ≡ some (failed enoent, b))
      × (arp_lookup_mac host addr' b ≡ none)
unfolding arp_lookup_mac arp_lookup
arp_lookup_mac-locked host addr addr' a absent absent' free empty = (
  record a { arp_lock = true },
  rw (arp_lookup_mac, arp_lookup, absent, free, empty) refl,
  rw (arp_lookup_mac, arp_lookup, absent') refl,
)

module _ (host : Host) (addr : ℕ) (mac : Mac) (e : ArpEntry) (a b : Arp)
    (known : find addr (bucket_of host addr a) ≡ some e)
    (inserted : arp_insert host addr mac a ≡ some (0, b)) where
  given : ArpEntry
  given = record e { mac = mac; timer = none }

  is_put : put host given a ≡ b
  unfolding arp_insert arp_lookup given
  is_put = ap (λ r. r.1) (some_inj (rw (arp_insert, arp_lookup, known) at inserted))

  now_found : find addr (bucket_of host addr b) ≡ some given
  unfolding given
  now_found =
      let at = find-addr addr (bucket_of host addr a) e known in
      let here =
        find-put_self host given a e
          (subst (λ x. find x (bucket_of host x a) ≡ some e) (sym at) known) in
      subst (λ x. find addr (bucket_of host addr x) ≡ some given) is_put
        (subst (λ x. find x (bucket_of host x (put host given a)) ≡ some given) at here)

  -- the state behind a search for the address, while it is not resolved
  asked : Arp
  asked =
      arp_send_pkt host arp_op_request addr eth_addr_broadcast
        (put host (record given { resolving = true; timer = some arp_resolve_timeout }) b)

-- Where `arp_insert` meets an entry that is not static, it makes no static one of it: the next
-- packet from the address replaces the MAC that was inserted. If the address was not resolved
-- either, `arp_lookup_mac` goes on failing, as if nothing had been inserted.
pub arp_insert-not_static :
    (host : Host) (addr : ℕ) (mac mac' : Mac) (e : ArpEntry) (a b c : Arp)
    → find addr (bucket_of host addr a) ≡ some e
    → e.static ≡ false
    → arp_insert host addr mac a ≡ some (0, b)
    → arp_update_mac host addr mac' true b ≡ some (0, c)
    → (arp_lookup_mac host addr c ≡ some (found mac', c))
      × (e.valid ≡ false → (d : Arp) × (arp_lookup_mac host addr b ≡ some (failed eagain, d)))
unfolding arp_lookup_mac arp_lookup given asked
arp_insert-not_static host addr mac mac' e a b c known dynamic inserted updated =
    let here = now_found host addr mac e a b known inserted in
    (
      arp_lookup_mac-arp_update_mac host addr mac' b c
          (λ e' p. sym (ap (λ x. x.static) (some_inj (sym here ∙ p))) ∙ dynamic) updated,
      λ unresolved. (
        asked host addr mac e a b known inserted,
        rw (arp_lookup_mac, arp_lookup, here, unresolved) refl,
      ),
    )
