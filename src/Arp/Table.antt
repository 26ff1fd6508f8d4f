-- ===== src/Arp/Table.antt =====
-- The buckets of the ARP table: what a search finds after a write.
use ix.Base.{
  ℕ, ◌≡◌, refl, Bool, true, false, Option, none, some, List, [], ◌∷◌, arith, ◌==◌, Bool-cases, inl,
  inr, Option-cases, AllSome, AllSome-if, ==-refl, eq_of_==, not_some, sym, ap, ◌∙◌,
}
use ix.Arp.{ArpEntry, Arp, Host, find, write}
use ix.Arp.Ops.{new_entry, arp_lookup, bucket_of, put, add_entry, arp_ip_to_idx}

-- What is found has the address.
pub find-addr :
    (addr : ℕ) (es : List ArpEntry) (e : ArpEntry) → find addr es ≡ some e → e.addr ≡ addr
unfolding find
find-addr addr [] e p = not_some p
find-addr addr (x ∷ es) e p = elim (Bool-cases (x.addr == addr)) [
  | inl hit ↦ ground (arith, eq_of_== x.addr addr hit)
  | inr miss ↦ find-addr addr es e (rw miss at p)
]

find-write_self :
    (new : ArpEntry) (es : List ArpEntry) (e : ArpEntry)
    → find new.addr es ≡ some e
    → find new.addr (write new es) ≡ some new
unfolding find write
find-write_self new [] e p = not_some p
find-write_self new (x ∷ es) e p = elim (Bool-cases (x.addr == new.addr)) [
  | inl hit ↦ rw (hit, ==-refl) refl
  | inr miss ↦ rw (miss, miss) (find-write_self new es e (rw miss at p))
]

find-write_ne :
    (new : ArpEntry) (addr : ℕ) (es : List ArpEntry)
    → (new.addr == addr) ≡ false
    → find addr (write new es) ≡ find addr es
unfolding find write
find-write_ne new addr [] ne = refl
find-write_ne new addr (x ∷ es) ne = elim (Bool-cases (x.addr == new.addr)) [
  | inl hit ↦ let other : (x.addr == addr) ≡ false = ground arith in rw (hit, ne, other) refl
  | inr miss ↦ rw (miss, find-write_ne new addr es ne) refl
]

module _ (host : Host) where
  -- After `put` of an entry that the table has, it is what a search for its address finds.
  pub find-put_self :
      (new : ArpEntry) (a : Arp) (e : ArpEntry)
      → find new.addr (bucket_of host new.addr a) ≡ some e
      → find new.addr (bucket_of host new.addr (put host new a)) ≡ some new
  find-put_self new a e p = rw ==-refl (find-write_self new (bucket_of host new.addr a) e p)

  pub find-put_ne :
      (new : ArpEntry) (addr : ℕ) (a : Arp)
      → (new.addr == addr) ≡ false
      → find addr (bucket_of host addr (put host new a)) ≡ find addr (bucket_of host addr a)
  find-put_ne new addr a ne =
      elim (Bool-cases (arp_ip_to_idx host addr == arp_ip_to_idx host new.addr)) [
        | inl same ↦
            let idx = eq_of_== (arp_ip_to_idx host addr) (arp_ip_to_idx host new.addr) same in
            rw same (
              find-write_ne new addr (bucket_of host new.addr a) ne
              ∙ ap (λ i. find addr (a.tbl i)) (sym idx))
        | inr apart ↦ rw apart refl
      ]

  pub find-add_self :
      (new : ArpEntry) (a : Arp)
      → find new.addr (bucket_of host new.addr (add_entry host new a)) ≡ some new
  unfolding find
  find-add_self new a = rw (==-refl, ==-refl) refl

  pub find-add_ne :
      (new : ArpEntry) (addr : ℕ) (a : Arp)
      → (new.addr == addr) ≡ false
      → find addr (bucket_of host addr (add_entry host new a)) ≡ find addr (bucket_of host addr a)
  unfolding find
  find-add_ne new addr a ne =
      elim (Bool-cases (arp_ip_to_idx host addr == arp_ip_to_idx host new.addr)) [
        | inl same ↦
            rw (same, ← eq_of_== (arp_ip_to_idx host addr) (arp_ip_to_idx host new.addr) same, ne)
              refl
        | inr apart ↦ rw apart refl
      ]

  -- what a search can end with
  pub arp_lookup-cases :
      (P : Option ArpEntry × Arp → Type 0) (addr : ℕ) (create_okay : Bool) (a : Arp)
      → ((e : ArpEntry) → find addr (bucket_of host addr a) ≡ some e → P (some e, a))
      → (find addr (bucket_of host addr a) ≡ none
          → P (some (new_entry host addr), add_entry host (new_entry host addr) a))
      → (find addr (bucket_of host addr a) ≡ none → P (none, a))
      → (find addr (bucket_of host addr a) ≡ none → P (none, record a { arp_lock = true }))
      → AllSome P (arp_lookup host addr create_okay a)
  unfolding arp_lookup
  arp_lookup-cases P addr create_okay a old new absent full =
      elim (Option-cases (find addr (bucket_of host addr a))) [
        | inr (e, p) ↦ rw (arp_lookup, p) (old e p)
        | inl p ↦
            rw (arp_lookup, p)
              (AllSome-if P create_okay _ (some (none, a))
                (AllSome-if P a.arp_lock none _ tt (
                  AllSome-if P (a.arp_left == 0) (some (none, record a { arp_lock = true }))
                    (some (some (new_entry host addr), add_entry host (new_entry host addr) a))
                    (full p) (new p)))
                (absent p))
      ]
