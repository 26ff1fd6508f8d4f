-- ===== src/Arp/Tests.antt =====
-- The ARP table: tests, and its theorems at small tables.
use ix.Base.{◌⊎◌, ℕ, ◌≡◌, refl, true, false, Option, none, some, [], ◌∷◌, arith}
use ix.Arp.{
  Mac, ArpPacket, Arp, Host, found, failed, enoent, find, write, arp_op_request, arp_htype_ether,
  ethtype_ip,
}
use ix.Arp.Ops.{
  add_entry, new_entry, arp_lookup, update_found, arp_update_mac, arp_input, arp_lookup_mac,
  arp_insert, arp_send_response_reuse, free_mbuf,
}
use ix.Arp.Learn.{arp_lookup_mac-arp_update_mac}
use ix.Arp.Static.{inputs, arp_lookup_mac-inputs}
use ix.Arp.Input.{Consumed, IsAccepted, arp_input-Consumed}
use ix.Arp.Faults.{arp_lookup_mac-locked}

abbrev own_mac : Mac
own_mac = 2 ∷ 0 ∷ 0 ∷ 0 ∷ 0 ∷ 1 ∷ []

abbrev peer_mac : Mac
peer_mac = 2 ∷ 0 ∷ 0 ∷ 0 ∷ 0 ∷ 9 ∷ []

abbrev other_mac : Mac
other_mac = 2 ∷ 0 ∷ 0 ∷ 0 ∷ 0 ∷ 8 ∷ []

abbrev host : Host
host = record {
  host_addr = 100;
  host_mac = own_mac;
  hash_crc32c_one = λ addr. addr;
  mbuf_left = true;
  queue_left = true;
  stale_mac = [];
  stale_pkts = [];
}

abbrev empty : Arp
empty = record {
  tbl = λ idx. [];
  arp_left = 10;
  pending_left = 10;
  arp_lock = false;
  sent = [];
  to_cpus = [];
  mbufs_freed = 0;
}

-- a request of the peer at 7 for the own address
abbrev request : ArpPacket
request = record {
  mbuf_len = 60;
  dhost = own_mac;
  shost = other_mac;
  htype = arp_htype_ether;
  ptype = ethtype_ip;
  hlen = 6;
  plen = 4;
  op = arp_op_request;
  sender_mac = other_mac;
  sender_ip = 7;
  target_mac = own_mac;
  target_ip = 100;
}

-- the state of a result
abbrev state_of : Option (ℕ × Arp) → Arp
state_of none = empty
state_of (some (n, a)) = a

abbrev learned : Arp
learned = state_of (arp_update_mac host 7 peer_mac true empty)

learned-done : arp_update_mac host 7 peer_mac true empty ≡ some (0, learned)
unfolding arp_update_mac update_found arp_lookup find
learned-done = refl

arp_lookup_mac-arp_update_mac_example :
    arp_lookup_mac host 7 learned ≡ some (found peer_mac, learned)
unfolding find
arp_lookup_mac-arp_update_mac_example =
    arp_lookup_mac-arp_update_mac host 7 peer_mac empty learned (λ e p. ground arith) learned-done

abbrev inserted : Arp
inserted = state_of (arp_insert host 7 peer_mac empty)

inserted-done : arp_insert host 7 peer_mac empty ≡ some (0, inserted)
unfolding arp_insert arp_lookup find
inserted-done = refl

abbrev answered : Arp
answered = elim (inputs host (request ∷ request ∷ []) inserted) [ none ↦ empty | some a ↦ a ]

answered-done : inputs host (request ∷ request ∷ []) inserted ≡ some answered
unfolding inputs arp_insert arp_input arp_update_mac update_found arp_lookup find
    arp_send_response_reuse
answered-done = refl

arp_lookup_mac-inputs_example : arp_lookup_mac host 7 answered ≡ some (found peer_mac, answered)
unfolding find
arp_lookup_mac-inputs_example =
    arp_lookup_mac-inputs host 7 peer_mac (request ∷ request ∷ []) empty inserted answered refl
      inserted-done answered-done

abbrev after_request : Arp
after_request = elim (arp_input host request empty) [ none ↦ empty | some a ↦ a ]

after_request-done : arp_input host request empty ≡ some after_request
unfolding arp_input arp_update_mac update_found arp_lookup find arp_send_response_reuse
after_request-done = refl

arp_input-Consumed_example :
    Consumed host request empty after_request
    × (IsAccepted host request ⊎ (after_request ≡ free_mbuf host empty))
arp_input-Consumed_example = arp_input-Consumed host request empty after_request after_request-done

abbrev exhausted : Arp
exhausted = record empty { arp_left = 0 }

arp_lookup_mac-locked_example :
    (b : Arp) × (arp_lookup_mac host 7 exhausted ≡ some (failed enoent, b))
    × (arp_lookup_mac host 8 b ≡ none)
unfolding find
arp_lookup_mac-locked_example = arp_lookup_mac-locked host 7 8 exhausted refl refl refl refl

-- an address that is being resolved
abbrev asking : Arp
asking = add_entry host (new_entry host 7) empty

abbrev given : Arp
given = state_of (arp_insert host 7 peer_mac asking)

given-done : arp_insert host 7 peer_mac asking ≡ some (0, given)
unfolding arp_insert arp_lookup find write
given-done = refl

abbrev replaced : Arp
replaced = state_of (arp_update_mac host 7 other_mac true given)

replaced-done : arp_update_mac host 7 other_mac true given ≡ some (0, replaced)
unfolding arp_update_mac update_found arp_insert arp_lookup find write
replaced-done = refl
