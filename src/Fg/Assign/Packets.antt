-- ===== src/Fg/Assign/Packets.antt =====
-- dp/core/ethfg.c: which packets leave the queue of the core that gives a group away.
use ix.Base.{
  ℕ, ◌+◌, ◌≡◌, ◌++◌, refl, ap, false, List, [], ◌∷◌, arith, ◌==◌, if◌then◌else◌, length, Bool-cases,
  inl, inr, eq_of_==, sym, AllSome, AllSome-if, AllSome-bind,
}
use ix.EthQueue.{Mbuf, EthRxQueue}
use ix.Fg.Assign.{split_fg, take_from_queue}

-- the packets of one group, in their order
abbrev pub of_group : ℕ → List Mbuf → List Mbuf
of_group g [] = []
of_group g (pkt ∷ pkts) = if g == pkt.fg_id then pkt ∷ of_group g pkts else of_group g pkts

split-of_group : (g : ℕ) (pkts : List Mbuf) → (split_fg g pkts).1 ≡ of_group g pkts
unfolding split_fg
split-of_group g [] = refl
split-of_group g (pkt ∷ pkts) = elim (Bool-cases (g == pkt.fg_id)) [
  | inl e ↦ rw e (ap (λ l. pkt ∷ l) (split-of_group g pkts))
  | inr e ↦ rw e (split-of_group g pkts)
]

kept_none : (g : ℕ) (pkts : List Mbuf) → of_group g (split_fg g pkts).0 ≡ []
unfolding split_fg
kept_none g [] = refl
kept_none g (pkt ∷ pkts) = elim (Bool-cases (g == pkt.fg_id)) [
  | inl e ↦ rw e (kept_none g pkts)
  | inr e ↦ rw (e, e) (kept_none g pkts)
]

kept_others :
    (g h : ℕ) (pkts : List Mbuf)
    → (h == g) ≡ false
    → of_group h (split_fg g pkts).0 ≡ of_group h pkts
unfolding split_fg
kept_others g h [] other = refl
kept_others g h (pkt ∷ pkts) other = elim (Bool-cases (g == pkt.fg_id)) [
  | inl e ↦
      let skip : (h == pkt.fg_id) ≡ false = ground arith in
      rw (e, skip) (kept_others g h pkts other)
  | inr e ↦ elim (Bool-cases (h == pkt.fg_id)) [
    | inl e' ↦ rw (e, e') (ap (λ l. pkt ∷ l) (kept_others g h pkts other))
    | inr e' ↦ rw (e, e') (kept_others g h pkts other)
  ]
]

split_length :
    (g : ℕ) (pkts : List Mbuf)
    → length (split_fg g pkts).0 + length (split_fg g pkts).1 ≡ length pkts
unfolding split_fg
split_length g [] = refl
split_length g (pkt ∷ pkts) = ground (arith, split_length g pkts)

-- `migrate_pkts_to_remote` takes the packets of the group, all of them and in their order, and
-- leaves those of every other group, in their order. Together they are as many as there were.
pub split_fg_lem :
    (g h : ℕ) (pkts : List Mbuf)
    → ((split_fg g pkts).1 ≡ of_group g pkts)
      × (of_group h (split_fg g pkts).0 ≡ (if h == g then [] else of_group h pkts))
      × (length (split_fg g pkts).0 + length (split_fg g pkts).1 ≡ length pkts)
split_fg_lem g h pkts = elim (Bool-cases (h == g)) [
  | inr other ↦ (split-of_group g pkts, rw other (kept_others g h pkts other), split_length g pkts)
  | inl same ↦ (
    split-of_group g pkts,
    rw same (rw (eq_of_== h g same) (kept_none g pkts)),
    split_length g pkts,
  )
]

-- every packet is of the group
abbrev pub AllGroup : ℕ → List Mbuf → Type 0
AllGroup g [] = Unit
AllGroup g (pkt ∷ pkts) = (pkt.fg_id ≡ g) × AllGroup g pkts

pub AllGroup-append :
    (g : ℕ) (xs ys : List Mbuf) → AllGroup g xs → AllGroup g ys → AllGroup g (xs ++ ys)
AllGroup-append g [] ys p q = q
AllGroup-append g (x ∷ xs) ys p q = (p.0, AllGroup-append g xs ys p.1 q)

split-AllGroup : (g : ℕ) (pkts : List Mbuf) → AllGroup g (split_fg g pkts).1
unfolding split_fg
split-AllGroup g [] = tt
split-AllGroup g (pkt ∷ pkts) = elim (Bool-cases (g == pkt.fg_id)) [
  | inl e ↦ rw e (sym (eq_of_== g pkt.fg_id e), split-AllGroup g pkts)
  | inr e ↦ rw e (split-AllGroup g pkts)
]

pub take_from_queue-AllGroup :
    (g dev : ℕ) (rxqs : List EthRxQueue)
    → AllSome (λ r. AllGroup g r.1) (take_from_queue g dev rxqs)
unfolding take_from_queue
take_from_queue-AllGroup g dev [] = tt
take_from_queue-AllGroup g dev (rxq ∷ rxqs) =
    AllSome-if _ (dev == rxq.dev) _ _ (split-AllGroup g rxq.bufs) (
      AllSome-bind (λ r. AllGroup g r.1) (λ r. AllGroup g r.1) (take_from_queue g dev rxqs) _
        (take_from_queue-AllGroup g dev rxqs) (λ r h. h))
