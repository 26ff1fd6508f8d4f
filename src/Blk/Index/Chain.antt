-- ===== src/Blk/Index/Chain.antt =====
-- One hash chain: the search of `key_lookup` finds the first entry whose key begins with the given
-- one, and what `update_index` does to such searches.
use ix.Base.{
  ◌≡◌, refl, true, false, Option, none, some, List, [], ◌∷◌, arith, if◌then◌else◌, Bool-cases, inl,
  inr,
}
use ix.Blk.Index.{Key, IndexEnt, strncmp_eq, walk, chain_lookup, replace}

-- the first entry whose key begins with `key`
abbrev pub first_match : Key → List IndexEnt → Option IndexEnt
first_match key [] = none
first_match key (e ∷ rest) =
    let later = first_match key rest in if strncmp_eq e.key key then some e else later

walk-first_match :
    (key : Key) (ret : IndexEnt) (rest : List IndexEnt)
    → strncmp_eq ret.key key ≡ false
    → walk key ret rest ≡ first_match key rest
unfolding walk
walk-first_match key ret [] miss = rw miss
walk-first_match key ret (e ∷ rest) miss = elim (Bool-cases (strncmp_eq e.key key)) [
  | inl hit ↦ rw hit
  | inr miss' ↦ rw miss' (walk-first_match key e rest miss')
]

pub chain_lookup-first_match :
    (key : Key) (chain : List IndexEnt) → chain_lookup key chain ≡ first_match key chain
unfolding chain_lookup
chain_lookup-first_match key [] = refl
chain_lookup-first_match key (ret ∷ rest) = elim (Bool-cases (strncmp_eq ret.key key)) [
  | inl hit ↦ rw hit
  | inr miss ↦ rw miss (walk-first_match key ret rest miss)
]

pub strncmp_eq_self : (key : Key) → strncmp_eq key key ≡ true
unfolding strncmp_eq
strncmp_eq_self [] = refl
strncmp_eq_self (a ∷ key) = ground (arith, strncmp_eq_self key)

-- The new entry is found under its own key.
pub first_match-replace_self :
    (meta : IndexEnt) (chain : List IndexEnt)
    → first_match meta.key (replace meta chain).0 ≡ some meta
unfolding replace
first_match-replace_self meta [] = rw (strncmp_eq_self meta.key)
first_match-replace_self meta (e ∷ rest) = elim (Bool-cases (strncmp_eq e.key meta.key)) [
  | inl hit ↦ rw (hit, strncmp_eq_self meta.key)
  | inr miss ↦ rw (miss, miss) (first_match-replace_self meta rest)
]

-- Storing `meta` does not take out the entry that a search for another key finds.
abbrev pub Spared : IndexEnt → Option IndexEnt → Type 0
Spared meta none = Unit
Spared meta (some e) = strncmp_eq e.key meta.key ≡ false

-- What a search for another key finds stays the same, unless it is the entry that is replaced.
pub first_match-replace_ne :
    (meta : IndexEnt) (key : Key) (chain : List IndexEnt)
    → strncmp_eq meta.key key ≡ false
    → Spared meta (first_match key chain)
    → first_match key (replace meta chain).0 ≡ first_match key chain
unfolding replace
first_match-replace_ne meta key [] other spared = rw other
first_match-replace_ne meta key (e ∷ rest) other spared =
    ground (arith, first_match-replace_ne meta key rest other)

-- The entry taken out is the one that a search for the new key would have found.
replace-first_match :
    (meta : IndexEnt) (chain : List IndexEnt) → (replace meta chain).1 ≡ first_match meta.key chain
unfolding replace
replace-first_match meta [] = refl
replace-first_match meta (e ∷ rest) = ground (arith, replace-first_match meta rest)
