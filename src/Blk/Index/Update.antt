-- ===== src/Blk/Index/Update.antt =====
-- `update_index`, `new_index_ent` and `get_version` as operations on a map.
use ix.Base.{
  ℕ, ◌+◌, ◌%◌, ◌^◌, ◌≡◌, refl, true, false, none, some, List, [], ◌∷◌, arith, Bool-cases, inl, inr,
  ◌==◌, ==-refl, eq_of_==,
}
use ix.Blk.Index.{
  Key, IndexEnt, Store, strncmp_eq, replace, bucket, key_lookup, get_version, new_index_ent,
  update_index, set_chain,
}
use ix.Blk.Index.Chain.{
  chain_lookup-first_match, first_match-replace_self, first_match-replace_ne, Spared,
  strncmp_eq_self,
}

module _ (city_hash64 : Key → ℕ) (meta : IndexEnt) (s s' : Store)
    (done : update_index city_hash64 meta s ≡ some s') where
  -- whatever is freed, the chains become these
  pub indx-update_index :
      s'.indx
      ≡ set_chain s.indx
          (bucket city_hash64 meta.key)
          (replace meta (s.indx (bucket city_hash64 meta.key))).0
  unfolding update_index
  indx-update_index = ground arith

  -- After `update_index`, the new entry is found under its key.
  pub key_lookup-update_index_self : key_lookup city_hash64 meta.key s' ≡ some meta
  unfolding key_lookup
  key_lookup-update_index_self =
      rw (indx-update_index, ==-refl, chain_lookup-first_match)
        (first_match-replace_self meta (s.indx (bucket city_hash64 meta.key)))

  -- After `update_index`, a search for a key that the new key does not begin with finds what it
  -- found before, unless that was the entry that the new one replaces.
  pub key_lookup-update_index_ne :
      (key : Key)
      → strncmp_eq meta.key key ≡ false
      → Spared meta (key_lookup city_hash64 key s)
      → key_lookup city_hash64 key s' ≡ key_lookup city_hash64 key s
  unfolding key_lookup
  key_lookup-update_index_ne key other spared =
      let h = bucket city_hash64 key in
      elim (Bool-cases (h == bucket city_hash64 meta.key)) [
        | inl same ↦
            let here = rw chain_lookup-first_match at spared in
            rw
              (
                indx-update_index,
                same,
                chain_lookup-first_match,
                chain_lookup-first_match,
                ← eq_of_== h (bucket city_hash64 meta.key) same,
              )
              (first_match-replace_ne meta key (s.indx h) other here)
        | inr apart ↦ rw (indx-update_index, apart) refl
      ]

-- The version of a key counts its updates modulo 2 ^ 16: a new entry for the key, once it is in
-- the index, has a version one above the one before, where a key that is not there has version 0.
pub get_version-update_index :
    (city_hash64 : Key → ℕ) (key : Key) (val : List ℕ) (unset lba : ℕ) (ent : IndexEnt)
    (s s' : Store)
    → new_index_ent city_hash64 key val unset s ≡ some ent
    → update_index city_hash64 (record ent { lba = lba }) s ≡ some s'
    → get_version city_hash64 key s' ≡ (get_version city_hash64 key s + 1) % 2 ^ 16
unfolding get_version new_index_ent
get_version-update_index city_hash64 key val unset lba ent s s' new done =
    ground (arith, key_lookup-update_index_self city_hash64 (record ent { lba = lba }) s s' done)

-- A key that the new key is a proper beginning of is lost: where the chain holds only that key,
-- the search for it finds nothing after `update_index` of the shorter key in the same chain.
pub key_lookup-update_index_prefix :
    (city_hash64 : Key → ℕ) (meta e : IndexEnt) (s s' : Store)
    → s.indx (bucket city_hash64 e.key) ≡ e ∷ []
    → bucket city_hash64 meta.key ≡ bucket city_hash64 e.key
    → strncmp_eq e.key meta.key ≡ true
    → strncmp_eq meta.key e.key ≡ false
    → update_index city_hash64 meta s ≡ some s'
    → (key_lookup city_hash64 e.key s ≡ some e) × (key_lookup city_hash64 e.key s' ≡ none)
unfolding key_lookup replace
key_lookup-update_index_prefix city_hash64 meta e s s' only same longer proper done = (
  rw (only, chain_lookup-first_match, strncmp_eq_self),
  rw (
    indx-update_index city_hash64 meta s s' done,
    same,
    ==-refl,
    chain_lookup-first_match,
    only,
    longer,
    proper,
  ),
)
