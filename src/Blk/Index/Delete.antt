-- ===== src/Blk/Index/Delete.antt =====
-- `delete_key`, on each of its paths.
use ix.Base.{ℕ, ◌≡◌, ◌≢◌, refl, none, some, [], arith, if◌then◌else◌, Bool-cases, inl, inr, ◌==◌}
use ix.Blk.Index.{Key, IndexEnt, Store, chain_lookup, bucket, key_lookup, delete_key, set_chain}

module _ (city_hash64 : Key → ℕ) (key : Key) (s : Store) where
  -- `delete_key` of a key whose chain is empty reads through a null pointer.
  pub delete_key-empty : s.indx (bucket city_hash64 key) ≡ [] → delete_key city_hash64 key s ≡ none
  unfolding delete_key
  delete_key-empty e = rw (e, delete_key)

  indx-delete_key :
      (e : IndexEnt) (s' : Store)
      → key_lookup city_hash64 key s ≡ some e
      → delete_key city_hash64 key s ≡ some s'
      → s'.indx ≡ set_chain s.indx (bucket city_hash64 key) []
  unfolding delete_key key_lookup
  indx-delete_key e s' found done = ground arith

  -- When `delete_key` has deleted a key that was found, no search finds any key of that chain any
  -- more, and searches in the other chains find what they found before.
  pub delete_key-drops_chain :
      (e : IndexEnt) (s' : Store)
      → key_lookup city_hash64 key s ≡ some e
      → delete_key city_hash64 key s ≡ some s'
      → (other : Key)
      → key_lookup city_hash64 other s' ≡ (
          if bucket city_hash64 other == bucket city_hash64 key
          then none
          else key_lookup city_hash64 other s)
  unfolding key_lookup chain_lookup
  delete_key-drops_chain e s' found done other =
      elim (Bool-cases (bucket city_hash64 other == bucket city_hash64 key)) [
        | inl same ↦ rw (indx-delete_key e s' found done, same) refl
        | inr apart ↦ rw (indx-delete_key e s' found done, apart) refl
      ]

  -- `delete_key` of a key that is not found, in a chain that is not empty, changes nothing.
  pub delete_key-missing :
      s.indx (bucket city_hash64 key) ≢ []
      → key_lookup city_hash64 key s ≡ none
      → delete_key city_hash64 key s ≡ some s
  unfolding delete_key key_lookup
  delete_key-missing full missing = ground arith
