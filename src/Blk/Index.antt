-- ===== src/Blk/Index.antt =====
-- dp/core/blk_index.c: the hash index from keys to extents of the device, with the free list that
-- it gives blocks back to. A chain of `next` links is a list; `none` is a fault, which ends the
-- program.
pub mod Chain
pub mod Delete
pub mod Keep
pub mod Own
mod Tests
pub mod Update
pub mod Refine
use ix.Base.{
  ℕ, ◌+◌, ◌%◌, ◌^◌, ◌≤◌, Bool, true, false, ◌&&◌, Option, none, some, List, [], ◌∷◌, ltb, ◌==◌,
  if◌then◌else◌, ◌>>=◌, length,
}
use ix.Blk.{max_key_len, max_entries, metamagic, calc_numblks}
use ix.Blk.Crc.{newer_crc}
use ix.Blk.FreeList.{Extent, free_blk}

-- The bytes of a string, without its terminator.
abbrev pub Key : Type 0
Key = List ℕ

-- `struct index_ent`, with the key as the string that its array holds
pub record IndexEnt : Type 0 where
  pub magic : ℕ
  pub key : Key
  pub lba : ℕ
  pub val_len : ℕ
  pub crc : ℕ
  pub version : ℕ

-- `indx` and `freelist`
pub record Store : Type 0 where
  pub indx : ℕ → List IndexEnt
  pub freelist : List Extent

abbrev pub set_chain : (ℕ → List IndexEnt) → ℕ → List IndexEnt → ℕ → List IndexEnt
set_chain t h c i = if i == h then c else t i

-- `strncmp(stored, key, strlen(key)) == 0`
pub strncmp_eq : Key → Key → Bool
strncmp_eq stored [] = true
strncmp_eq [] (b ∷ key) = false
strncmp_eq (a ∷ stored) (b ∷ key) = a == b && strncmp_eq stored key

-- the blocks of an entry, as an `lbasz_t`
abbrev pub num_blks : IndexEnt → ℕ
num_blks e = calc_numblks e.val_len % 2 ^ 32

-- the loop of `key_lookup` behind `ret`
pub walk : Key → IndexEnt → List IndexEnt → Option IndexEnt
walk key ret [] = if strncmp_eq ret.key key then some ret else none
walk key ret (e ∷ rest) =
    let later = walk key e rest in if strncmp_eq e.key key then some e else later

unfoldable pub chain_lookup : Key → List IndexEnt → Option IndexEnt
unfolding walk
chain_lookup key [] = none
chain_lookup key (ret ∷ rest) = if strncmp_eq ret.key key then some ret else walk key ret rest

-- What `update_index` does to a chain: the new chain, and the entry that it takes out.
pub replace : IndexEnt → List IndexEnt → List IndexEnt × Option IndexEnt
replace meta [] = (meta ∷ [], none)
replace meta (e ∷ rest) =
    let later = replace meta rest in
    if strncmp_eq e.key meta.key then (meta ∷ rest, some e) else (e ∷ later.0, later.1)

-- `CityHash64` is a copy of another project's code, and is a parameter.
module _ (city_hash64 : Key → ℕ) where
  -- `hashkey(key, strlen(key)) % MAX_ENTRIES`
  abbrev pub bucket : Key → ℕ
  bucket key = city_hash64 key % max_entries

  unfoldable pub key_lookup : Key → Store → Option IndexEnt
  key_lookup key s = chain_lookup key (s.indx (bucket key))

  -- `get_index_ent`
  abbrev pub get_index_ent : Key → Store → Option IndexEnt
  get_index_ent = key_lookup

  pub get_version : Key → Store → ℕ
  unfolding key_lookup
  get_version key s = elim (key_lookup key s) [ none ↦ 0 | some ent ↦ ent.version ]

  -- `new_index_ent`. The key is copied with no check of its length: one that is longer than the array
  -- writes over the fields behind it, and one of just that length leaves no room for the terminator,
  -- so that reading the key back runs on into those fields. Both are `none`. `lba` is not set
  -- there; it is set before its use.
  unfoldable pub new_index_ent : Key → List ℕ → ℕ → Store → Option IndexEnt
  unfolding get_version
  new_index_ent key val unset_lba s =
      if ltb (length key) max_key_len
      then some (record {
        magic = metamagic;
        key = key;
        lba = unset_lba;
        val_len = length val;
        crc = newer_crc val;
        version = (get_version key s + 1) % 2 ^ 16;
      })
      else none

  -- `update_index`
  unfoldable pub update_index : IndexEnt → Store → Option Store
  update_index meta s =
      let h = bucket meta.key in
      let (chain, oldent) = replace meta (s.indx h) in
      let linked : Store = record s { indx = set_chain s.indx h chain } in
      elim oldent [
        | none ↦ some linked
        | some old ↦ free_blk old.lba (num_blks old) s.freelist >>= λ l.
            some (record linked { freelist = l })
      ]

  -- `delete_key`: the first entry of the chain is read with no check, and the whole chain is
  -- dropped at the end.
  pub delete_key : Key → Store → Option Store
  delete_key key s =
      let h = bucket key in
      elim (s.indx h) [
        | [] ↦ none
        | ◌∷◌ first rest ↦ elim (chain_lookup key (first ∷ rest)) [
          | none ↦ some s
          | some old ↦ free_blk old.lba (num_blks old) s.freelist >>= λ l.
              some (record { indx = set_chain s.indx h []; freelist = l })
        ]
      ]
