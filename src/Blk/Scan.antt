-- ===== src/Blk/Scan.antt =====
-- dp/core/blk_index.c: the reconstruction of the index from the device at the start, `init_cb` and
-- the loop of `index_init`.
pub mod Decode
mod Tests
use ix.Base.{
  ℕ, zero, suc, ◌+◌, ◌*◌, ◌%◌, ◌^◌, Bool, true, false, Option, none, some, List, [], ◌∷◌, ltb, ◌==◌,
  if◌then◌else◌, ◌>>=◌, take, drop,
}
use ix.Blk.{meta_sz, data_sz, max_key_len, max_lba_num, metamagic, calc_numblks}
use ix.Blk.Crc.{newer_crc}
use ix.Blk.FreeList.{alloc_block}
use ix.Blk.Index.{Key, IndexEnt, Store, get_index_ent, update_index}
use ix.Blk.Device.{Device, dummy_dev_read}

-- a word in memory, the lowest byte first
abbrev pub from_le : List ℕ → ℕ
from_le [] = 0
from_le (b ∷ bs) = b + 2 ^ 8 * from_le bs

-- the string in an array of characters
abbrev pub cstr : List ℕ → Key
cstr [] = []
cstr (b ∷ bs) = if b == 0 then [] else b ∷ cstr bs

-- the metadata of an entry as `memcpy` finds it. The key is what `strlen` and `strncmp` read of it: a
-- key with no terminator in its array runs on into the fields behind.
pub ent_of : List ℕ → IndexEnt
ent_of bytes =
    let behind_magic = drop 2 bytes in
    let behind_key = drop max_key_len behind_magic in
    let behind_lba = drop 4 behind_key in
    let behind_len = drop 8 behind_lba in
    let behind_crc = drop 4 behind_len in
    record {
      magic = from_le (take 2 bytes);
      key = cstr behind_magic;
      lba = from_le (take 4 behind_key);
      val_len = from_le (take 8 behind_lba);
      crc = from_le (take 4 behind_len);
      version = from_le (take 2 behind_crc);
    }

-- whether an entry is newer than the one that the index has
abbrev is_newer : Option IndexEnt → IndexEnt → Bool
is_newer none ent = true
is_newer (some old) ent = ltb old.version ent.version

module _ (city_hash64 : Key → ℕ) where
  -- the bytes that the checksum of `init_cb` is computed over
  abbrev checked_bytes : IndexEnt → List ℕ → ℕ → Device → Option (List ℕ)
  checked_bytes ent block blks_read dev =
      if ltb data_sz ent.val_len
      then dummy_dev_read blks_read (calc_numblks ent.val_len % 2 ^ 32) dev
      else some block

  -- an entry whose checksum is right goes into the index, and its blocks leave the free list
  unfoldable pub restore : IndexEnt → Store → Option Store
  restore ent s = update_index city_hash64 ent s >>= λ s'.
      alloc_block ent.lba (calc_numblks ent.val_len % 2 ^ 32) s'.freelist >>= λ l.
      some (record s' { freelist = l })

  -- `init_cb` behind the copy of the metadata
  pub init_ent : IndexEnt → List ℕ → Store → ℕ → Device → Option (Store × ℕ)
  init_ent ent block s blks_read dev =
      let blks = calc_numblks ent.val_len % 2 ^ 32 in
      if ent.magic == metamagic
      then if ent.val_len == 0
        then none
        else ((if is_newer (get_index_ent city_hash64 ent.key s) ent
              then (checked_bytes ent block blks_read dev >>= λ bytes.
                  if ent.crc == newer_crc (take ent.val_len (drop meta_sz bytes))
                  then restore ent s
                  else some s)
              else some s)
            >>= λ s'. some (s', blks_read + blks))
      else some (s, blks_read + 1)

  -- `init_cb` on one block, with `blks_read`
  pub init_cb : List ℕ → Store → ℕ → Device → Option (Store × ℕ)
  init_cb block = init_ent (ent_of block) block

  -- the loop of `index_init`, on fuel
  unfoldable scan : ℕ → Store → ℕ → Device → Option Store
  scan zero s blks_read dev = none
  scan (suc n) s blks_read dev =
      if ltb blks_read max_lba_num
      then (dummy_dev_read blks_read 1 dev >>= λ block.
          init_cb block s blks_read dev >>= λ r. scan n r.0 r.1 dev)
      else some s

  -- `index_init`, with the free list that `freelist_init` has set up
  unfoldable index_init : ℕ → Store → Device → Option Store
  index_init fuel s dev = scan fuel (record s { indx = λ h. [] }) 0 dev
