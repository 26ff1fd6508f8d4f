-- ===== src/Blk/Io/Tests.antt =====
-- Writes and reads of keys: the theorems at small states.
use ix.Base.{ℕ, ◌≡◌, refl, true, none, some, List, [], ◌∷◌, arith, ◌>>=◌, replicate}
use ix.Blk.{calc_numblks}
use ix.Blk.FreeList.{Extent, get_blk}
use ix.Blk.Index.{Key, Store}
use ix.Blk.Index.Own.{IsStore}
use ix.Blk.Device.{Device, dummy_dev_writev, writev_from}
use ix.Blk.Io.{
  Write, Io, value, take_blks, sg_list, sg_of, meta_bytes, numzeros, assign, assign_rest,
  bsys_io_write, bsys_io_write_flush, io_write_cb, bsys_io_read,
}
use ix.Blk.Io.Read.{idle, bsys_io_read-write}

abbrev one_chain : Key → ℕ
one_chain key = 5

abbrev extent : ℕ → ℕ → Extent
extent start count = record { start_lba = start; lba_count = count }

abbrev empty_store : Store
empty_store = record { indx = λ h. []; freelist = extent 0 1953125 ∷ [] }

abbrev zeroed : Device
zeroed a = 0

abbrev key : Key
key = b'k' ∷ b'1' ∷ []

abbrev val : List ℕ
val = 7 ∷ 8 ∷ 9 ∷ []

empty_store-IsStore : IsStore empty_store
empty_store-IsStore = record {
  valid = omega arith;
  top = refl;
  placed = λ h. tt;
  once = λ h b. ground arith;
  apart = λ h h' b ne. omega arith;
}

bsys_io_read-write_example :
    (io : Io) × (((bsys_io_write one_chain key val (idle empty_store zeroed 0)
          >>= bsys_io_write_flush)
        >>= io_write_cb one_chain)
      ≡ some (io, key ∷ []))
    × IsStore io.store
    × (bsys_io_read one_chain true key io ≡ some (value val))
unfolding get_blk calc_numblks
bsys_io_read-write_example =
    bsys_io_read-write one_chain key val empty_store zeroed 0 empty_store-IsStore (omega arith)
      (omega arith, refl) 0 (extent 1 1953124 ∷ []) refl refl

abbrev write_of : ℕ → ℕ → Write
write_of lba len = record {
  ent = record { magic = 0xd006; key = key; lba = lba; val_len = len; crc = 0; version = 1 };
  usrkey = key;
  val = replicate len 7;
}

-- a value of 896 bytes ends with the second block
abbrev block_io : Io
block_io = record {
  store = empty_store;
  dev = zeroed;
  numblks = 2;
  batch = write_of 0 896 ∷ [];
  armed = 0;
}

-- two short values in one batch
abbrev two_io : Io
two_io = record {
  store = empty_store;
  dev = zeroed;
  numblks = 2;
  batch = write_of 0 3 ∷ write_of 0 4 ∷ [];
  armed = 0;
}

abbrev placed_two : List Write
placed_two = write_of 0 3 ∷ write_of 1 4 ∷ []

-- the device behind the flush: both entries from block 1 on
abbrev flushed_dev : Device
flushed_dev = elim (dummy_dev_writev (sg_list placed_two) 1 2 zeroed) [
  | none ↦ zeroed
  | some dev ↦ dev
]

abbrev two_flushed : Io
two_flushed = record {
  store = record empty_store { freelist = extent 2 1953123 ∷ [] };
  dev = flushed_dev;
  numblks = 2;
  batch = placed_two;
  armed = 1;
}

two_flushed-done : bsys_io_write_flush two_io ≡ some two_flushed
unfolding bsys_io_write_flush take_blks get_blk assign assign_rest sg_list sg_of meta_bytes numzeros
    dummy_dev_writev writev_from calc_numblks
two_flushed-done = refl
