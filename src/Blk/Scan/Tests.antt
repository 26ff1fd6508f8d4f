-- ===== src/Blk/Scan/Tests.antt =====
-- The reconstruction of the index: the theorems at one entry.
use ix.Base.{ℕ, List, [], ◌∷◌}
use ix.Blk.Crc.{newer_crc}
use ix.Blk.Index.{Key, Store}
use ix.Blk.Io.{Write}

abbrev one_chain : Key → ℕ
one_chain key = 5

abbrev val : List ℕ
val = 7 ∷ 8 ∷ 9 ∷ []

abbrev written : Write
written = record {
  ent = record {
    magic = 0xd006;
    key = b'k' ∷ b'1' ∷ [];
    lba = 3;
    val_len = 3;
    crc = newer_crc val;
    version = 2;
  };
  usrkey = b'k' ∷ b'1' ∷ [];
  val = val;
}

abbrev empty_store : Store
empty_store = record {
  indx = λ h. [];
  freelist = record { start_lba = 0; lba_count = 1953125 } ∷ [];
}
