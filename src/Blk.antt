-- ===== src/Blk.antt =====
-- The block store: constants and size computations of inc/ix/blk.h and inc/ix/dummy_dev.h.
pub mod Crc
pub mod FreeList
pub mod Device
pub mod Index
pub mod Io
pub mod Scan
use ix.Base.{ℕ, ◌+◌, ◌-◌, ◌*◌, ◌/◌, ltb, add64, if◌then◌else◌}

abbrev pub lba_size : ℕ
lba_size = 512

-- `STORAGE_SIZE`, written `1*1000*MB` there
abbrev pub storage_size : ℕ
storage_size = 1 * 1000 * 1000000

-- `MAX_LBA_NUM`
abbrev pub max_lba_num : ℕ
max_lba_num = storage_size / lba_size

abbrev pub max_key_len : ℕ
max_key_len = 108

-- `META_SZ`
abbrev pub meta_sz : ℕ
meta_sz = 160 / 8 + max_key_len

-- `DATA_SZ`
abbrev pub data_sz : ℕ
data_sz = lba_size - meta_sz

-- `MAX_ENTRIES`, the number of hash chains
abbrev pub max_entries : ℕ
max_entries = 4096

abbrev pub metamagic : ℕ
metamagic = 0xd006

-- `CALC_NUMBLKS`, computed in `uint64_t`
pub calc_numblks : ℕ → ℕ
calc_numblks b = if ltb data_sz b then 1 + add64 (b - data_sz) (lba_size - 1) / lba_size else 1
