-- ===== src/Blk/Io.antt =====
-- dp/core/io.c: batched writes and reads of keys, over the index, the free list and the device.
-- `none` is a fault, which ends the program. A user's value is captured when its write is batched;
-- the program promises the user to be done with it only when it reports the write.
pub mod Batch
pub mod Read
pub mod Space
mod Tests
pub mod Sizes
use ix.Base.{
  ℕ, zero, suc, ◌+◌, ◌-◌, ◌*◌, ◌/◌, ◌%◌, ◌^◌, ◌++◌, Bool, Option, none, some, List, [], ◌∷◌, ltb,
  leb, ◌==◌, if◌then◌else◌, ◌>>=◌, length, replicate, add32, take, drop, concat,
}
use ix.Blk.{lba_size, meta_sz, data_sz, max_key_len, calc_numblks}
use ix.Blk.FreeList.{Extent, get_blk}
use ix.Blk.Index.{Key, IndexEnt, Store, get_index_ent, new_index_ent, update_index}
use ix.Blk.Device.{Device, dummy_dev_read, dummy_dev_writev}

abbrev max_batch : ℕ
max_batch = 100000

-- One batched write: `currbatch[i]`, `usrkeys[i]` and the value that `buf[3 * i + 1]` points at.
pub record Write : Type 0 where
  pub ent : IndexEnt
  pub usrkey : Key
  pub val : List ℕ

-- `struct ibuf`, with `currind` the length of `batch`; the index, the free list and the device;
-- and the number of armed write timers.
pub record Io : Type 0 where
  pub store : Store
  pub dev : Device
  pub numblks : ℕ
  pub batch : List Write
  pub armed : ℕ

-- The `n` bytes of a word in memory, the lowest first.
abbrev pub le_bytes : ℕ → ℕ → List ℕ
le_bytes zero x = []
le_bytes (suc n) x = (x % 2 ^ 8) ∷ le_bytes n (x / 2 ^ 8)

-- `META_SZ` bytes of a packed `struct index_ent`
unfoldable pub meta_bytes : IndexEnt → List ℕ
meta_bytes e = concat (
    le_bytes 2 e.magic
    ∷ e.key
    ∷ replicate (max_key_len - length e.key) 0
    ∷ le_bytes 4 e.lba
    ∷ le_bytes 8 e.val_len
    ∷ le_bytes 4 e.crc
    ∷ le_bytes 2 e.version
    ∷ [])

-- `numzeros` in `bsys_io_write`
pub numzeros : ℕ → ℕ
numzeros len = if leb len data_sz then data_sz - len else lba_size - (len - data_sz) % lba_size

-- the three scatter-gather entries of a batched write
unfoldable pub sg_of : Write → List (List ℕ)
sg_of w = meta_bytes w.ent ∷ w.val ∷ replicate (numzeros (length w.val)) 0 ∷ []

pub sg_list : List Write → List (List ℕ)
sg_list [] = []
sg_list (w ∷ ws) = sg_of w ++ sg_list ws

abbrev pub write_blks : Write → ℕ
write_blks w = calc_numblks w.ent.val_len % 2 ^ 32

abbrev pub at_lba : Write → ℕ → Write
at_lba w lba = record w { ent = record (w.ent) { lba = lba } }

-- The loop of `bsys_io_write_flush` behind its first round, with the entry before. It returns the
-- entries with their blocks, and the value that `startlba` has at its end.
pub assign_rest : ℕ → Write → List Write → List Write × ℕ
assign_rest startlba prev [] = ([], startlba)
assign_rest startlba prev (w ∷ ws) =
    let next = add32 startlba (write_blks prev) in
    let rest = assign_rest next w ws in (at_lba w next ∷ rest.0, rest.1)

pub assign : ℕ → List Write → List Write × ℕ
assign startlba [] = ([], startlba)
assign startlba (w ∷ ws) =
    let rest = assign_rest startlba w ws in (at_lba w startlba ∷ rest.0, rest.1)

-- `get_blk` as the flush uses it: -1 as a 32-bit pattern where no space is found
pub take_blks : ℕ → List Extent → ℕ × List Extent
take_blks n l = elim (get_blk n l) [ none ↦ (2 ^ 32 - 1, l) | some (lba, l') ↦ (lba, l') ]

-- `bsys_io_write_flush`. `startlba` is an `int`; a negative one, extended to 64 bits, lies outside
-- of the device, and so does its 32-bit pattern.
pub bsys_io_write_flush : Io → Option Io
bsys_io_write_flush io =
    if io.numblks == 0
    then some io
    else (let (lba, l) = take_blks io.numblks io.store.freelist in
        let (batch, startlba) = assign lba io.batch in
        dummy_dev_writev (sg_list batch) startlba io.numblks io.dev >>= λ dev. some (record io {
          store = record (io.store) { freelist = l };
          dev = dev;
          batch = batch;
          armed = io.armed + 1;
        }))

abbrev usrkeys : List Write → List Key
usrkeys [] = []
usrkeys (w ∷ ws) = w.usrkey ∷ usrkeys ws

-- What `bsys_io_read` comes to: -1, or the value that `io_read_cb` hands to the user.
pub data ReadResult : Type 0 where
  missing : ReadResult
  value : List ℕ → ReadResult

-- `MBUF_DATA_LEN`
abbrev pub mbuf_data_len : ℕ
mbuf_data_len = 2048

module _ (city_hash64 : Key → ℕ) where
  -- `bsys_io_write`. The arrays have `MAX_BATCH` places, and the index into them is not checked.
  pub bsys_io_write : Key → List ℕ → Io → Option Io
  unfolding new_index_ent
  bsys_io_write key val io =
      if ltb (length io.batch) max_batch
      then (new_index_ent city_hash64 key val 0 io.store >>= λ ent. some (record io {
        numblks = add32 io.numblks (calc_numblks (length val) % 2 ^ 32);
        batch = io.batch ++ (record { ent = ent; usrkey = key; val = val } ∷ []);
      }))
      else none

  -- the loop of `io_write_cb`
  pub update_all : List Write → Store → Option Store
  unfolding update_index
  update_all [] s = some s
  update_all (w ∷ ws) s = update_index city_hash64 w.ent s >>= update_all ws

  -- `io_write_cb`, run by an armed timer; it reports the keys that were written.
  pub io_write_cb : Io → Option (Io × List Key)
  unfolding update_all
  io_write_cb io = update_all io.batch io.store >>= λ s.
      some
        (record io { store = s; numblks = 0; batch = []; armed = io.armed - 1 }, usrkeys io.batch)

  -- `bsys_io_read` and the callback `io_read_cb` that it runs at once. `memory` says whether the
  -- two allocations succeed, which is not checked; the assertion is that the value fits an mbuf.
  pub bsys_io_read : Bool → Key → Io → Option ReadResult
  bsys_io_read memory key io = elim (get_index_ent city_hash64 key io.store) [
    | none ↦ some missing
    | some ent ↦
        let numblks = calc_numblks ent.val_len in
        if leb numblks (mbuf_data_len / lba_size)
        then if memory
          then (dummy_dev_read ent.lba numblks io.dev >>= λ bytes.
              some (value (take ent.val_len (drop meta_sz bytes))))
          else none
        else none
  ]
