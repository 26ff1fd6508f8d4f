-- ===== src/Blk/Io/Read.antt =====
-- A read after a write: one value written in a flush of its own is what a read returns.
use mathlib.Core.Path.{subst}
use ix.Base.{
  ℕ, ◌+◌, ◌-◌, ◌*◌, ◌/◌, ◌%◌, ◌^◌, ◌≤◌, ◌<◌, ◌≡◌, refl, true, false, some, List, [], ◌∷◌, arith,
  leb, ltb, ◌==◌, length, concat, ◌>>=◌, add32, take, drop, drop-append, take-append, ap, ◌∙◌, sym,
}
use mathlib.Core.List.{append-nil}
use ix.Blk.{lba_size, max_lba_num, storage_size, max_key_len, meta_sz, calc_numblks}
use ix.Blk.FreeList.{Extent, get_blk}
use ix.Blk.FreeList.Inv.{is_free}
use ix.Blk.Index.{Key, IndexEnt, Store, num_blks, new_index_ent, update_index, key_lookup}
use ix.Blk.Index.Own.{IsStore, IsFresh}
use ix.Blk.Index.Keep.{update_index-IsStore}
use ix.Blk.Index.Update.{key_lookup-update_index_self}
use ix.Blk.Device.{Device, poke, peek, dummy_dev_read, dummy_dev_writev}
use ix.Blk.Device.Copy.{dummy_dev_writev-poke, peek-poke}
use ix.Blk.Io.Space.{get_blk-IsStore, get_blk-IsFresh, after}
use ix.Blk.Io.{
  take_blks, assign, assign_rest, update_all, Write, Io, value, sg_of, sg_list, meta_bytes, at_lba,
  mbuf_data_len, bsys_io_write, bsys_io_write_flush, io_write_cb, bsys_io_read,
}
use ix.Blk.Io.Sizes.{ends_with_block, extra_block, length-sg_of, length-meta_bytes}

-- The bytes of one write are the metadata, the value and the padding.
sg_bytes : Write → List ℕ
sg_bytes w = concat (sg_of w)

value_of-sg_of :
    (w : Write)
    → length w.ent.key ≤ max_key_len
    → take (length w.val) (drop meta_sz (concat (sg_of w))) ≡ w.val
unfolding sg_of
value_of-sg_of w fits =
    let head = length-meta_bytes w.ent fits in
    ap (λ k. take (length w.val) (drop k (concat (sg_of w)))) (sym head)
    ∙ ap (take (length w.val)) (drop-append (meta_bytes w.ent) _)
    ∙ take-append w.val _

-- between flushes: nothing is batched
abbrev pub idle : Store → Device → ℕ → Io
idle s dev armed = record { store = s; dev = dev; numblks = 0; batch = []; armed = armed }

abbrev FitsMbuf : List ℕ → Type 0
FitsMbuf val = (length val ≤ mbuf_data_len - meta_sz) × (ends_with_block (length val) ≡ false)

calc_numblks-fits :
    (n : ℕ)
    → n ≤ mbuf_data_len - meta_sz
    → (0 < calc_numblks n) × (calc_numblks n ≤ mbuf_data_len / lba_size)
unfolding calc_numblks
calc_numblks-fits n small = ground arith

module _ (city_hash64 : Key → ℕ) (key : Key) (val : List ℕ) (s : Store) (dev : Device) (armed : ℕ)
    (i : IsStore s) (short : length key < max_key_len) (good : FitsMbuf val) where
  blks : ℕ
  blks = calc_numblks (length val)

  -- the entry that `new_index_ent` makes
  made :
      (ent : IndexEnt) × (new_index_ent city_hash64 key val 0 s ≡ some ent)
      × (ent.key ≡ key)
      × (ent.val_len ≡ length val)
  unfolding new_index_ent
  made =
      let test : ltb (length key) max_key_len ≡ true = ground arith in rw test (_, refl, refl, refl)

  batched : Write
  batched = record { ent = made.0; usrkey = key; val = val }

  written :
      bsys_io_write city_hash64 key val (idle s dev armed)
      ≡ some (record { store = s; dev = dev; numblks = blks; batch = batched ∷ []; armed = armed })
  unfolding bsys_io_write batched blks
  written =
      let size = calc_numblks-fits (length val) good.0 in
      let count : add32 0 (calc_numblks (length val) % 2 ^ 32) ≡ calc_numblks (length val) =
        omega arith in
      rw (made.1, count) refl

  module _ (lba : ℕ) (l : List Extent) (got : get_blk blks s.freelist ≡ some (lba, l))
      (top : is_free l (max_lba_num - 1) ≡ true) where
    placed : Write
    placed = at_lba batched lba

    size : num_blks placed.ent ≡ blks
    unfolding placed batched blks
    size = omega (arith, ap calc_numblks made.3, calc_numblks-fits (length val) good.0)

    some_blks : 0 < blks
    unfolding blks
    some_blks = (calc_numblks-fits (length val) good.0).0

    fresh : IsFresh placed.ent (after s blks lba l i some_blks got top)
    unfolding placed
    fresh = get_blk-IsFresh s blks lba l i some_blks got top placed.ent refl size

    on_device : lba + blks < max_lba_num
    unfolding placed
    on_device = omega (arith, fresh.placed, size)

    key_fits : length placed.ent.key ≤ max_key_len
    unfolding placed batched
    key_fits = omega (arith, ap length made.2)

    whole : length (sg_bytes placed) ≡ blks * lba_size
    unfolding sg_bytes placed batched
    whole =
        let bytes = length-sg_of placed key_fits made.3 (omega arith) in
        let none_extra : extra_block (length val) ≡ 0 = rw good.1 refl in ground (arith, size)

    dev' : Device
    dev' = poke dev (lba * lba_size) (sg_bytes placed)

    taken : take_blks blks s.freelist ≡ (lba, l)
    unfolding take_blks
    taken = rw (got, take_blks)

    wrote : dummy_dev_writev (sg_list (placed ∷ [])) lba blks dev ≡ some dev'
    unfolding sg_list dev' sg_bytes
    wrote =
        let sg = sg_list (placed ∷ []) in
        let same : concat sg ≡ concat (sg_of placed) = ap concat (append-nil (sg_of placed)) in
        dummy_dev_writev-poke lba blks sg dev (omega (arith, ap length same, whole, on_device))
          (omega (arith, ap length same, whole))
        ∙ ap (λ bytes. some (poke dev (lba * lba_size) bytes)) same

    flushed :
        bsys_io_write_flush
          (record { store = s; dev = dev; numblks = blks; batch = batched ∷ []; armed = armed })
        ≡ some (record {
          store = record s { freelist = l };
          dev = dev';
          numblks = blks;
          batch = placed ∷ [];
          armed = armed + 1;
        })
    unfolding bsys_io_write_flush assign assign_rest placed
    flushed =
        let busy : (blks == 0) ≡ false = ground (arith, some_blks) in rw (busy, taken, wrote) refl

    -- the store after the callback
    stored :
        (s' : Store) × (update_index city_hash64 placed.ent (record s { freelist = l }) ≡ some s')
        × IsStore s'
    stored =
        let (s', done, i', _) =
          update_index-IsStore city_hash64 placed.ent _
            (get_blk-IsStore s blks lba l i some_blks got top) fresh in
        (s', done, i')

    found : key_lookup city_hash64 key stored.0 ≡ some placed.ent
    unfolding placed batched
    found =
        subst (λ k. key_lookup city_hash64 k stored.0 ≡ some placed.ent) made.2
          (key_lookup-update_index_self city_hash64 placed.ent (record s { freelist = l }) stored.0
            stored.1)

    device_read : dummy_dev_read lba blks dev' ≡ some (sg_bytes placed)
    unfolding dummy_dev_read dev'
    device_read =
        let inside : leb (lba * lba_size + blks * lba_size) storage_size ≡ true =
          ground (arith, on_device) in
        rw inside (
          ap some (
            ap (λ at. peek (poke dev (lba * lba_size) (sg_bytes placed)) at (blks * lba_size))
              (omega arith)
            ∙ peek-poke dev (lba * lba_size) 0 (blks * lba_size) (sg_bytes placed)
                (omega (arith, whole))))

    blks_same : calc_numblks placed.ent.val_len ≡ blks
    unfolding placed batched blks
    blks_same = ap calc_numblks made.3

    blks_small : blks ≤ mbuf_data_len / lba_size
    unfolding blks
    blks_small = (calc_numblks-fits (length val) good.0).1

    at_lba_read : dummy_dev_read placed.ent.lba blks dev' ≡ some (sg_bytes placed)
    unfolding placed
    at_lba_read = device_read

    value_same : take placed.ent.val_len (drop meta_sz (sg_bytes placed)) ≡ val
    unfolding placed batched sg_bytes
    value_same =
        ap (λ n. take n (drop meta_sz (sg_bytes placed))) made.3 ∙ value_of-sg_of placed key_fits

    after_cb : Io
    after_cb = record {
      store = stored.0;
      dev = dev';
      numblks = 0;
      batch = [];
      armed = armed + 1 - 1;
    }

    read_back : bsys_io_read city_hash64 true key after_cb ≡ some (value val)
    unfolding bsys_io_read after_cb
    read_back =
        let ent = placed.ent in
        let same : calc_numblks ent.val_len ≡ blks = blks_same in
        let small : leb (calc_numblks ent.val_len) (mbuf_data_len / lba_size) ≡ true =
          ground (arith, same, blks_small) in
        let bytes : dummy_dev_read ent.lba (calc_numblks ent.val_len) dev'
            ≡ some (sg_bytes placed) =
          ap (λ n. dummy_dev_read ent.lba n dev') same ∙ at_lba_read in
        rw (found, bsys_io_read, small, bytes) (ap (λ v. some (value v)) value_same)

  -- From between two flushes, on a well-formed store, for a key shorter than its array, and if the
  -- allocations of the read succeed: a value that fits an mbuf with its metadata,
  -- and does not end with a block behind its first, is written by `bsys_io_write`, a flush and the
  -- callback of the flush with no fault, if the free list has a run of blocks for it besides the
  -- last block of the device. The key is then reported as written, the store is well-formed, and
  -- `bsys_io_read` of the key returns the value.
  pub bsys_io_read-write :
      (lba : ℕ) (l : List Extent)
      → get_blk (calc_numblks (length val)) s.freelist ≡ some (lba, l)
      → is_free l (max_lba_num - 1) ≡ true
      → (io : Io) × (((bsys_io_write city_hash64 key val (idle s dev armed) >>= bsys_io_write_flush)
            >>= io_write_cb city_hash64)
          ≡ some (io, key ∷ []))
        × IsStore io.store
        × (bsys_io_read city_hash64 true key io ≡ some (value val))
  unfolding blks after_cb io_write_cb update_all placed batched
  bsys_io_read-write lba l got top = (
    after_cb lba l got top,
    rw (written, flushed lba l got top, (stored lba l got top).1) refl,
    (stored lba l got top).2,
    read_back lba l got top,
  )
