-- ===== src/Blk/Io/Space.antt =====
-- Blocks that a flush takes are owned by nobody until the callback of the flush.
use mathlib.Core.Path.{subst}
use ix.Base.{ℕ, ◌+◌, ◌-◌, ◌≤◌, ◌<◌, ◌≡◌, true, some, List, arith}
use ix.Blk.{max_lba_num}
use ix.Blk.FreeList.{Extent, get_blk}
use ix.Blk.FreeList.Inv.{is_free, is_free-lt}
use ix.Blk.FreeList.Get.{Took, Outcome, get_blk_lem}
use ix.Blk.Index.{IndexEnt, Store, num_blks}
use ix.Blk.Index.Own.{IsStore, IsFresh, free01}

module _ (s : Store) (n lba : ℕ) (l : List Extent) (i : IsStore s) (pos : 0 < n)
    (got : get_blk n s.freelist ≡ some (lba, l)) (top : is_free l (max_lba_num - 1) ≡ true) where
  took : Took 0 n s.freelist lba l
  took = subst (Outcome 0 n s.freelist) got (get_blk_lem n s.freelist pos i.valid)

  abbrev pub after : Store
  after = record s { freelist = l }

  fewer : (b : ℕ) → free01 after b ≤ free01 s b
  fewer b = ground (arith, took.now_free b)

  -- The store without the blocks is well-formed.
  pub get_blk-IsStore : IsStore after
  get_blk-IsStore = record {
    valid = took.sorted;
    top = top;
    placed = i.placed;
    once = λ h b. omega (arith, i.once h b, fewer b);
    apart = i.apart;
  }

  -- An entry with these blocks can be stored.
  pub get_blk-IsFresh : (meta : IndexEnt) → meta.lba ≡ lba → num_blks meta ≡ n → IsFresh meta after
  get_blk-IsFresh meta at size = record {
    placed = (
      omega (arith, pos),
      ground (
        arith,
        took.was_free (lba + n - 1),
        took.now_free (max_lba_num - 1),
        is_free-lt 0 (lba + n - 1) s.freelist i.valid,
      ),
    );
    unowned = λ h b inside. ground (arith, took.was_free b, i.once h b);
    taken = λ b inside. ground (arith, took.now_free b);
  }
