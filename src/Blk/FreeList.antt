-- ===== src/Blk/FreeList.antt =====
-- dp/core/blk_freelist.c: the list of free extents of the block device. The `next` links are the
-- order of the list; `none` is a failed assertion or a read through a null pointer, which ends
-- the program.
pub mod Alloc
pub mod Free
pub mod Get
pub mod Inv
pub mod RoundTrip
mod Tests
use ix.Base.{
  ℕ, ◌+◌, ◌<◌, Bool, ◌&&◌, Option, none, some, List, [], ◌∷◌, ltb, leb, ◌==◌, if◌then◌else◌, add32,
  sub32, ◌>>=◌,
}
use ix.Blk.{max_lba_num}

-- `struct freelist_ent`; a logical block address that the code stores is never negative.
pub record Extent : Type 0 where
  pub start_lba : ℕ
  pub lba_count : ℕ

-- `start_lba + lba_count`, computed in `uint32_t`
abbrev pub end32 : Extent → ℕ
end32 e = add32 e.start_lba e.lba_count

-- `freelist_init`
pub freelist_init : List Extent
freelist_init = record { start_lba = 0; lba_count = max_lba_num } ∷ []

-- `mark_used_blk` on the entry at the head of `e ∷ rest`: take its first blocks, or unlink it.
pub mark_used_blk : ℕ → Extent → List Extent → List Extent
mark_used_blk num_blks e rest =
    if ltb num_blks e.lba_count
    then record e { start_lba = add32 e.start_lba num_blks; lba_count = sub32 e.lba_count num_blks }
      ∷ rest
    else rest

-- the part of `alloc_block` behind its loop, at the entry where the loop stopped
pub alloc_at : ℕ → ℕ → Extent → List Extent → Option (List Extent)
unfolding mark_used_blk
alloc_at lba n e rest =
    if leb (add32 lba n) (end32 e)
    then if e.start_lba == lba
      then some (mark_used_blk n e rest)
      else if end32 e == add32 lba n
      then some (record e { lba_count = sub32 e.lba_count n } ∷ rest)
      else some (
          record e { lba_count = sub32 lba e.start_lba }
          ∷ record {
            start_lba = add32 lba n;
            lba_count = sub32 (sub32 e.lba_count n) (sub32 lba e.start_lba);
          }
          ∷ rest)
    else none

abbrev pub holds : Extent → ℕ → Bool
holds e lba = leb e.start_lba lba && ltb lba (end32 e)

-- `alloc_block`: the loop runs to the entry that holds `lba`, or to the last one.
pub alloc_block : ℕ → ℕ → List Extent → Option (List Extent)
unfolding alloc_at
alloc_block lba n [] = none
alloc_block lba n (e ∷ []) = alloc_at lba n e []
alloc_block lba n (e ∷ e' ∷ rest) =
    let later = alloc_block lba n (e' ∷ rest) in
    if holds e lba then alloc_at lba n e (e' ∷ rest) else later >>= λ l. some (e ∷ l)

-- `get_blk`: first fit. Here `none` is the result -1, with the list unchanged.
unfoldable pub get_blk : ℕ → List Extent → Option (ℕ × List Extent)
unfolding mark_used_blk
get_blk num_blks [] = none
get_blk num_blks (e ∷ rest) =
    let later = get_blk num_blks rest in
    if leb num_blks e.lba_count
    then some (e.start_lba, mark_used_blk num_blks e rest)
    else later >>= λ (lba, l). some (lba, e ∷ l)

unfoldable pub coalesce_blks : ℕ → ℕ → Extent → Extent
coalesce_blks lba count e = record {
  start_lba = if ltb lba e.start_lba then lba else e.start_lba;
  lba_count = add32 e.lba_count count;
}

-- `coalesce_entries` of two entries that are neighbours in the list
unfoldable pub coalesce_entries : Extent → Extent → Extent
coalesce_entries first second = record first { lba_count = add32 first.lba_count second.lba_count }

-- the last lines of `free_blk`, where nothing was linked between `prev` and `iter`
unfoldable pub free_finish : Extent → Extent → List Extent → List Extent
free_finish prev iter rest =
    if end32 prev == iter.start_lba then coalesce_entries prev iter ∷ rest else prev ∷ iter ∷ rest

-- `free_blk` behind its loop, with `prev` and `iter` the entries round `lba`. Where a new entry is
-- linked between two that touch, the assertion of `coalesce_entries` fails; where `prev` starts
-- at `lba` the new entry is not linked.
unfoldable pub free_between : ℕ → ℕ → Extent → Extent → List Extent → Option (List Extent)
free_between lba n prev iter rest =
    if end32 prev == lba
    then some (free_finish (coalesce_blks lba n prev) iter rest)
    else if add32 lba n == iter.start_lba
    then some (free_finish prev (coalesce_blks lba n iter) rest)
    else if ltb prev.start_lba lba
    then if end32 prev == iter.start_lba
      then none
      else some (prev ∷ record { start_lba = lba; lba_count = n } ∷ iter ∷ rest)
    else some (free_finish prev iter rest)

-- The loop of `free_blk` behind its first round. At the end of the list `iter` is null and is
-- read through.
unfoldable pub free_after : ℕ → ℕ → Extent → List Extent → Option (List Extent)
free_after lba n prev [] = none
free_after lba n prev (iter ∷ rest) =
    let later = free_after lba n iter rest in
    if ltb lba iter.start_lba
    then free_between lba n prev iter rest
    else later >>= λ l. some (prev ∷ l)

-- `free_blk` that stops at the first entry, with `prev` null
unfoldable pub free_front : ℕ → ℕ → Extent → List Extent → List Extent
free_front lba n iter rest =
    if add32 lba n == iter.start_lba
    then coalesce_blks lba n iter ∷ rest
    else record { start_lba = lba; lba_count = n } ∷ iter ∷ rest

unfoldable pub free_blk : ℕ → ℕ → List Extent → Option (List Extent)
free_blk lba n [] = none
free_blk lba n (e ∷ rest) =
    if ltb lba max_lba_num
    then if ltb lba e.start_lba then some (free_front lba n e rest) else free_after lba n e rest
    else none
