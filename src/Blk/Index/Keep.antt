-- ===== src/Blk/Index/Keep.antt =====
-- `update_index` always succeeds on a well-formed store, and leaves one.
use mathlib.Core.Path.{subst}
use ix.Base.{ℕ, ◌-◌, ◌≡◌, refl, Option, none, some, List, arith}
use ix.Blk.{max_lba_num}
use ix.Blk.FreeList.{Extent}
use ix.Blk.FreeList.Free.{last_start-above, free_blk_lem, AllUsed}
use ix.Blk.Index.{Key, IndexEnt, Store, replace, bucket, update_index, set_chain, num_blks}
use ix.Blk.Index.Own.{
  IsStore, IsFresh, IsPlaced, OutPlaced, FreedOld, out_covers, replace-IsStore, replace-AllPlaced,
  covers-le-owned-replace, owned-replace,
}

module _ (city_hash64 : Key → ℕ) (meta : IndexEnt) (s : Store) (i : IsStore s)
    (f : IsFresh meta s) where
  abbrev home : ℕ
  home = bucket city_hash64 meta.key

  abbrev swapped : List IndexEnt × Option IndexEnt
  swapped = replace meta (s.indx home)

  linked : List Extent → Store
  linked l = record { indx = set_chain s.indx home swapped.0; freelist = l }

  Kept : Option IndexEnt → Type 0
  Kept out =
      (s' : Store) × (update_index city_hash64 meta s ≡ some s') × IsStore s' × FreedOld out s s'

  Kept-none : swapped.1 ≡ none → Kept none
  unfolding Kept linked update_index
  Kept-none e = (
    linked s.freelist,
    rw (e, update_index),
    replace-IsStore meta s (linked s.freelist) home i f refl (λ b. omega arith) i.valid i.top,
    λ b. refl,
  )

  -- the blocks of the entry taken out are in use
  old_used : (old : IndexEnt) → swapped.1 ≡ some old → AllUsed old.lba (num_blks old) s.freelist
  old_used old e b inside =
      let one : out_covers swapped.1 b ≡ 1 = rw (e, inside) in
      ground (
        arith,
        owned-replace meta (s.indx home) b,
        covers-le-owned-replace meta (s.indx home) b,
        i.once home b,
      )

  Kept-some : (old : IndexEnt) → swapped.1 ≡ some old → Kept (some old)
  unfolding Kept linked update_index
  Kept-some old e =
      let used = old_used old e in
      let place : OutPlaced swapped.1 =
        (replace-AllPlaced meta (s.indx home) f.placed (i.placed home)).1 in
      let place' : IsPlaced old = subst OutPlaced e place in
      let before =
        last_start-above 0 old.lba (max_lba_num - 1) s.freelist i.valid
          (used old.lba (ground arith)) i.top (omega arith) in
      let (l, done, freed) =
        free_blk_lem old.lba (num_blks old) s.freelist place'.0 before i.valid used in
      (
        linked l,
        rw (e, update_index, done),
        replace-IsStore meta s (linked l) home i f refl
            (λ b. rw e (ground (arith, freed.now_free b))) freed.sorted
            (rw freed.now_free (rw i.top)),
        freed.now_free,
      )

  kept : (out : Option IndexEnt) → swapped.1 ≡ out → Kept out
  kept none e = Kept-none e
  kept (some old) e = Kept-some old e

-- On a well-formed store, where every block of the device is free or owned by exactly one entry at
-- most, `update_index` of an entry whose blocks nobody owns meets no fault and leaves a
-- well-formed store. The free blocks are those of before and the ones of the replaced entry.
pub update_index-IsStore :
    (city_hash64 : Key → ℕ) (meta : IndexEnt) (s : Store)
    → IsStore s
    → IsFresh meta s
    → (s' : Store) × (update_index city_hash64 meta s ≡ some s')
      × IsStore s'
      × FreedOld (replace meta (s.indx (bucket city_hash64 meta.key))).1 s s'
unfolding Kept
update_index-IsStore city_hash64 meta s i f = kept city_hash64 meta s i f _ refl
